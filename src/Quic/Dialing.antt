-- ===== src/Quic/Dialing.antt =====
-- The UDP sockets of `quicTransport.Dial` on every path.
use quicmq.Base.{
  ℕ, ◌+◌, ◌≡◌, refl, Option, none, some, ◌==◌, arith, if◌then◌else◌, Bool-cases, inl, inr,
}
use mathlib.Core.Path.{subst}
use quicmq.Base.Conns.{count_conn, count-remove}
use quicmq.Result.{Error, Result, ok, err}
use quicmq.Quic.{
  Os, StreamConn, DialAnswers, open_socket, close_socket, close_with_error, with_stream, with_next,
  first_stream, after_handshake, with_conn, with_socket, resolved, dial, close_stream,
  ListenAnswers, ListenerConn, with_listener, listen_on, listen_resolved, listen, close_listener,
}

-- The open sockets after a Dial, by its answer: on an error they are those before, and on success
-- there is one more, the one under the new connection.
abbrev pub Settled : Os → Result StreamConn × Os → Type 0
Settled os (err e, os') = (d : ℕ) → count_conn d os'.open_udp ≡ count_conn d os.open_udp
Settled os (ok sc, os') =
    (d : ℕ)
    → count_conn d os'.open_udp
      ≡ (if sc.udp == d then count_conn d os.open_udp + 1 else count_conn d os.open_udp)

module _ (os : Os) (u : ℕ) where
  -- The socket u is open on top of what was open before.
  abbrev Holding : Os → Type 0
  Holding os1 =
      (d : ℕ)
      → count_conn d os1.open_udp
        ≡ (if u == d then count_conn d os.open_udp + 1 else count_conn d os.open_udp)

  close-Settled :
      (os1 : Os)
      → Holding os1
      → (d : ℕ) → count_conn d (close_socket u os1).open_udp ≡ count_conn d os.open_udp
  close-Settled os1 h d = ground (arith, count-remove u d os1.open_udp, h d)

  stream-Settled :
      (q : ℕ) (r : Result ℕ) (os1 : Os) → Holding os1 → Settled os (with_stream u q r os1)
  unfolding with_stream
  stream-Settled q (ok s) os1 h = h
  stream-Settled q (err e) os1 h = close-Settled (close_with_error q os1) h

  next-Settled :
      (a : DialAnswers) (q : ℕ) (r : Result ℕ) (os1 : Os)
      → Holding os1
      → Settled os (with_next a u q r os1)
  unfolding with_next
  next-Settled a q (ok next) os1 h = stream-Settled next a.stream_again os1 h
  next-Settled a q (err e) os1 h = close-Settled (close_with_error q os1) h

  first-Settled :
      (a : DialAnswers) (q : ℕ) (r : Result ℕ) (os1 : Os)
      → Holding os1
      → Settled os (first_stream a u q r os1)
  unfolding first_stream
  first-Settled a q (ok s) os1 h = stream-Settled q (ok s) os1 h
  first-Settled a q (err e) os1 h = elim (Bool-cases (a.rejected e)) [
    | inl again ↦ rw (again, first_stream) (next-Settled a q a.next os1 h)
    | inr other ↦ rw (other, first_stream) (stream-Settled q (err e) os1 h)
  ]

  handshake-Settled :
      (a : DialAnswers) (q : ℕ) (r : Option Error) (os1 : Os)
      → Holding os1
      → Settled os (after_handshake a u q r os1)
  unfolding after_handshake
  handshake-Settled a q (some e) os1 h = close-Settled (close_with_error q os1) h
  handshake-Settled a q none os1 h = first-Settled a q a.stream os1 h

  conn-Settled :
      (a : DialAnswers) (r : Result ℕ) (os1 : Os) → Holding os1 → Settled os (with_conn a u r os1)
  unfolding with_conn
  conn-Settled a (err e) os1 h = close-Settled os1 h
  conn-Settled a (ok q) os1 h = handshake-Settled a q a.handshake os1 h

socket-Settled : (a : DialAnswers) (r : Result ℕ) (os : Os) → Settled os (with_socket a r os)
unfolding with_socket count_conn
socket-Settled a (err e) os = λ d. refl
socket-Settled a (ok u) os = conn-Settled os u a a.early (open_socket u os) (λ d. refl)

resolved-Settled : (a : DialAnswers) (r : Option Error) (os : Os) → Settled os (resolved a r os)
unfolding resolved
resolved-Settled a (some e) os = λ d. refl
resolved-Settled a none os = socket-Settled a a.udp os

-- No socket leaks on an error: whatever net and quic-go answer, a Dial that fails leaves the open UDP
-- sockets as they were, and one that succeeds leaves one more, the one under its connection.
pub dial-Settled : (a : DialAnswers) (os : Os) → Settled os (dial a os)
unfolding dial
dial-Settled a os = resolved-Settled a a.resolve os

-- After a Dial that succeeded, Close of the connection leaves that socket open: one more than before
-- the Dial stays open for every connection that was dialed and closed.
pub dial_close_leaks :
    (a : DialAnswers) (os os1 : Os) (sc : StreamConn)
    → dial a os ≡ (ok sc, os1)
    → count_conn sc.udp (close_stream sc os1).open_udp ≡ count_conn sc.udp os.open_udp + 1
unfolding close_stream
dial_close_leaks a os os1 sc h =
    let settled : Settled os (ok sc, os1) = subst (Settled os) h (dial-Settled a os) in
    ground (arith, settled sc.udp)

-- The open sockets after a Listen, and after the Close of a listener that it returned: no change.
abbrev pub ListenSettled : Os → Result ListenerConn × Os → Type 0
ListenSettled os (err e, os1) = (d : ℕ) → count_conn d os1.open_udp ≡ count_conn d os.open_udp
ListenSettled os (ok l, os1) =
    (d : ℕ) → count_conn d (close_listener l os1).open_udp ≡ count_conn d os.open_udp

listener-Settled :
    (os : Os) (u : ℕ) (r : Result ℕ) → ListenSettled os (with_listener u r (open_socket u os))
unfolding with_listener close_listener count_conn
listener-Settled os u (err e) = λ d. close-Settled os u (open_socket u os) (λ k. refl) d
listener-Settled os u (ok l) = λ d. close-Settled os u (open_socket u os) (λ k. refl) d

on-Settled : (a : ListenAnswers) (r : Result ℕ) (os : Os) → ListenSettled os (listen_on a r os)
unfolding listen_on
on-Settled a (err e) os = λ d. refl
on-Settled a (ok u) os = listener-Settled os u a.listener

resolved_listen-Settled :
    (a : ListenAnswers) (r : Option Error) (os : Os) → ListenSettled os (listen_resolved a r os)
unfolding listen_resolved
resolved_listen-Settled a (some e) os = λ d. refl
resolved_listen-Settled a none os = on-Settled a a.udp os

-- Listening leaks no socket: a Listen that fails, and one that succeeds followed by Close, leave the
-- open UDP sockets as they were, whatever net and quic-go answer.
pub listen_settled : (a : ListenAnswers) (os : Os) → ListenSettled os (listen a os)
unfolding listen
listen_settled a os = resolved_listen-Settled a a.resolve os
