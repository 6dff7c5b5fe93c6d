-- ===== src/Datagram/Sockets.antt =====
-- datagram.go: Dial and Listen of the datagram sockets, and Close.
use quicmq.Base.{
  ℕ, ◌≡◌, refl, Bool, Option, none, some, [], ◌∷◌, ◌++◌, arith, if◌then◌else◌, Bool-cases, inl, inr,
}
use quicmq.Base.Bytes.{Bytes}
use quicmq.Base.Conns.{remove_conn, count_conn, count-remove}
use quicmq.Result.{
  Error, Result, ok, err, invalid_address, resolve_addr, listen_udp, quic_dial, open_stream,
  no_datagrams,
}
use quicmq.Quic.{Os, open_socket, close_socket, close_with_error}
use quicmq.Transport.{split_addr}

-- The connection fields of `DatagramSubSocket`, `none` for nil.
pub record SubLink : Type 0 where
  pub udp_conn : Option ℕ
  pub qconn : Option ℕ
  pub ctrl_stream : Option ℕ

-- What the calls of net and quic-go answer during one Dial.
pub record SubAnswers : Type 0 where
  pub resolve : Bytes → Option Error
  pub udp : Result ℕ
  pub conn : Result ℕ
  pub supports : Bool
  pub stream : Result ℕ

abbrev pub Dialed : Type 0
Dialed = Option Error × SubLink × Os

-- A failure behind the handshake closes the connection and the socket.
abbrev pub drop_conn : ℕ → ℕ → Error → SubLink → Os → Dialed
drop_conn u q e link os = (some e, link, close_socket u (close_with_error q os))

unfoldable pub with_stream : ℕ → ℕ → Result ℕ → SubLink → Os → Dialed
with_stream u q (err e) link os = drop_conn u q (open_stream e) link os
with_stream u q (ok s) link os = (none, record link { qconn = some q; ctrl_stream = some s }, os)

unfoldable pub with_conn : SubAnswers → ℕ → Result ℕ → SubLink → Os → Dialed
unfolding with_stream
with_conn a u (err e) link os = (some (quic_dial e), link, close_socket u os)
with_conn a u (ok q) link os =
    if a.supports then with_stream u q a.stream link os else drop_conn u q no_datagrams link os

-- `s.udpConn, err = net.ListenUDP(...)` stores nil on an error.
unfoldable pub with_udp : SubAnswers → Result ℕ → SubLink → Os → Dialed
unfolding with_conn
with_udp a (err e) link os = (some (listen_udp e), record link { udp_conn = none }, os)
with_udp a (ok u) link os =
    with_conn a u a.conn (record link { udp_conn = some u }) (open_socket u os)

unfoldable pub with_addr : SubAnswers → Option Error → SubLink → Os → Dialed
unfolding with_udp
with_addr a (some e) link os = (some (resolve_addr e), link, os)
with_addr a none link os = with_udp a a.udp link os

unfoldable pub dial_split : SubAnswers → Option (Bytes × Bytes) → SubLink → Os → Dialed
unfolding with_addr
dial_split a none link os = (some invalid_address, link, os)
dial_split a (some (network, addr)) link os = with_addr a (a.resolve addr) link os

-- `DatagramSubSocket.Dial`, before it sends the topics again.
unfoldable pub dial : SubAnswers → Bytes → SubLink → Os → Dialed
unfolding dial_split split_addr
dial a ep link os = dial_split a (split_addr ep) link os

-- The calls of `DatagramSubSocket.Close`.
abbrev pub close_ctrl : Option ℕ → Os → Os
close_ctrl none os = os
close_ctrl (some s) os = record os { closed_streams = os.closed_streams ++ s ∷ [] }

abbrev pub close_qconn : Option ℕ → Os → Os
close_qconn none os = os
close_qconn (some q) os = close_with_error q os

abbrev pub close_udp : Option ℕ → Os → Os
close_udp none os = os
close_udp (some u) os = close_socket u os

unfoldable pub close : SubLink → Os → Os
close link os = close_udp link.udp_conn (close_qconn link.qconn (close_ctrl link.ctrl_stream os))

abbrev pub unconnected : SubLink
unconnected = record { udp_conn = none; qconn = none; ctrl_stream = none }

-- The open sockets once Close has followed the Dial.
abbrev pub Restored : Os → Dialed → Type 0
Restored os (e, link, os1) =
    (d : ℕ) → count_conn d (close link os1).open_udp ≡ count_conn d os.open_udp

module _ (os : Os) (u : ℕ) (unused : count_conn u os.open_udp ≡ 0) where
  pub opened_closed :
      (d : ℕ) → count_conn d (remove_conn u (u ∷ os.open_udp)) ≡ count_conn d os.open_udp
  unfolding count_conn
  opened_closed d = ground (arith, count-remove u d (u ∷ os.open_udp))

  pub closed_twice :
      (d : ℕ)
      → count_conn d (remove_conn u (remove_conn u (u ∷ os.open_udp))) ≡ count_conn d os.open_udp
  closed_twice d = ground (
    arith,
    count-remove u d (remove_conn u (u ∷ os.open_udp)),
    opened_closed d,
    opened_closed u,
    unused,
  )

  stream-Restored :
      (q : ℕ) (r : Result ℕ)
      → Restored os
          (with_stream u q r (record unconnected { udp_conn = some u }) (open_socket u os))
  unfolding with_stream close
  stream-Restored q (ok s) = opened_closed
  stream-Restored q (err e) = closed_twice

  conn-Restored :
      (a : SubAnswers) (r : Result ℕ)
      → Restored os (with_conn a u r (record unconnected { udp_conn = some u }) (open_socket u os))
  unfolding with_conn close
  conn-Restored a (err e) = closed_twice
  conn-Restored a (ok q) = elim (Bool-cases a.supports) [
    | inl has ↦ rw (has, with_conn) (stream-Restored q a.stream)
    | inr lacks ↦ rw (lacks, with_conn) closed_twice
  ]

udp-Restored :
    (a : SubAnswers) (os : Os) (r : Result ℕ)
    → ((u : ℕ) → r ≡ ok u → count_conn u os.open_udp ≡ 0)
    → Restored os (with_udp a r unconnected os)
unfolding with_udp close
udp-Restored a os (err e) unused = λ d. refl
udp-Restored a os (ok u) unused = conn-Restored os u (unused u refl) a a.conn

addr-Restored :
    (a : SubAnswers) (os : Os) (r : Option Error)
    → ((u : ℕ) → a.udp ≡ ok u → count_conn u os.open_udp ≡ 0)
    → Restored os (with_addr a r unconnected os)
unfolding with_addr close
addr-Restored a os (some e) unused = λ d. refl
addr-Restored a os none unused = udp-Restored a os a.udp unused

split-Restored :
    (a : SubAnswers) (os : Os) (r : Option (Bytes × Bytes))
    → ((u : ℕ) → a.udp ≡ ok u → count_conn u os.open_udp ≡ 0)
    → Restored os (dial_split a r unconnected os)
unfolding dial_split close
split-Restored a os none unused = λ d. refl
split-Restored a os (some (network, addr)) unused = addr-Restored a os (a.resolve addr) unused

-- When DatagramSubSocket.Dial of a new socket, whatever it answers, is followed by Close, each UDP
-- socket is open exactly as often as before the Dial, provided that a socket it opens was not open.
pub dial-close :
    (a : SubAnswers) (ep : Bytes) (os : Os)
    → ((u : ℕ) → a.udp ≡ ok u → count_conn u os.open_udp ≡ 0)
    → Restored os (dial a ep unconnected os)
unfolding dial
dial-close a ep os unused = split-Restored a os (split_addr ep) unused
