-- ===== src/Quic.antt =====
-- transport_quic.go: dialing over QUIC, and the streams as connections.
pub mod Config
pub mod Dialing
pub mod Listener
use quicmq.Base.{
  ℕ, Bool, true, false, Option, none, some, List, [], ◌∷◌, ◌++◌, drop, length, if◌then◌else◌,
}
use quicmq.Base.Bytes.{Bytes, has_prefix}
use quicmq.Base.Conns.{remove_conn}
use quicmq.Result.{
  Error, Result, ok, err, resolve_addr, listen_udp, quic_dial, quic_handshake, quic_fallback,
  open_stream, quic_listen,
}

-- What the process holds open and has closed: UDP sockets that are open, and the QUIC connections and
-- streams that Close was called on.
pub record Os : Type 0 where
  pub open_udp : List ℕ
  pub closed_conns : List ℕ
  pub closed_streams : List ℕ

abbrev pub open_socket : ℕ → Os → Os
open_socket u os = record os { open_udp = u ∷ os.open_udp }

abbrev pub close_socket : ℕ → Os → Os
close_socket u os = record os { open_udp = remove_conn u os.open_udp }

abbrev pub close_with_error : ℕ → Os → Os
close_with_error q os = record os { closed_conns = os.closed_conns ++ q ∷ [] }

-- "quic://", "quic+udp://" and "udp://".
abbrev pub quic_scheme : Bytes
quic_scheme = 113 ∷ 117 ∷ 105 ∷ 99 ∷ 58 ∷ 47 ∷ 47 ∷ []

abbrev pub quic_udp_scheme : Bytes
quic_udp_scheme = 113 ∷ 117 ∷ 105 ∷ 99 ∷ 43 ∷ 117 ∷ 100 ∷ 112 ∷ 58 ∷ 47 ∷ 47 ∷ []

abbrev pub udp_scheme : Bytes
udp_scheme = 117 ∷ 100 ∷ 112 ∷ 58 ∷ 47 ∷ 47 ∷ []

-- The loop of `parseQUICAddr` over the prefixes.
unfoldable pub strip_first : List Bytes → Bytes → Bytes
strip_first [] addr = addr
strip_first (p ∷ ps) addr =
    let rest = strip_first ps addr in if has_prefix addr p then drop (length p) addr else rest

unfoldable pub parse_quic_addr : Bytes → Bytes
unfolding strip_first
parse_quic_addr = strip_first (quic_scheme ∷ quic_udp_scheme ∷ udp_scheme ∷ [])

-- `streamConn`, with the UDP socket under its connection.
pub record StreamConn : Type 0 where
  pub stream : ℕ
  pub qconn : ℕ
  pub udp : ℕ

-- `streamConn.Close` closes the stream only.
unfoldable pub close_stream : StreamConn → Os → Os
close_stream sc os = record os { closed_streams = os.closed_streams ++ sc.stream ∷ [] }

-- What the calls of net and quic-go answer during one Dial: `handshake` is the context's error if it
-- is done before the handshake, and `rejected` is `isErr0RTTRejected`.
pub record DialAnswers : Type 0 where
  pub resolve : Option Error
  pub udp : Result ℕ
  pub early : Result ℕ
  pub handshake : Option Error
  pub stream : Result ℕ
  pub rejected : Error → Bool
  pub next : Result ℕ
  pub stream_again : Result ℕ

abbrev pub give_up : ℕ → ℕ → Error → Os → Result StreamConn × Os
give_up u q e os = (err e, close_socket u (close_with_error q os))

-- From the last OpenStreamSync on, on connection q over socket u.
unfoldable pub with_stream : ℕ → ℕ → Result ℕ → Os → Result StreamConn × Os
with_stream u q (ok s) os = (ok (record { stream = s; qconn = q; udp = u }), os)
with_stream u q (err e) os = give_up u q (open_stream e) os

-- The fallback to the connection that follows a rejected 0-RTT attempt.
unfoldable pub with_next : DialAnswers → ℕ → ℕ → Result ℕ → Os → Result StreamConn × Os
unfolding with_stream
with_next a u q (ok next) os = with_stream u next a.stream_again os
with_next a u q (err e) os = give_up u q (quic_fallback e) os

unfoldable pub first_stream : DialAnswers → ℕ → ℕ → Result ℕ → Os → Result StreamConn × Os
unfolding with_stream with_next
first_stream a u q (ok s) os = with_stream u q (ok s) os
first_stream a u q (err e) os =
    if a.rejected e then with_next a u q a.next os else with_stream u q (err e) os

unfoldable pub after_handshake : DialAnswers → ℕ → ℕ → Option Error → Os → Result StreamConn × Os
unfolding first_stream
after_handshake a u q (some e) os = give_up u q (quic_handshake e) os
after_handshake a u q none os = first_stream a u q a.stream os

unfoldable pub with_conn : DialAnswers → ℕ → Result ℕ → Os → Result StreamConn × Os
unfolding after_handshake
with_conn a u (err e) os = (err (quic_dial e), close_socket u os)
with_conn a u (ok q) os = after_handshake a u q a.handshake os

unfoldable pub with_socket : DialAnswers → Result ℕ → Os → Result StreamConn × Os
unfolding with_conn
with_socket a (err e) os = (err (listen_udp e), os)
with_socket a (ok u) os = with_conn a u a.early (open_socket u os)

unfoldable pub resolved : DialAnswers → Option Error → Os → Result StreamConn × Os
unfolding with_socket
resolved a (some e) os = (err (resolve_addr e), os)
resolved a none os = with_socket a a.udp os

-- `quicTransport.Dial`.
unfoldable pub dial : DialAnswers → Os → Result StreamConn × Os
unfolding resolved
dial a os = resolved a a.resolve os

-- What the calls of net and quic-go answer during one Listen.
pub record ListenAnswers : Type 0 where
  pub resolve : Option Error
  pub udp : Result ℕ
  pub listener : Result ℕ

-- A `quicListener` over its UDP socket.
pub record ListenerConn : Type 0 where
  pub ql : ℕ
  pub udp : ℕ

unfoldable pub with_listener : ℕ → Result ℕ → Os → Result ListenerConn × Os
with_listener u (err e) os = (err (quic_listen e), close_socket u os)
with_listener u (ok l) os = (ok (record { ql = l; udp = u }), os)

unfoldable pub listen_on : ListenAnswers → Result ℕ → Os → Result ListenerConn × Os
unfolding with_listener
listen_on a (err e) os = (err (listen_udp e), os)
listen_on a (ok u) os = with_listener u a.listener (open_socket u os)

unfoldable pub listen_resolved : ListenAnswers → Option Error → Os → Result ListenerConn × Os
unfolding listen_on
listen_resolved a (some e) os = (err (resolve_addr e), os)
listen_resolved a none os = listen_on a a.udp os

-- `quicTransport.Listen`.
unfoldable pub listen : ListenAnswers → Os → Result ListenerConn × Os
unfolding listen_resolved
listen a os = listen_resolved a a.resolve os

-- `quicListener.Close`, the UDP socket's part.
unfoldable pub close_listener : ListenerConn → Os → Os
close_listener l os = close_socket l.udp os
