-- ===== src/Datagram/Publisher.antt =====
-- datagram.go: Listen, acceptLoop and Close of the DatagramPub socket.
use quicmq.Base.{ℕ, ◌≡◌, refl, Bool, true, false, Option, none, some, [], ◌∷◌, ◌++◌}
use quicmq.Base.Bytes.{Bytes}
use quicmq.Base.Conns.{count_conn}
use quicmq.Result.{Error, Result, ok, err, invalid_address, resolve_addr, listen_udp, quic_listen}
use quicmq.Conn.{update}
use quicmq.Quic.{Os, open_socket, close_socket}
use quicmq.Transport.{split_addr}
use quicmq.Datagram.Sockets.{opened_closed, closed_twice}
use quicmq.Datagram.Peers.{Hub}

-- The fields of `DatagramPubSocket` for its listener, `none` for nil; `accepting` says that Listen has
-- started `acceptLoop`.
pub record PubLink : Type 0 where
  pub udp_conn : Option ℕ
  pub ql : Option ℕ
  pub accepting : Bool
  pub cancelled : Bool

-- What the calls of net and quic-go answer during one Listen.
pub record PubAnswers : Type 0 where
  pub resolve : Bytes → Option Error
  pub udp : Result ℕ
  pub listener : Result ℕ

abbrev pub Listened : Type 0
Listened = Option Error × PubLink × Os

-- `s.ql, err = s.tr.Listen(...)` stores nil on an error.
unfoldable pub with_listener : ℕ → Result ℕ → PubLink → Os → Listened
with_listener u (err e) link os =
    (some (quic_listen e), record link { ql = none }, close_socket u os)
with_listener u (ok l) link os = (none, record link { ql = some l; accepting = true }, os)

unfoldable pub listen_on : PubAnswers → Result ℕ → PubLink → Os → Listened
unfolding with_listener
listen_on a (err e) link os = (some (listen_udp e), record link { udp_conn = none }, os)
listen_on a (ok u) link os =
    with_listener u a.listener (record link { udp_conn = some u }) (open_socket u os)

unfoldable pub listen_resolved : PubAnswers → Option Error → PubLink → Os → Listened
unfolding listen_on
listen_resolved a (some e) link os = (some (resolve_addr e), link, os)
listen_resolved a none link os = listen_on a a.udp link os

unfoldable pub listen_split : PubAnswers → Option (Bytes × Bytes) → PubLink → Os → Listened
unfolding listen_resolved
listen_split a none link os = (some invalid_address, link, os)
listen_split a (some (network, addr)) link os = listen_resolved a (a.resolve addr) link os

-- `DatagramPubSocket.Listen`.
unfoldable pub listen : PubAnswers → Bytes → PubLink → Os → Listened
unfolding listen_split split_addr
listen a ep link os = listen_split a (split_addr ep) link os

-- The UDP socket's part of `DatagramPubSocket.Close`; the listener's own Close is quic-go's.
abbrev pub close_udp : Option ℕ → Os → Os
close_udp none os = os
close_udp (some u) os = close_socket u os

unfoldable pub close : PubLink → Os → PubLink × Os
close link os = (record link { cancelled = true }, close_udp link.udp_conn os)

-- A round of `acceptLoop` on a connection that was accepted: the peer p, without topics.
unfoldable pub accept_peer : {S : Type 0} → ℕ → S → Hub S → Hub S
accept_peer p q hub = record {
  peer_list = hub.peer_list ++ p ∷ [];
  peers = update hub.peers p (record { qconn = q; topics = [] });
}

abbrev pub not_listening : PubLink
not_listening = record { udp_conn = none; ql = none; accepting = false; cancelled = false }

-- The open sockets once Close has followed the Listen.
abbrev pub ListenRestored : Os → Listened → Type 0
ListenRestored os (e, link, os1) =
    (d : ℕ) → count_conn d (close link os1).1.open_udp ≡ count_conn d os.open_udp

on-ListenRestored :
    (os : Os) (u : ℕ) (r : Result ℕ)
    → count_conn u os.open_udp ≡ 0
    → ListenRestored os
        (with_listener u r (record not_listening { udp_conn = some u }) (open_socket u os))
unfolding with_listener close
on-ListenRestored os u (err e) unused = closed_twice os u unused
on-ListenRestored os u (ok l) unused = opened_closed os u unused

udp-ListenRestored :
    (a : PubAnswers) (os : Os) (r : Result ℕ)
    → ((u : ℕ) → r ≡ ok u → count_conn u os.open_udp ≡ 0)
    → ListenRestored os (listen_on a r not_listening os)
unfolding listen_on close
udp-ListenRestored a os (err e) unused = λ d. refl
udp-ListenRestored a os (ok u) unused = on-ListenRestored os u a.listener (unused u refl)

resolved-ListenRestored :
    (a : PubAnswers) (os : Os) (r : Option Error)
    → ((u : ℕ) → a.udp ≡ ok u → count_conn u os.open_udp ≡ 0)
    → ListenRestored os (listen_resolved a r not_listening os)
unfolding listen_resolved close
resolved-ListenRestored a os (some e) unused = λ d. refl
resolved-ListenRestored a os none unused = udp-ListenRestored a os a.udp unused

split-ListenRestored :
    (a : PubAnswers) (os : Os) (r : Option (Bytes × Bytes))
    → ((u : ℕ) → a.udp ≡ ok u → count_conn u os.open_udp ≡ 0)
    → ListenRestored os (listen_split a r not_listening os)
unfolding listen_split close
split-ListenRestored a os none unused = λ d. refl
split-ListenRestored a os (some (network, addr)) unused =
    resolved-ListenRestored a os (a.resolve addr) unused

-- When DatagramPubSocket.Listen of a new socket, whatever it answers, is followed by Close, each UDP
-- socket is open exactly as often as before the Listen, provided that a socket it opens was not open.
pub listen-close :
    (a : PubAnswers) (ep : Bytes) (os : Os)
    → ((u : ℕ) → a.udp ≡ ok u → count_conn u os.open_udp ≡ 0)
    → ListenRestored os (listen a ep not_listening os)
unfolding listen
listen-close a ep os unused = split-ListenRestored a os (split_addr ep) unused
