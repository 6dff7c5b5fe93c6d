-- ===== src/ConnectionPool.antt =====
-- pool.go: one QUIC connection for each remote address, shared by the sockets that dial it.
pub mod Ownership
pub mod Sharing
use quicmq.Base.{
  ℕ, ◌+◌, Bool, true, false, Option, none, some, List, [], ◌∷◌, ◌++◌, length, if◌then◌else◌,
}
use quicmq.Base.Bytes.{Bytes, beq}
use quicmq.Result.{Error, Result, ok, err, resolve_addr, listen_udp, quic_dial, open_stream}
use quicmq.Quic.{Os, StreamConn, open_socket, close_socket, close_with_error, parse_quic_addr}

-- `poolEntry`.
pub record Entry : Type 0 where
  pub qconn : ℕ
  pub udp : ℕ

-- `entries`.
abbrev pub Entries : Type 0
Entries = List (Bytes × Entry)

unfoldable pub get_entry : Bytes → Entries → Option Entry
get_entry addr [] = none
get_entry addr ((a, e) ∷ es) = let rest = get_entry addr es in if beq a addr then some e else rest

-- `delete(p.entries, addr)`.
unfoldable pub delete_entry : Bytes → Entries → Entries
delete_entry addr [] = []
delete_entry addr ((a, e) ∷ es) =
    let rest = delete_entry addr es in if beq a addr then rest else (a, e) ∷ rest

-- `p.entries[addr] = entry`.
unfoldable pub put_entry : Bytes → Entry → Entries → Entries
unfolding delete_entry
put_entry addr e es = (addr, e) ∷ delete_entry addr es

-- What the calls of net and quic-go answer during one Dial: `alive` says of a connection that its
-- context is not done, and `handshake` is the error of ctx if that is done before the handshake.
pub record PoolAnswers : Type 0 where
  pub alive : ℕ → Bool
  pub resolve : Option Error
  pub udp : Result ℕ
  pub early : Result ℕ
  pub handshake : Option Error
  pub stream : Result ℕ

-- The pool and the process around it.
pub record Pool : Type 0 where
  pub entries : Entries
  pub os : Os

-- The end of `Dial`: a new stream on the connection of the entry.
unfoldable pub stream_on : Entry → Result ℕ → Pool → Result StreamConn × Pool
stream_on e (ok s) p = (ok (record { stream = s; qconn = e.qconn; udp = e.udp }), p)
stream_on e (err x) p = (err (open_stream x), p)

-- The fresh connection of `Dial`, call by call.
unfoldable pub after_handshake :
    PoolAnswers → Bytes → Entry → Option Error → Pool → Result StreamConn × Pool
unfolding stream_on put_entry
after_handshake a addr e (some x) p =
    (err x, record p { os = close_socket e.udp (close_with_error e.qconn p.os) })
after_handshake a addr e none p =
    stream_on e a.stream (record p { entries = put_entry addr e p.entries })

unfoldable pub with_conn : PoolAnswers → Bytes → ℕ → Result ℕ → Pool → Result StreamConn × Pool
unfolding after_handshake
with_conn a addr u (err x) p = (err (quic_dial x), record p { os = close_socket u p.os })
with_conn a addr u (ok q) p = after_handshake a addr (record { qconn = q; udp = u }) a.handshake p

unfoldable pub with_socket : PoolAnswers → Bytes → Result ℕ → Pool → Result StreamConn × Pool
unfolding with_conn
with_socket a addr (err x) p = (err (listen_udp x), p)
with_socket a addr (ok u) p = with_conn a addr u a.early (record p { os = open_socket u p.os })

unfoldable pub dial_fresh : PoolAnswers → Bytes → Option Error → Pool → Result StreamConn × Pool
unfolding with_socket
dial_fresh a addr (some x) p = (err (resolve_addr x), p)
dial_fresh a addr none p = with_socket a addr a.udp p

-- The UDP socket of a dead connection is closed, and its entry deleted.
abbrev pub forget : Bytes → Entry → Pool → Pool
forget addr e p = record { entries = delete_entry addr p.entries; os = close_socket e.udp p.os }

unfoldable pub dial_entry : PoolAnswers → Bytes → Option Entry → Pool → Result StreamConn × Pool
unfolding dial_fresh stream_on delete_entry
dial_entry a addr none p = dial_fresh a addr a.resolve p
dial_entry a addr (some e) p =
    if a.alive e.qconn
    then stream_on e a.stream p
    else dial_fresh a addr a.resolve (forget addr e p)

-- `ConnectionPool.Dial`.
unfoldable pub dial : PoolAnswers → Bytes → Pool → Result StreamConn × Pool
unfolding dial_entry get_entry parse_quic_addr
dial a ep p = let addr = parse_quic_addr ep in dial_entry a addr (get_entry addr p.entries) p

-- The loop of `Close`, in any order of the map.
unfoldable pub close_loop : Entries → Os → Os
close_loop [] os = os
close_loop ((a, e) ∷ es) os = close_loop es (close_socket e.udp (close_with_error e.qconn os))

-- `Close`, without the text that it makes of the errors of CloseWithError.
unfoldable pub close : Pool → Pool
unfolding close_loop
close p = record { entries = []; os = close_loop p.entries p.os }

-- `Len`.
unfoldable pub len : Pool → ℕ
len p = length p.entries

-- `LocalAddr`, as the socket that has the address.
unfoldable pub local_addr : Bytes → Pool → Option ℕ
unfolding get_entry
local_addr addr p = elim (get_entry addr p.entries) [ none ↦ none | some e ↦ some e.udp ]
