-- ===== src/ConnectionPool/Sharing.antt =====
-- Sockets that dial one address share one connection.
use quicmq.Base.{◌≡◌, some}
use quicmq.Base.Bytes.{Bytes}
use quicmq.Result.{Result, ok, err}
use quicmq.Quic.{StreamConn}
use quicmq.ConnectionPool.{Entry, Pool, get_entry}

-- The entry of the connection that a Dial has returned a stream of.
abbrev pub entry_of : StreamConn → Entry
entry_of sc = record { qconn = sc.qconn; udp = sc.udp }

-- A Dial that succeeds leaves its connection in the pool.
abbrev Registered : Bytes → Result StreamConn × Pool → Type 0
Registered addr (err x, p) = Unit {0}
Registered addr (ok sc, p) = get_entry addr p.entries ≡ some (entry_of sc)
