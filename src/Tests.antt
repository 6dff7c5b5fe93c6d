-- ===== src/Tests.antt =====
-- Concrete inputs: a store whose connections are pipes in memory.
pub mod Conns
pub mod Datagrams
pub mod Requests
pub mod Replies
pub mod Peers
pub mod Links
pub mod Publishing
pub mod Queues
pub mod Sockets
pub mod Sessions
pub mod Settings
pub mod Transports
pub mod Opening
pub mod Delivery
use quicmq.Base.{
  ℕ, zero, suc, ◌+◌, ◌-◌, ◌^◌, ◌<◌, ◌≤◌, ◌≡◌, ◌≢◌, refl, Bool, true, false, Option, none, some,
  List, [], ◌∷◌, ◌++◌, arith, length, All, if◌then◌else◌, ◌==◌, ◌⊎◌, ◌↔◌, inl, inr,
}
use quicmq.Base.Bytes.{Bytes}
use quicmq.Msg.{Msg, msg_of, req_type}
use quicmq.Conn.{Conn, Store}
use quicmq.Conn.Stream.{Pipe}

-- A pipe that holds the bytes still to be read, and one that is cut.
abbrev pub holding : Bytes → Pipe
holding bs = record { outbox = []; inbox = bs; cut = false }

abbrev pub cut_pipe : Pipe
cut_pipe = record { outbox = []; inbox = []; cut = true }

abbrev pub conn_over : Pipe → Conn Pipe
conn_over p = record {
  typ = req_type;
  rw = p;
  server = false;
  topics = [];
  closed = false;
  has_callback = true;
}

-- Every connection over a pipe of its own.
abbrev pub store_over : Pipe → Store Pipe
store_over p = record {
  conns = λ _. conn_over p;
  reaper = record { closed_conns = []; reconnects = 0; auto_reconnect = true; is_dialer = true };
}

abbrev pub greeting : Msg
greeting = msg_of ((104 ∷ 105 ∷ []) ∷ [] ∷ (33 ∷ []) ∷ [])

-- The greeting on the wire.
abbrev pub greeting_bytes : Bytes
greeting_bytes = 1 ∷ 0 ∷ 0 ∷ 0 ∷ 2 ∷ 104 ∷ 105 ∷ 1 ∷ 0 ∷ 0 ∷ 0 ∷ 0 ∷ 0 ∷ 0 ∷ 0 ∷ 0 ∷ 1 ∷ 33 ∷ []
