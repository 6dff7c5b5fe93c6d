-- ===== src/Exchange/Session.antt =====
-- A requester and a replier that talk to each other: req.go, rep.go and conn.go, call after call.
pub mod Rounds
pub mod Sides
use quicmq.Base.{
  ℕ, zero, suc, ◌+◌, ◌<◌, ◌≡◌, Bool, true, false, Option, none, some, List, [], ◌∷◌, ◌++◌, drop,
  length, ◌>>=◌,
}
use quicmq.Base.Bytes.{Bytes}
use quicmq.Base.Conns.{count_conn}
use quicmq.Msg.{Msg}
use quicmq.Conn.{NetConn, Store, set_rw, read}
use quicmq.Conn.Stream.{IsStream}
use quicmq.Conn.Link.{IsLink, new_bytes, arrive, fuel_for}
use quicmq.Req
use quicmq.Req.{ReqSocket}
use quicmq.Rep
use quicmq.Rep.{RepSocket, listen_step, run_step}

-- A call that reports no error.
abbrev pub fine : {A : Type 0} {E : Type 0} → Option E × A → Option A
fine (none, x) = some x
fine (some e, x) = none

abbrev pub received_msg : {A : Type 0} {E : Type 0} → (Msg × Option E) × A → Option (Msg × A)
received_msg ((m, none), x) = some (m, x)
received_msg ((m, some e), x) = none

-- The two sockets. The requester reads and writes its connection c, the replier its connection d.
pub record System (S T : Type 0) : Type 0 where
  pub req : ReqSocket S
  pub rep : RepSocket T

module _ {T : Type 0} {peer : NetConn T} {b : IsStream peer} (there : IsLink b) (d : ℕ) where
  -- The replier's part of a call: its listener reads and queues the request, the program receives it
  -- and sends its answer, and the goroutine writes that.
  unfoldable pub serve : (Msg → Msg) → RepSocket T → Option (Msg × RepSocket T)
  serve answer rep = do
    (m, st) ← read peer (fuel_for there d rep.store) d rep.store
    (_, rep1) ← listen_step peer (record rep { store = st }) d m
    (request, rep2) ← Rep.recv none rep1 >>= received_msg
    rep3 ← Rep.send none (answer request) rep2 >>= fine
    some (request, run_step peer rep3)

module _ {S T : Type 0} {io : NetConn S} {peer : NetConn T} {a : IsStream io} {b : IsStream peer}
    (here : IsLink a) (there : IsLink b) (c d : ℕ) where
  -- One call: the request goes out and arrives, is served, and the reply comes back. The answer is
  -- what the replier's program received and what the requester's did.
  unfoldable pub call : (Msg → Msg) → Msg → System S T → Option ((Msg × Msg) × System S T)
  unfolding serve
  call answer msg sys = do
    req1 ← fine (Req.send io msg sys.req)
    let out = new_bytes here (sys.req.store.conns c).rw (req1.store.conns c).rw
    let rep1 = record (sys.rep) { store = arrive there d out sys.rep.store }
    (request, rep2) ← serve there d answer rep1
    let back = new_bytes there (rep1.store.conns d).rw (rep2.store.conns d).rw
    let req2 = record req1 { store = arrive here c back req1.store }
    (reply, req3) ← Req.recv io (fuel_for here c req2.store) req2 >>= received_msg
    some ((request, reply), record { req = req3; rep = rep2 })

  -- Call after call, with the requests and the replies that were received.
  unfoldable pub calls :
      (Msg → Msg) → List Msg → System S T → Option (List (Msg × Msg) × System S T)
  unfolding call
  calls answer [] sys = some ([], sys)
  calls answer (m ∷ ms) sys = do
    (x, sys1) ← call answer m sys
    (xs, sys2) ← calls answer ms sys1
    some (x ∷ xs, sys2)
