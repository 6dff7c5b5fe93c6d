-- ===== src/Req/Fsm/Machine.antt =====
-- The calls of a REQ socket with what a caller sees of them, and the machine that a REQ socket promises.
use quicmq.Base.{ℕ, Bool, true, false, Option, none, some, List, [], ◌∷◌}
use quicmq.Result.{Error, req_pending, req_not_pending}
use quicmq.Msg.{Msg}
use quicmq.Conn.{NetConn}
use quicmq.Req.{ReqSocket, add_conn, rm_conn, send, recv}

pub data Call : Type 0 where
  sends : Msg → Call
  recvs : ℕ → Call
  adds removes : ℕ → Call

-- What the caller sees of a call.
pub data Event : Type 0 where
  send_ends recv_ends : Option Error → Event
  conn_added conn_removed : Event

module _ {S : Type 0} where
  abbrev pub of_send : Option Error × ReqSocket S → Option (Event × ReqSocket S)
  of_send (e, sk) = some (send_ends e, sk)

  abbrev pub of_recv : Option ((Msg × Option Error) × ReqSocket S) → Option (Event × ReqSocket S)
  of_recv none = none
  of_recv (some ((m, e), sk)) = some (recv_ends e, sk)

  -- `none`: the call has not returned with the fuel that it was given.
  unfoldable pub step : NetConn S → Call → ReqSocket S → Option (Event × ReqSocket S)
  step io (sends msg) sk = of_send (send io msg sk)
  step io (recvs fuel) sk = of_recv (recv io fuel sk)
  step io (adds c) sk = some (conn_added, add_conn sk c)
  step io (removes c) sk = some (conn_removed, rm_conn sk c)

  abbrev pub then_run :
      Event × ReqSocket S
      → (ReqSocket S → Option (List Event × ReqSocket S))
      → Option (List Event × ReqSocket S)
  then_run (ev, sk) rest = elim (rest sk) [ none ↦ none | some (evs, sk') ↦ some (ev ∷ evs, sk') ]

  unfoldable pub run : NetConn S → List Call → ReqSocket S → Option (List Event × ReqSocket S)
  run io [] sk = some ([], sk)
  run io (c ∷ cs) sk = elim (step io c sk) [ none ↦ none | some r ↦ then_run r (run io cs) ]

-- The machine that a REQ socket promises: `true` is ready to send, `false` a request in flight.
pub data Trans : Bool → Event → Bool → Type 0 where
  send_accepted : Trans true (send_ends none) false
  send_failed : (e : Error) → Trans true (send_ends (some e)) true
  send_refused : Trans false (send_ends (some req_pending)) false
  recv_refused : Trans true (recv_ends (some req_not_pending)) true
  recv_over : (e : Option Error) → Trans false (recv_ends e) true
  added : (p : Bool) → Trans p conn_added p
  removed_other : (p : Bool) → Trans p conn_removed p
  removed_last : Trans false conn_removed true
