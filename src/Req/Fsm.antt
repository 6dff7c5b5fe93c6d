-- ===== src/Req/Fsm.antt =====
-- The REQ state machine: every call is a transition of the two-state machine that the socket
-- promises, so requests and replies alternate.
pub mod Machine
use quicmq.Base.{
  ℕ, zero, suc, ◌+◌, ◌≤◌, ◌≡◌, refl, Bool, true, false, Option, none, some, List, [], ◌∷◌, arith,
  inl, inr, Bool-cases, length,
}
use mathlib.Core.Path.{subst}
use quicmq.Base.Conns.{same_conn}
use quicmq.Result.{Error, req_all_failed, req_pending, req_not_pending}
use quicmq.Msg.{Msg}
use quicmq.Conn.{NetConn, Store, send_msg}
use quicmq.Req.{
  ReqState, ReqSocket, begin_request, abort_request, before_recv, finish_request, set, reset,
  add_conn, rm_conn, write_loop, write_to, write, send, recv, read_reply, after_attempt,
  after_write, accepted, cur_conn, after_read,
}
use quicmq.Req.Fsm.Machine.{
  Call, sends, recvs, adds, removes, Event, send_ends, recv_ends, conn_added, conn_removed, of_send,
  of_recv, then_run, step, run, Trans, send_accepted, send_failed, send_refused, recv_refused,
  recv_over, added, removed_other, removed_last,
}

module _ {S : Type 0} (io : NetConn S) where
  -- The writer either records the connection that took the request, or touches only the store.
  abbrev pub Wrote : ReqSocket S → Option Error × ReqSocket S → Type 0
  Wrote sk (none, sk') = (i : ℕ) × (st : Store S) × (sk' ≡ accepted sk i st)
  Wrote sk (some e, sk') = (st : Store S) × (sk' ≡ record sk { store = st })

  attempt-Wrote :
      (sk : ReqSocket S) (i : ℕ) (failed : Error → ReqSocket S → Option Error × ReqSocket S)
      (r : Option Error × Store S)
      → ((e : Error) (st : Store S) → Wrote sk (failed e (record sk { store = st })))
      → Wrote sk (after_attempt sk i failed r)
  attempt-Wrote sk i failed (none, st) k = (i, st, refl)
  attempt-Wrote sk i failed (some e, st) k = k e st

  -- Replacing the store first makes no difference.
  Wrote-store :
      (sk : ReqSocket S) (st : Store S) (r : Option Error × ReqSocket S)
      → Wrote (record sk { store = st }) r
      → Wrote sk r
  Wrote-store sk st (none, sk') h = h
  Wrote-store sk st (some e, sk') h = h

  write_loop-Wrote :
      (msg : Msg) (more i : ℕ) (sk : ReqSocket S) → Wrote sk (write_loop io msg more i sk)
  unfolding write_loop
  write_loop-Wrote msg zero i sk =
      attempt-Wrote sk i (λ e sk'. (some (req_all_failed e), sk'))
        (send_msg io (cur_conn sk.writer i) msg sk.store) (λ e st. (st, refl))
  write_loop-Wrote msg (suc more) i sk =
      let rest = λ (e : Error) (st : Store S).
        Wrote-store sk st (write_loop io msg more (i + 1) (record sk { store = st }))
          (write_loop-Wrote msg more (i + 1) (record sk { store = st })) in
      attempt-Wrote sk i (λ e sk'. write_loop io msg more (i + 1) sk')
        (send_msg io (cur_conn sk.writer i) msg sk.store) rest

  write_to-Wrote : (msg : Msg) (cs : List ℕ) (sk : ReqSocket S) → Wrote sk (write_to io msg cs sk)
  unfolding write_to
  write_to-Wrote msg [] sk = (sk.store, refl)
  write_to-Wrote msg (c ∷ cs) sk = write_loop-Wrote msg (length cs) 0 sk

  pub write-Wrote : (msg : Msg) (sk : ReqSocket S) → Wrote sk (write io msg sk)
  unfolding write
  write-Wrote msg sk = write_to-Wrote (record msg { frames = [] ∷ msg.frames }) sk.writer.conns sk

  abbrev Steps : Bool → Option (Event × ReqSocket S) → Type 0
  Steps p none = Unit {0}
  Steps p (some (ev, sk)) = Trans p ev sk.state.ready_to_req

  sent-Steps :
      (sk : ReqSocket S) (r : Option Error × ReqSocket S)
      → sk.state.ready_to_req ≡ false
      → Wrote sk r
      → Steps true (of_send (after_write r))
  unfolding set abort_request
  sent-Steps sk (none, sk') h (i, st, e) = rw (e, h) send_accepted
  sent-Steps sk (some x, sk') h (st, e) = send_failed x

  send-Steps :
      (msg : Msg) (sk : ReqSocket S) → Steps sk.state.ready_to_req (of_send (send io msg sk))
  unfolding send begin_request
  send-Steps msg sk =
      let started = record sk { state = record (sk.state) { ready_to_req = false } } in
      elim (Bool-cases sk.state.ready_to_req) [
        | inl e ↦
            rw (e, begin_request)
              (sent-Steps started (write io msg started) refl (write-Wrote msg started))
        | inr e ↦ rw (e, begin_request) send_refused
      ]

  over-Steps :
      (r : Option ((Msg × Option Error) × ReqSocket S)) → Steps false (of_recv (after_read r))
  unfolding abort_request finish_request
  over-Steps none = tt
  over-Steps (some ((m, some e), sk)) = recv_over (some e)
  over-Steps (some ((m, none), sk)) = recv_over none

  recv-Steps :
      (fuel : ℕ) (sk : ReqSocket S) → Steps sk.state.ready_to_req (of_recv (recv io fuel sk))
  unfolding recv before_recv
  recv-Steps fuel sk =
      let waiting = record sk { state = record (sk.state) { ready_to_req = false } } in
      elim (Bool-cases sk.state.ready_to_req) [
        | inl e ↦ rw (e, before_recv) recv_refused
        | inr e ↦ rw (e, before_recv) (over-Steps (read_reply io fuel waiting))
      ]

  reset-Trans :
      (rs : ReqState) (c : ℕ) → Trans rs.ready_to_req conn_removed (reset rs c).ready_to_req
  unfolding reset
  reset-Trans rs c = elim (Bool-cases (same_conn rs.last_conn c)) [
    | inr e ↦ rw (e, reset) (removed_other rs.ready_to_req)
    | inl e ↦ elim (Bool-cases rs.ready_to_req) [
      | inl r ↦ rw (e, r, reset) (removed_other true)
      | inr r ↦ rw (e, r, reset) removed_last
    ]
  ]

  step_lem : (c : Call) (sk : ReqSocket S) → Steps sk.state.ready_to_req (step io c sk)
  unfolding step add_conn rm_conn
  step_lem (sends msg) sk = send-Steps msg sk
  step_lem (recvs fuel) sk = recv-Steps fuel sk
  step_lem (adds c) sk = added sk.state.ready_to_req
  step_lem (removes c) sk = reset-Trans sk.state c

  Steps→Trans :
      (p : Bool) (r : Option (Event × ReqSocket S)) (ev : Event) (sk : ReqSocket S)
      → Steps p r
      → r ≡ some (ev, sk)
      → Trans p ev sk.state.ready_to_req
  Steps→Trans p none ev sk h e = absurd (ground arith)
  Steps→Trans p (some (ev', sk')) ev sk h e = subst (λ r. Steps p r) e h

  -- Refinement: every Send, Recv, connection added and connection removed that returns is, from any
  -- state of the socket and with any connections, a transition of the two-state machine, with the
  -- event that the caller sees.
  pub step-Trans :
      (c : Call) (sk sk' : ReqSocket S) (ev : Event)
      → step io c sk ≡ some (ev, sk')
      → Trans sk.state.ready_to_req ev sk'.state.ready_to_req
  step-Trans c sk sk' ev e = Steps→Trans _ (step io c sk) ev sk' (step_lem c sk) e

-- The requests that were accepted, and the events that may end one.
unfoldable pub sent_count : List Event → ℕ
sent_count [] = 0
sent_count (send_ends none ∷ evs) = suc (sent_count evs)
sent_count (_ ∷ evs) = sent_count evs

unfoldable pub ended_count : List Event → ℕ
ended_count [] = 0
ended_count (recv_ends e ∷ evs) = suc (ended_count evs)
ended_count (conn_removed ∷ evs) = suc (ended_count evs)
ended_count (_ ∷ evs) = ended_count evs

-- The credit of a state: one request more may be accepted.
abbrev pub credit : Bool → ℕ
credit true = 1
credit false = 0

Trans-credit :
    (p q : Bool) (ev : Event) (evs : List Event)
    → Trans p ev q
    → sent_count evs ≤ credit q + ended_count evs
    → sent_count (ev ∷ evs) ≤ credit p + ended_count (ev ∷ evs)
unfolding sent_count ended_count
Trans-credit p q ev evs send_accepted h = omega arith
Trans-credit p q ev evs (send_failed e) h = omega arith
Trans-credit p q ev evs send_refused h = omega arith
Trans-credit p q ev evs recv_refused h = omega arith
Trans-credit p q ev evs (recv_over e) h = omega arith
Trans-credit p q ev evs (added r) h = h
Trans-credit p q ev evs (removed_other r) h = omega arith
Trans-credit p q ev evs removed_last h = omega arith

module _ {S : Type 0} (io : NetConn S) where
  abbrev Counted : Bool → Option (List Event × ReqSocket S) → Type 0
  Counted p none = Unit {0}
  Counted p (some (evs, sk)) = sent_count evs ≤ credit p + ended_count evs

  cons-Counted :
      (p : Bool) (ev : Event) (sk : ReqSocket S) (o : Option (List Event × ReqSocket S))
      → Trans p ev sk.state.ready_to_req
      → Counted sk.state.ready_to_req o
      → Counted p (elim o [ none ↦ none | some (evs, sk') ↦ some (ev ∷ evs, sk') ])
  cons-Counted p ev sk none t h = tt
  cons-Counted p ev sk (some (evs, sk')) t h = Trans-credit p _ ev evs t h

  first-Counted :
      (p : Bool) (r : Option (Event × ReqSocket S))
      (rest : ReqSocket S → Option (List Event × ReqSocket S))
      → Steps io p r
      → ((sk : ReqSocket S) → Counted sk.state.ready_to_req (rest sk))
      → Counted p (elim r [ none ↦ none | some x ↦ then_run x rest ])
  first-Counted p none rest s h = tt
  first-Counted p (some (ev, sk)) rest s h = cons-Counted p ev sk (rest sk) s (h sk)

  run-Counted : (cs : List Call) (sk : ReqSocket S) → Counted sk.state.ready_to_req (run io cs sk)
  unfolding run sent_count
  run-Counted [] sk = omega arith
  run-Counted (c ∷ cs) sk =
      first-Counted sk.state.ready_to_req (step io c sk) (run io cs) (step_lem io c sk)
        (run-Counted cs)

  -- Alternation: in every sequence of calls that return, from any state of the socket, the accepted
  -- Sends exceed the Recvs and removed connections by at most one, and by none if a request was in
  -- flight at the start.
  pub run-alternates :
      (cs : List Call) (sk sk' : ReqSocket S) (evs : List Event)
      → run io cs sk ≡ some (evs, sk')
      → sent_count evs ≤ credit sk.state.ready_to_req + ended_count evs
  run-alternates cs sk sk' evs h =
      let counted : Counted sk.state.ready_to_req (some (evs, sk')) =
        subst (Counted sk.state.ready_to_req) h (run-Counted cs sk) in
      counted
