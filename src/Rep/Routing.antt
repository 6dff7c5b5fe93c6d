-- ===== src/Rep/Routing.antt =====
-- To whom a REP socket sends: one reply for each request, to the connection that the request came
-- from.
use quicmq.Base.{
  ℕ, ◌+◌, ◌≡◌, refl, ap, ◌∙◌, false, Option, none, some, List, [], ◌∷◌, arith, if◌then◌else◌, ◌==◌,
  ==_iff, Bool-cases, inl, inr,
}
use quicmq.Base.Conns.{count_conn}
use quicmq.Base.Bytes.{Bytes}
use quicmq.Result.{Error, rep_no_request}
use quicmq.Msg.{Msg}
use quicmq.Conn.{NetConn, Store, send_msg}
use quicmq.Rep.{
  RepMsg, RepSocket, Payload, split_req, build_reply_msg, recv, recv_from, send, send_to, run_step,
  send_payload, set, clear, accept_request, take_request, hand_over,
}

-- The payload of a reply to the request rm, whose envelope is pre.
abbrev pub reply_to : RepMsg → List Bytes → Msg → Payload
reply_to rm pre reply = record { conn = rm.conn; preamble = pre; msg = reply }

module _ {S : Type 0} where
  -- One request, one reply: when a well-formed request is at the head of the queue and the sending
  -- goroutine is free, Recv returns its payload, the next Send hands over the reply for exactly the
  -- connection and the envelope of that request, and a second Send is refused and changes nothing.
  pub send-recv :
      (sk : RepSocket S) (rm : RepMsg) (rest : List RepMsg) (pre : List Bytes)
      (inner reply again : Msg) (cancelled : Option Error)
      → sk.msg_ch ≡ rm ∷ rest
      → rm.msg.err ≡ none
      → split_req rm.msg ≡ some (pre, inner)
      → sk.running ≡ none
      → (sk1 : RepSocket S) × (sk2 : RepSocket S) × (recv none sk ≡ some ((inner, none), sk1))
        × (send none reply sk1 ≡ some (none, sk2))
        × (sk2.running ≡ some (reply_to rm pre reply))
        × (sk2.msg_ch ≡ rest)
        × (send cancelled again sk2 ≡ some (some rep_no_request, sk2))
  unfolding recv send
  send-recv sk rm rest pre inner reply again cancelled q fine split free =
      let sk1 = record sk { msg_ch = rest; state = set sk.state rm.conn pre } in
      let sk2 = record sk1 { running = some (reply_to rm pre reply); state = clear sk1.state } in
      let popped = record sk { msg_ch = rest } in
      let taken : some (take_request popped rm rm.msg.err)
          ≡ some (accept_request popped rm (some (pre, inner))) =
        ap (λ o. some (take_request popped rm o)) fine
        ∙ ap (λ o. some (accept_request popped rm o)) split in
      (sk1, sk2, rw (q, recv_from) taken, rw (free, hand_over) refl, refl, refl, refl)

not_zero : (n : ℕ) → (n + 1 == 0) ≡ false
not_zero n = ground arith

module _ {S : Type 0} (io : NetConn S) where
  send_to-once :
      (p : Payload) (cs : List ℕ) (st : Store S)
      → send_to io p cs st
        ≡ (if count_conn p.conn cs == 0 then st else (send_msg io p.conn (build_reply_msg p) st).1)
  unfolding send_to count_conn
  send_to-once p [] st = refl
  send_to-once p (c ∷ cs) st = elim (Bool-cases (c == p.conn)) [
    | inl e ↦
        rw (e, not_zero (count_conn p.conn cs))
          (ap (λ d. (send_msg io d (build_reply_msg p) st).1) ((==_iff c p.conn).0 e))
    | inr e ↦ rw e (send_to-once p cs st)
  ]

  -- A reply is written to the connection that its request came from, once, if the writer still has
  -- that connection, and is dropped if it does not; then the goroutine is free for the next one.
  pub run_step_lem :
      (sk : RepSocket S) (p : Payload)
      → sk.running ≡ some p
      → run_step io sk ≡ record sk {
        running = none;
        store =
            if count_conn p.conn sk.writer_conns == 0
            then sk.store
            else (send_msg io p.conn (build_reply_msg p) sk.store).1;
      }
  unfolding run_step
  run_step_lem sk p h =
      ap (send_payload io sk) h
      ∙ ap (λ st. record sk { running = none; store = st })
          (send_to-once p sk.writer_conns sk.store)
