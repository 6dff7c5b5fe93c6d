-- ===== src/Exchange/Session/Sides.antt =====
-- A call, at each of its ends.
use quicmq.Base.{
  ℕ, ◌<◌, ◌≡◌, refl, ap, ◌∙◌, sym, true, false, none, some, List, [], ◌∷◌, ◌++◌, arith, All,
  append-nil, ◌==◌, if◌then◌else◌,
}
use mathlib.Core.Path.{subst}
use quicmq.Base.Bytes.{Bytes}
use quicmq.Base.Conns.{count_conn}
use quicmq.Result.{req_all_failed}
use quicmq.Msg.{Msg, msg_of}
use quicmq.Wire.Format.{Fits, wire_format}
use quicmq.Conn.{NetConn, Store, send_msg, read}
use quicmq.Conn.Stream.{IsStream}
use quicmq.Conn.Link.{IsLink, fuel_for}
use quicmq.Conn.Link.Ends.{AtEnd, send-AtEnd, read-AtEnd}
use quicmq.Req
use quicmq.Req.{
  ReqState, ReqSocket, begin_request, after_begin, after_write, after_attempt, accepted, new_state,
  finish_request, deliver, after_read,
}
use quicmq.Rep
use quicmq.Rep.{RepSocket, listen_step, run_step, build_reply_msg, hand_over, clear}
use quicmq.Rep.Routing.{run_step_lem}
use quicmq.Exchange.Request.{enveloped, write_one, only_conn, listen_first, recv_first}
use quicmq.Exchange.Reply.{as_received, strip-envelope, plain_reply, recv_waiting}
use quicmq.Exchange.Session.{serve}

module _ {S : Type 0} (io : NetConn S) (c : ℕ) where
  -- A ready requester with one connection, after a request that was written.
  abbrev pub Waits : Store S → ReqSocket S → Type 0
  Waits st sk =
      (sk.store ≡ st)
      × (sk.state ≡ record { last_conn = some c; ready_to_req = false })
      × (sk.writer.conns ≡ c ∷ [])

  pub send_ready :
      (msg : Msg) (sk : ReqSocket S) (st : Store S)
      → sk.writer.conns ≡ c ∷ []
      → sk.state.ready_to_req ≡ true
      → send_msg io c (enveloped msg) sk.store ≡ (none, st)
      → (sk1 : ReqSocket S) × (Req.send io msg sk ≡ (none, sk1)) × Waits st sk1
  unfolding Req.send Req.set begin_request
  send_ready msg sk st one ready sent =
      let started = record sk { state = record (sk.state) { ready_to_req = false } } in
      let begun : begin_request sk.state ≡ (none, started.state) = ground arith in
      (
        accepted started 0 st,
        ap (after_begin io sk msg) begun
            ∙ ap after_write (write_one io msg started c one)
            ∙ ap
                (λ r.
                  after_write (after_attempt started 0 (λ e sk'. (some (req_all_failed e), sk')) r))
                sent,
        (
          refl,
          (λ i. record { last_conn = some (only_conn io sk.writer c one i); ready_to_req = false }),
          one,
        ),
      )

module _ {T : Type 0} {peer : NetConn T} {b : IsStream peer} (there : IsLink b) (d : ℕ) where
  -- The replier has no work: its queue is empty, its goroutine waits, and it knows its connection.
  pub record IsIdle (rep : RepSocket T) : Type 0 where
    pub no_queue : rep.msg_ch ≡ []
    pub free : rep.running ≡ none
    pub known : 0 < count_conn d rep.writer_conns

  serve_steps :
      (answer : Msg → Msg) (rep rep1 rep2 rep3 : RepSocket T) (m q : Msg) (st : Store T)
      → read peer (fuel_for there d rep.store) d rep.store ≡ some (m, st)
      → listen_step peer (record rep { store = st }) d m ≡ some (true, rep1)
      → Rep.recv none rep1 ≡ some ((q, none), rep2)
      → Rep.send none (answer q) rep2 ≡ some (none, rep3)
      → serve there d answer rep ≡ some (q, run_step peer rep3)
  unfolding serve
  serve_steps answer rep rep1 rep2 rep3 m q st h1 h2 h3 h4 = rw (h1, h2, h3, h4, serve) refl

  -- What a served request leaves of an idle replier.
  abbrev served : RepSocket T → Store T → RepSocket T
  served rep st = record rep {
    msg_ch = [];
    state = record { conn = none; preamble = [] };
    running = none;
    store = st;
  }

  -- A request on the wire is served: the program receives its frames, and the reply is written.
  pub serve_lem :
      (answer : Msg → Msg) (rep : RepSocket T) (fs : List Bytes) (o : Bytes)
      → IsIdle rep
      → AtEnd there d (wire_format ([] ∷ fs)) o rep.store
      → All Fits fs
      → (st : Store T) × (serve there d answer rep ≡ some (msg_of fs, served rep st))
        × AtEnd there d [] (o ++ wire_format ([] ∷ (answer (msg_of fs)).frames)) st
  unfolding Rep.send build_reply_msg clear
  serve_lem answer rep fs o idle v fits =
      let (st1, got, v1) =
        read-AtEnd there d [] o ([] ∷ fs) rep.store
          (subst (λ p. AtEnd there d p o rep.store) (sym (append-nil (wire_format ([] ∷ fs)))) v)
          (λ e. cc) (omega arith, fits) in
      let reply = answer (msg_of fs) in
      let p = plain_reply d reply in
      let (st2, written, v2) = send-AtEnd there d [] o (build_reply_msg p) st1 v1 in
      let rep0 = record rep { store = st1 } in
      let rep2 = record rep0 {
        msg_ch = [];
        state = record { conn = some d; preamble = [] ∷ [] };
      } in
      let rep3 = record rep2 { running = some p; state = clear rep2.state } in
      let known : (count_conn d rep.writer_conns == 0) ≡ false = ground (arith, idle.known) in
      (
        st2,
        serve_steps answer rep _ rep2 rep3 _ (msg_of fs) st1 got
              (listen_first peer rep0 d ([] ∷ fs) idle.no_queue) (recv_first rep0 d fs)
              (ap (hand_over rep2 d reply) idle.free)
            ∙ ap (λ r. some (msg_of fs, r)) (run_step_lem peer rep3 p refl)
            ∙ ap
                (λ k. some (
                  msg_of fs,
                  served rep (if k then st1 else (send_msg peer d (build_reply_msg p) st1).1),
                ))
                known
            ∙ ap (λ r. some (msg_of fs, served rep r.1)) written,
        v2,
      )

module _ {S : Type 0} {io : NetConn S} {a : IsStream io} (here : IsLink a) (c : ℕ) where
  -- A reply on the wire is what a waiting requester receives.
  pub recv_lem :
      (sk : ReqSocket S) (fs : List Bytes) (o : Bytes)
      → sk.state ≡ record { last_conn = some c; ready_to_req = false }
      → AtEnd here c (wire_format ([] ∷ fs)) o sk.store
      → All Fits fs
      → (st : Store S) × (Req.recv io (fuel_for here c sk.store) sk
          ≡ some ((msg_of (as_received fs), none), record sk { store = st; state = new_state }))
        × AtEnd here c [] o st
  unfolding new_state finish_request
  recv_lem sk fs o waits v fits =
      let (st, got, v1) =
        read-AtEnd here c [] o ([] ∷ fs) sk.store
          (subst (λ p. AtEnd here c p o sk.store) (sym (append-nil (wire_format ([] ∷ fs)))) v)
          (λ e. cc) (omega arith, fits) in
      (
        st,
        recv_waiting io (fuel_for here c sk.store) c sk waits
            ∙ ap (λ r. after_read (deliver sk r)) got
            ∙ ap (λ gs. some ((msg_of gs, none), record sk { store = st; state = new_state }))
                (strip-envelope fs),
        v1,
      )
