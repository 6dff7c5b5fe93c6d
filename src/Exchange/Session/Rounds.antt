-- ===== src/Exchange/Session/Rounds.antt =====
-- Every call of a session is answered.
use quicmq.Base.{ℕ, ◌≡◌, refl, sym, true, none, some, List, [], ◌∷◌, ◌++◌, All, map}
use mathlib.Core.Path.{subst}
use quicmq.Base.Bytes.{Bytes}
use quicmq.Msg.{Msg, msg_of}
use quicmq.Wire.Format.{Fits, wire_format}
use quicmq.Conn.{NetConn}
use quicmq.Conn.Stream.{IsStream}
use quicmq.Conn.Link.{IsLink, new_bytes, arrive, fuel_for}
use quicmq.Conn.Link.Ends.{AtEnd, arrive-AtEnd, send-AtEnd, new_bytes-AtEnd}
use quicmq.Req
use quicmq.Req.{
  ReqState, ReqSocket, begin_request, after_begin, after_write, after_attempt, accepted, new_state,
  finish_request, deliver, after_read,
}
use quicmq.Rep.{RepSocket}
use quicmq.Exchange.Request.{enveloped}
use quicmq.Exchange.Reply.{as_received}
use quicmq.Exchange.Session.{System, serve, call, calls}
use quicmq.Exchange.Session.Sides.{IsIdle, send_ready, serve_lem, recv_lem}

-- The frames of a request and of its answer fit the wire.
abbrev pub FitsCall : (Msg → Msg) → Msg → Type 0
FitsCall answer msg = All Fits msg.frames × All Fits (answer (msg_of msg.frames)).frames

-- What both programs receive in a call.
abbrev pub exchanged : (Msg → Msg) → Msg → Msg × Msg
exchanged answer msg = (msg_of msg.frames, msg_of (as_received (answer (msg_of msg.frames)).frames))

module _ {S T : Type 0} {io : NetConn S} {peer : NetConn T} {a : IsStream io} {b : IsStream peer}
    (here : IsLink a) (there : IsLink b) (c d : ℕ) where
  -- Both sockets are ready for a call, over a connection that works and holds nothing.
  pub record IsQuiet (sent answered : Bytes) (sys : System S T) : Type 0 where
    pub one : sys.req.writer.conns ≡ c ∷ []
    pub ready : sys.req.state.ready_to_req ≡ true
    pub req_end : AtEnd here c [] sent sys.req.store
    pub rep_end : AtEnd there d [] answered sys.rep.store
    pub idle : IsIdle there d sys.rep

  call_steps :
      (answer : Msg → Msg) (msg q m : Msg) (sys : System S T) (req1 req3 : ReqSocket S)
      (rep2 : RepSocket T) (out back : Bytes)
      → Req.send io msg sys.req ≡ (none, req1)
      → new_bytes here (sys.req.store.conns c).rw (req1.store.conns c).rw ≡ out
      → serve there d answer (record (sys.rep) { store = arrive there d out sys.rep.store })
        ≡ some (q, rep2)
      → new_bytes there ((arrive there d out sys.rep.store).conns d).rw (rep2.store.conns d).rw
        ≡ back
      → Req.recv io
          (fuel_for here c (arrive here c back req1.store))
          (record req1 { store = arrive here c back req1.store })
        ≡ some ((m, none), req3)
      → call here there c d answer msg sys ≡ some ((q, m), record { req = req3; rep = rep2 })
  unfolding call
  call_steps answer msg q m sys req1 req3 rep2 out back h1 h2 h3 h4 h5 =
      rw (h1, h2, h3, h4, h5, call) refl

  call_lem :
      (answer : Msg → Msg) (msg : Msg) (sys : System S T) (o r : Bytes)
      → IsQuiet o r sys
      → FitsCall answer msg
      → (sys1 : System S T) × (o1 : Bytes) × (r1 : Bytes) × (call here there c d answer msg sys
          ≡ some (exchanged answer msg, sys1))
        × IsQuiet o1 r1 sys1
  unfolding new_state
  call_lem answer msg sys o r v (fits, fits1) =
      let wire = wire_format ([] ∷ msg.frames) in
      let reply = (answer (msg_of msg.frames)).frames in
      let (st1, written, e1) = send-AtEnd here c [] o (enveloped msg) sys.req.store v.req_end in
      let (req1, sent, (stored, state, one)) =
        send_ready io c msg sys.req st1 v.one v.ready written in
      let e1' : AtEnd here c [] (o ++ wire) req1.store =
        subst (AtEnd here c [] (o ++ wire)) (sym stored) e1 in
      let arrived = arrive-AtEnd there d [] r wire sys.rep.store v.rep_end in
      let rep1 = record (sys.rep) { store = arrive there d wire sys.rep.store } in
      let idle : IsIdle there d rep1 = record {
        no_queue = v.idle.no_queue;
        free = v.idle.free;
        known = v.idle.known;
      } in
      let (st2, did, e2) = serve_lem there d answer rep1 msg.frames r idle arrived fits in
      let back = wire_format ([] ∷ reply) in
      let e3 = arrive-AtEnd here c [] (o ++ wire) back req1.store e1' in
      let req2 = record req1 { store = arrive here c back req1.store } in
      let (st4, got, e4) = recv_lem here c req2 reply (o ++ wire) state e3 fits1 in
      (
        _,
        o ++ wire,
        r ++ back,
        call_steps answer msg _ _ sys req1 _ _ wire back sent
            (new_bytes-AtEnd here c [] [] o wire sys.req.store req1.store v.req_end e1') did
            (new_bytes-AtEnd there d wire [] r back _ _ arrived e2) got,
        record {
          one = one;
          ready = refl;
          req_end = e4;
          rep_end = e2;
          idle = record { no_queue = refl; free = refl; known = v.idle.known };
        },
      )

  -- Calls are answered for good: from two quiet sockets, over a connection that works, any number of
  -- calls succeed one after the other, and in each the replier's program receives the frames that the
  -- requester's sent, and the requester's the frames that the replier's program answered to them (one
  -- empty frame for an answer that has none). No frame reaches 2^32 bytes.
  pub calls_answered :
      (answer : Msg → Msg) (msgs : List Msg) (sys : System S T) (o r : Bytes)
      → IsQuiet o r sys
      → All (FitsCall answer) msgs
      → (sys1 : System S T) × (calls here there c d answer msgs sys
          ≡ some (map (exchanged answer) msgs, sys1))
  unfolding calls
  calls_answered answer [] sys o r v fits = (sys, refl)
  calls_answered answer (m ∷ ms) sys o r v (fit, fits) =
      let (sys1, o1, r1, done, v1) = call_lem answer m sys o r v fit in
      let (sys2, rest) = calls_answered answer ms sys1 o1 r1 v1 fits in
      (sys2, rw (done, rest, calls) refl)
