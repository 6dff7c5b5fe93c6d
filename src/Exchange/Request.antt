-- ===== src/Exchange/Request.antt =====
-- From the requester's Send to the replier's Recv.
use quicmq.Base.{
  ℕ, suc, ◌+◌, ◌%◌, ◌≡◌, refl, ap, ◌∙◌, sym, true, false, Option, none, some, List, [], ◌∷◌, ◌++◌,
  arith, length, All, ◌⊎◌, inl, inr, get_or, if◌then◌else◌, ltb,
}
use quicmq.Base.Bytes.{Bytes}
use quicmq.Result.{Error, req_all_failed, req_pending}
use quicmq.Msg.{Msg, msg_of}
use quicmq.Wire.Format.{Fits}
use quicmq.Conn.{NetConn, Store, set_rw, send_msg, read}
use quicmq.Conn.Stream.{IsStream}
use quicmq.Conn.Transfer.{read-send_msg}
use quicmq.Req
use quicmq.Req.{
  ReqState, ReqWriter, ReqSocket, begin_request, write, write_to, write_loop, send, after_attempt,
  accepted, cur_conn, after_write, after_begin,
}
use quicmq.Rep.{RepSocket, listen_step, recv, split_req, qsize}

-- The message as the writer puts it on the wire.
abbrev pub enveloped : Msg → Msg
enveloped m = record m { frames = [] ∷ m.frames }

module _ {S : Type 0} (io : NetConn S) where
  pub only_conn : (w : ReqWriter) (c : ℕ) → w.conns ≡ c ∷ [] → cur_conn w 0 ≡ c
  only_conn w c h =
      ap (λ cs. get_or cs ((0 + w.next_conn) % length cs) 0) h
      ∙ ap (λ i. get_or (c ∷ []) i 0) {y = 0} (omega arith)

  pub write_one :
      (msg : Msg) (sk : ReqSocket S) (c : ℕ)
      → sk.writer.conns ≡ c ∷ []
      → write io msg sk
        ≡ after_attempt sk 0
            (λ e sk'. (some (req_all_failed e), sk'))
            (send_msg io c (enveloped msg) sk.store)
  unfolding write write_to write_loop
  write_one msg sk c h =
      ap (λ cs. write_to io (enveloped msg) cs sk) h
      ∙ ap
          (λ k.
            after_attempt sk 0 (λ e sk'. (some (req_all_failed e), sk'))
              (send_msg io k (enveloped msg) sk.store))
          (only_conn sk.writer c h)

  abbrev Sent : ReqSocket S → ℕ → Msg → ReqSocket S → Type 0
  Sent sk c msg sk1 =
      (send_msg io c (enveloped msg) sk.store ≡ (none, sk1.store))
      × (sk1.state ≡ record { last_conn = some c; ready_to_req = false })

  one-Sent :
      (sk sk1 started : ReqSocket S) (c : ℕ) (msg : Msg) (r : Option Error × Store S)
      → cur_conn started.writer 0 ≡ c
      → started.state.ready_to_req ≡ false
      → send_msg io c (enveloped msg) sk.store ≡ r
      → after_write (after_attempt started 0 (λ e sk'. (some (req_all_failed e), sk')) r)
        ≡ (none, sk1)
      → Sent sk c msg sk1
  unfolding Req.set
  one-Sent sk sk1 started c msg (none, st) k p h e =
      let now : accepted started 0 st ≡ sk1 = ap (λ r. r.1) e in
      (
        h ∙ ap (λ (t : ReqSocket S). (none, t.store)) now,
        sym (ap (λ (t : ReqSocket S). t.state) now) ∙ λ i. record {
          last_conn = some (k i);
          ready_to_req = p i;
        },
      )
  one-Sent sk sk1 started c msg (some x, st) k p h e = absurd (ground arith)

  pub begin_cases :
      (rs : ReqState)
      → (begin_request rs ≡ (some req_pending, rs))
        ⊎ (begin_request rs ≡ (none, record rs { ready_to_req = false }))
  unfolding begin_request
  begin_cases rs = ground arith

  -- A Send that succeeds on a socket with one connection has written the enveloped request there.
  pub send_one :
      (sk sk1 : ReqSocket S) (c : ℕ) (msg : Msg)
      → sk.writer.conns ≡ c ∷ []
      → send io msg sk ≡ (none, sk1)
      → Sent sk c msg sk1
  unfolding send
  send_one sk sk1 c msg one h = elim (begin_cases sk.state) [
    | inl busy ↦
        let e : after_begin io sk msg (some req_pending, sk.state) ≡ (none, sk1) =
          sym (ap (after_begin io sk msg) busy) ∙ h in
        absurd (ground arith)
    | inr idle ↦
        let started = record sk { state = record (sk.state) { ready_to_req = false } } in
        one-Sent sk sk1 started c msg _ (only_conn sk.writer c one) refl refl (
          sym (ap after_write (write_one msg started c one))
          ∙ sym (ap (after_begin io sk msg) idle)
          ∙ h)
  ]

module _ {T : Type 0} where
  abbrev pub queued : RepSocket T → ℕ → Msg → RepSocket T
  queued rep d m = record rep { msg_ch = record { conn = d; msg = m } ∷ [] }

  pub listen_first :
      (peer : NetConn T) (rep : RepSocket T) (d : ℕ) (fs : List Bytes)
      → rep.msg_ch ≡ []
      → listen_step peer rep d (msg_of fs) ≡ some (true, queued rep d (msg_of fs))
  unfolding listen_step
  listen_first peer rep d fs h =
      ap
        (λ q.
          if ltb (length q) qsize
          then some (true, record rep { msg_ch = q ++ record { conn = d; msg = msg_of fs } ∷ [] })
          else none)
        h

  pub recv_first :
      (rep : RepSocket T) (d : ℕ) (fs : List Bytes)
      → recv none (queued rep d (msg_of ([] ∷ fs)))
        ≡ some (
          (msg_of fs, none),
          record rep { msg_ch = []; state = record { conn = some d; preamble = [] ∷ [] } },
        )
  unfolding recv split_req
  recv_first rep d [] = refl
  recv_first rep d (f ∷ fs) = ground arith

module _ {S T : Type 0} {io : NetConn S} {peer : NetConn T} (a : IsStream io)
    (b : IsStream peer) where
  -- A request arrives: the requester has one connection c and its Send succeeded, the replier reads
  -- connection d, on which exactly the bytes of that Send come first, and its queue is empty. Then
  -- the read returns, the listener queues what it read, and Recv returns the frames of the request
  -- in order, remembers d and the empty delimiter for the reply, and the requester waits on c.
  -- Every frame is below 2^32 bytes; the request may have no frame at all.
  pub request_arrives :
      (sk sk1 : ReqSocket S) (rep : RepSocket T) (c d : ℕ) (msg : Msg) (delta rest : Bytes)
      → sk.writer.conns ≡ c ∷ []
      → send io msg sk ≡ (none, sk1)
      → a.sent (sk1.store.conns c).rw ≡ a.sent (sk.store.conns c).rw ++ delta
      → b.pending (rep.store.conns d).rw ≡ delta ++ rest
      → rep.msg_ch ≡ []
      → All Fits msg.frames
      → (m : Msg) × (s : T) × (rep1 : RepSocket T) × (rep2 : RepSocket T) × (read peer
            (suc (length (delta ++ rest)))
            d
            rep.store
          ≡ some (m, set_rw rep.store d s))
        × (listen_step peer (record rep { store = set_rw rep.store d s }) d m ≡ some (true, rep1))
        × (recv none rep1 ≡ some ((msg_of msg.frames, none), rep2))
        × (rep2.state ≡ record { conn = some d; preamble = [] ∷ [] })
        × (sk1.state ≡ record { last_conn = some c; ready_to_req = false })
  request_arrives sk sk1 rep c d msg delta rest one ok_send grows arrives empty fits =
      let (wire, state) = send_one io sk sk1 c msg one ok_send in
      let (s, got, _) =
        read-send_msg a b c d (enveloped msg) sk.store sk1.store rep.store delta rest wire grows
          arrives (λ e. cc) (omega arith, fits) in
      let rep0 = record rep { store = set_rw rep.store d s } in
      (
        msg_of ([] ∷ msg.frames),
        s,
        queued rep0 d (msg_of ([] ∷ msg.frames)),
        _,
        got,
        listen_first peer rep0 d ([] ∷ msg.frames) empty,
        recv_first rep0 d msg.frames,
        refl,
        state,
      )
