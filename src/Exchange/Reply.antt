-- ===== src/Exchange/Reply.antt =====
-- From the replier's sending goroutine to the requester's Recv.
use quicmq.Base.{
  ℕ, suc, ◌<◌, ◌≡◌, refl, ap, ◌∙◌, sym, false, none, some, List, [], ◌∷◌, ◌++◌, arith, length, All,
  ◌==◌,
}
use mathlib.Core.Path.{subst}
use quicmq.Base.Bytes.{Bytes}
use quicmq.Base.Conns.{count_conn}
use quicmq.Msg.{Msg, msg_of}
use quicmq.Wire.Format.{Fits}
use quicmq.Conn.{NetConn, Store, set_rw, send_msg, read}
use quicmq.Conn.Stream.{IsStream}
use quicmq.Conn.Transfer.{read-send_msg}
use quicmq.Req.{
  ReqSocket, recv, read_reply, before_recv, get, deliver, after_read, strip_delimiter, new_state,
  finish_request,
}
use quicmq.Rep.{RepSocket, Payload, build_reply_msg, run_step}
use quicmq.Rep.Routing.{run_step_lem}

-- The frames that the requester is given for a reply: a reply with no frame comes back as one empty
-- frame, the delimiter, which `reqReader.read` strips only in front of others.
unfoldable pub as_received : List Bytes → List Bytes
as_received [] = [] ∷ []
as_received (f ∷ fs) = f ∷ fs

pub strip-envelope : (fs : List Bytes) → strip_delimiter ([] ∷ fs) ≡ as_received fs
unfolding strip_delimiter as_received
strip-envelope [] = refl
strip-envelope (f ∷ fs) = refl

-- A reply to a plain request, as the sending goroutine holds it.
abbrev pub plain_reply : ℕ → Msg → Payload
plain_reply d reply = record { conn = d; preamble = [] ∷ []; msg = reply }

module _ {S : Type 0} (io : NetConn S) where
  pub recv_waiting :
      (fuel c : ℕ) (sk : ReqSocket S)
      → sk.state ≡ record { last_conn = some c; ready_to_req = false }
      → recv io fuel sk ≡ after_read (deliver sk (read io fuel c sk.store))
  unfolding recv read_reply before_recv get
  recv_waiting fuel c sk h =
      subst
        (λ s.
          recv io fuel (record sk { state = s })
          ≡ after_read (deliver (record sk { state = s }) (read io fuel c sk.store)))
        (sym h) refl

module _ {S T : Type 0} {io : NetConn S} {peer : NetConn T} (a : IsStream io)
    (b : IsStream peer) where
  sent_by_run :
      (rep : RepSocket T) (p : Payload) (st1 : Store T)
      → rep.running ≡ some p
      → 0 < count_conn p.conn rep.writer_conns
      → send_msg peer p.conn (build_reply_msg p) rep.store ≡ (none, st1)
      → (run_step peer rep).store ≡ st1
  sent_by_run rep p st1 h known ok_send =
      let e : (count_conn p.conn rep.writer_conns == 0) ≡ false = ground arith in
      rw (run_step_lem peer rep p h, e) (ap (λ r. r.1) ok_send)

  -- A reply comes back: the replier's goroutine holds a plain reply for connection d, which it still
  -- has, and its write succeeds; the requester waits on connection c, on which exactly the bytes of
  -- that write come first. Then Recv returns the reply's frames in order without the envelope (one
  -- empty frame for a reply that has none), and the requester is ready for its next request. Every
  -- frame of the reply is below 2^32 bytes.
  pub reply_arrives :
      (rep : RepSocket T) (sk : ReqSocket S) (c d : ℕ) (reply : Msg) (st1 : Store T)
      (delta rest : Bytes)
      → rep.running ≡ some (plain_reply d reply)
      → 0 < count_conn d rep.writer_conns
      → send_msg peer d (build_reply_msg (plain_reply d reply)) rep.store ≡ (none, st1)
      → b.sent ((run_step peer rep).store.conns d).rw ≡ b.sent (rep.store.conns d).rw ++ delta
      → a.pending (sk.store.conns c).rw ≡ delta ++ rest
      → sk.state ≡ record { last_conn = some c; ready_to_req = false }
      → All Fits reply.frames
      → (sk2 : ReqSocket S) × (recv io (suc (length (delta ++ rest))) sk
          ≡ some ((msg_of (as_received reply.frames), none), sk2))
        × (sk2.state ≡ new_state)
  unfolding build_reply_msg new_state finish_request
  reply_arrives rep sk c d reply st1 delta rest running known wire grows arrives waits fits =
      let stored = sent_by_run rep (plain_reply d reply) st1 running known wire in
      let grows1 : b.sent (st1.conns d).rw ≡ b.sent (rep.store.conns d).rw ++ delta =
        subst (λ (t : Store T). b.sent (t.conns d).rw ≡ b.sent (rep.store.conns d).rw ++ delta)
          stored grows in
      let (s, got, _) =
        read-send_msg b a d c (msg_of ([] ∷ reply.frames)) rep.store st1 sk.store delta rest wire
          grows1 arrives (λ e. cc) (omega arith, fits) in
      let fuel = suc (length (delta ++ rest)) in
      (
        record sk { store = set_rw sk.store c s; state = new_state },
        recv_waiting io fuel c sk waits
            ∙ ap (λ r. after_read (deliver sk r)) got
            ∙ ap
                (λ fs.
                  some (
                    (msg_of fs, none),
                    record sk { store = set_rw sk.store c s; state = new_state },
                  ))
                (strip-envelope reply.frames),
        refl,
      )
