-- ===== src/Conn/Link.antt =====
-- A stream that works: what the ends of a connection rely on while nothing fails.
pub mod Ends
pub mod Keeping
pub mod Messages
use quicmq.Base.{
  not, drop, ℕ, zero, suc, ◌+◌, ◌≡◌, refl, ap, ◌∙◌, sym, Bool, true, false, Option, none, some,
  List, [], ◌∷◌, ◌++◌, arith, length,
}
use mathlib.Core.Path.{subst}
use quicmq.Base.Bytes.{Bytes}
use quicmq.Result.{Result, ok, err, Error, send_flag, send_length, send_frame}
use quicmq.Msg.{Msg, msg_of}
use quicmq.Wire.{flag_of, put_uint32, to_uint32, uint32, has_more, first_byte}
use quicmq.Wire.Format.{wire_format}
use quicmq.Conn.{
  NetConn, Conn, Store, Step, set_rw, check_io, go_on, ◌>>◌, received, unless_failed, write_part,
  send_frames, send_msg, read_part, read_loop, read,
}
use quicmq.Conn.Stream.{
  pipe_io, pipe_io-IsStream, pipe_write_works, pipe_read_works, IsStream, update_self,
}
use quicmq.Conn.Send.{send_msg_ok}

-- `works` is a state of the stream in which writes succeed. A write leaves what is pending, and a read
-- that succeeds leaves what was sent, for the two directions of a QUIC stream are independent.
-- `deliver` is the arrival of bytes from the peer.
pub record IsLink {S : Type 0} {io : NetConn S} (a : IsStream io) : Type 0 where
  pub works : S → Bool
  pub deliver : S → Bytes → S
  pub write_works :
      (s : S) (bs : Bytes)
      → works s ≡ true
      → ((io.write s bs).0 ≡ none)
        × (works (io.write s bs).1 ≡ true)
        × (a.pending (io.write s bs).1 ≡ a.pending s)
  pub read_works :
      (s : S) (n : ℕ) (bs : Bytes)
      → (io.read_exactly s n).0 ≡ ok bs
      → (works (io.read_exactly s n).1 ≡ works s) × (a.sent (io.read_exactly s n).1 ≡ a.sent s)
  pub deliver_works : (s : S) (bs : Bytes) → works (deliver s bs) ≡ works s
  pub deliver_sent : (s : S) (bs : Bytes) → a.sent (deliver s bs) ≡ a.sent s
  pub deliver_pending : (s : S) (bs : Bytes) → a.pending (deliver s bs) ≡ a.pending s ++ bs

-- The pipes in memory.
unfoldable pub pipe_link : IsLink pipe_io-IsStream
unfolding pipe_io-IsStream
pipe_link = record {
  works = λ p. not p.cut;
  deliver = λ p bs. record p { inbox = p.inbox ++ bs };
  write_works = pipe_write_works;
  read_works = λ p n bs h. pipe_read_works p n;
  deliver_works = λ p bs. refl;
  deliver_sent = λ p bs. refl;
  deliver_pending = λ p bs. refl;
}

module _ {S : Type 0} {io : NetConn S} {a : IsStream io} (link : IsLink a) where
  -- What was sent between two states of a stream.
  abbrev pub new_bytes : S → S → Bytes
  new_bytes before now = drop (length (a.sent before)) (a.sent now)

  -- Bytes arrive at connection c.
  abbrev pub arrive : ℕ → Bytes → Store S → Store S
  arrive c bs st = set_rw st c (link.deliver (st.conns c).rw bs)

  -- Enough for any read of connection c.
  abbrev pub fuel_for : ℕ → Store S → ℕ
  fuel_for c st = suc (length (a.pending (st.conns c).rw))

module _ {S : Type 0} {io : NetConn S} {a : IsStream io} (link : IsLink a) (c : ℕ) where
  open link use {works, write_works}

  -- A step of SendMsg that reports no error, on a stream that goes on working.
  pub record Succeeds (st : Store S) (r : Option Error × Store S) : Type 0 where
    pub fine : r.0 ≡ none
    pub working : works (r.1.conns c).rw ≡ true
    pub waiting : a.pending (r.1.conns c).rw ≡ a.pending (st.conns c).rw

  part-Succeeds :
      (wrap : Error → Error) (bs : Bytes) (st : Store S)
      → works (st.conns c).rw ≡ true
      → Succeeds st (write_part io wrap c bs st)
  unfolding write_part
  part-Succeeds wrap bs st ready =
      let (fine, working, waiting) = write_works (st.conns c).rw bs ready in
      rw (fine, write_part)
        (record {
          fine = refl;
          working = rw (update_self st.conns c _) working;
          waiting = rw (update_self st.conns c _) waiting;
        })

  go_on-Succeeds :
      (st : Store S) (r : Option Error × Store S) (k : Step S)
      → Succeeds st r
      → ((st1 : Store S) → works (st1.conns c).rw ≡ true → Succeeds st1 (k st1))
      → Succeeds st (go_on r k)
  go_on-Succeeds st (some e, st1) k h rest = absurd (ground (arith, h.fine))
  go_on-Succeeds st (none, st1) k h rest =
      let more = rest st1 h.working in
      record { fine = more.fine; working = more.working; waiting = more.waiting ∙ h.waiting }

  frames-Succeeds :
      (n i : ℕ) (fs : List Bytes) (st : Store S)
      → works (st.conns c).rw ≡ true
      → Succeeds st (send_frames io c n i fs st)
  unfolding send_frames
  frames-Succeeds n i [] st ready = record { fine = refl; working = ready; waiting = refl }
  frames-Succeeds n i (f ∷ fs) st ready =
      let flag : Bytes = flag_of i n ∷ [] in
      let len = put_uint32 (to_uint32 (length f)) in
      let one = part-Succeeds send_flag flag st ready in
      let two =
        go_on-Succeeds st _ (write_part io send_length c len) one (part-Succeeds send_length len) in
      let three =
        go_on-Succeeds st _ (write_part io (send_frame (i + 1) n) c f) two
          (part-Succeeds (send_frame (i + 1) n) f) in
      go_on-Succeeds st _ (send_frames io c n (i + 1) fs) three (frames-Succeeds n (i + 1) fs)

  pub rw_self : (st : Store S) (s : S) → ((set_rw st c s).conns c).rw ≡ s
  rw_self st s = ap (λ (k : Conn S). k.rw) (update_self st.conns c _)

  -- SendMsg on an open connection whose stream works succeeds, puts the message in the wire format
  -- behind what was sent, and leaves the pending bytes and everything else.
  pub send_msg_works :
      (msg : Msg) (st : Store S)
      → (st.conns c).closed ≡ false
      → works (st.conns c).rw ≡ true
      → (s : S) × (send_msg io c msg st ≡ (none, set_rw st c s))
        × (works s ≡ true)
        × (a.sent s ≡ a.sent (st.conns c).rw ++ wire_format msg.frames)
        × (a.pending s ≡ a.pending (st.conns c).rw)
  unfolding send_msg
  send_msg_works msg st is_open ready =
      let done : Succeeds st (send_msg io c msg st) =
        rw (is_open, send_msg) (frames-Succeeds (length msg.frames) 0 msg.frames st ready) in
      let st1 = (send_msg io c msg st).1 in
      let sent : send_msg io c msg st ≡ (none, st1) = ap (λ e. (e, st1)) done.fine in
      let (_, s, e, grown) = send_msg_ok a c msg st st1 sent in
      let now : (st1.conns c).rw ≡ s = ap (λ (t : Store S). (t.conns c).rw) e ∙ rw_self st s in
      (
        s,
        sent ∙ ap (λ t. (none, t)) e,
        sym (ap works now) ∙ done.working,
        grown,
        sym (ap a.pending now) ∙ done.waiting,
      )
