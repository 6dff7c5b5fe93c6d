-- ===== src/Conn/Send.antt =====
-- `SendMsg`: what it puts on the stream when it succeeds, and what it leaves when it fails.
use quicmq.Base.{
  ℕ, ◌+◌, ◌≡◌, refl, sym, ap, ◌∙◌, true, false, Option, none, some, List, [], ◌∷◌, ◌++◌, arith,
  length, append_assoc, append-nil, Bool-cases, ◌⊎◌, inl, inr,
}
use mathlib.Core.Path.{subst}
use quicmq.Base.Bytes.{Bytes}
use quicmq.Result.{Error, send_flag, send_length, send_frame, closed_conn}
use quicmq.Msg.{Msg}
use quicmq.Wire.{flag_of, put_uint32, to_uint32}
use quicmq.Wire.Format.{frame_bytes, wire_format, flag_last, flag_more}
use quicmq.Conn.{
  NetConn, Store, Step, set_rw, set_closed, check_io, go_on, ◌>>◌, write_part, send_frames,
  send_msg,
}
use quicmq.Conn.Stream.{IsStream, update_self, update_same, set_rw-set_rw}
use quicmq.Conn.Closing.{set_closed_open, after_close}

module _ {S : Type 0} {io : NetConn S} (stream : IsStream io) where
  open stream use {sent, write_sent}

  -- The outcome of a step that is to put bs on c's stream: it wrote them and touched nothing else,
  -- or it failed and c was closed after its stream had changed.
  abbrev pub Writes : ℕ → Bytes → Store S → Option Error × Store S → Type 0
  Writes c bs st (none, st') =
      (s : S) × (st' ≡ set_rw st c s) × (sent s ≡ sent (st.conns c).rw ++ bs)
  Writes c bs st (some x, st') = (s : S) × (st' ≡ set_closed (set_rw st c s) c)

  write_part-Writes :
      (wrap : Error → Error) (c : ℕ) (bs : Bytes) (st : Store S)
      → Writes c bs st (write_part io wrap c bs st)
  unfolding write_part check_io
  write_part-Writes wrap c bs st = go (io.write (st.conns c).rw bs).0 refl
    where
      go :
          (e : Option Error)
          → (io.write (st.conns c).rw bs).0 ≡ e
          → Writes c bs st (write_part io wrap c bs st)
      go none h = rw (h, write_part) ((io.write (st.conns c).rw bs).1, refl, write_sent _ bs h)
      go (some x) h = rw (h, write_part) ((io.write (st.conns c).rw bs).1, refl)

  nothing-Writes : (c : ℕ) (st : Store S) → Writes c [] st (none, st)
  nothing-Writes c st = (
    (st.conns c).rw,
    sym (ap (λ f. record st { conns = f }) (update_same st.conns c)),
    sym (append-nil _),
  )

  set_rw-Writes :
      (c : ℕ) (xs ys : Bytes) (st : Store S) (s : S) (r : Option Error × Store S)
      → sent s ≡ sent (st.conns c).rw ++ xs
      → Writes c ys (set_rw st c s) r
      → Writes c (xs ++ ys) st r
  set_rw-Writes c xs ys st s (none, st2) h (s2, e, h2) =
      let after : sent s2 ≡ sent s ++ ys = rw (update_self st.conns c _) at h2 in
      (
        s2,
        e ∙ set_rw-set_rw st c s s2,
        after ∙ ap (λ t. t ++ ys) h ∙ append_assoc (sent (st.conns c).rw) xs ys,
      )
  set_rw-Writes c xs ys st s (some x, st2) h (s2, e) =
      (s2, e ∙ ap (λ t. set_closed t c) (set_rw-set_rw st c s s2))

  go_on-Writes :
      (c : ℕ) (xs ys : Bytes) (st : Store S) (r : Option Error × Store S) (k : Step S)
      → Writes c xs st r
      → ((st1 : Store S) → Writes c ys st1 (k st1))
      → Writes c (xs ++ ys) st (go_on r k)
  go_on-Writes c xs ys st (some x, st1) k h rest = h
  go_on-Writes c xs ys st (none, st1) k (s, e, h) rest =
      rw e (set_rw-Writes c xs ys st s (k (set_rw st c s)) h (rest (set_rw st c s)))

  -- The three writes of a frame, and then the others'.
  frame-Writes :
      (c i n : ℕ) (f : Bytes) (tail : Bytes) (k : Step S)
      → ((st1 : Store S) → Writes c tail st1 (k st1))
      → (st : Store S)
      → Writes c (frame_bytes (flag_of i n) f ++ tail) st (
          (write_part io send_flag c (flag_of i n ∷ [])
              >> write_part io send_length c (put_uint32 (to_uint32 (length f)))
              >> write_part io (send_frame (i + 1) n) c f
              >> k)
            st)
  frame-Writes c i n f tail k rest st =
      let flag : Bytes = flag_of i n ∷ [] in
      let len = put_uint32 (to_uint32 (length f)) in
      let one = write_part-Writes send_flag c flag st in
      let two =
        go_on-Writes c flag len st _ (write_part io send_length c len) one
          (write_part-Writes send_length c len) in
      let three =
        go_on-Writes c (flag ++ len) f st _ (write_part io (send_frame (i + 1) n) c f) two
          (write_part-Writes (send_frame (i + 1) n) c f) in
      go_on-Writes c ((flag ++ len) ++ f) tail st _ k three rest

  send_frames-Writes :
      (c n i : ℕ) (fs : List Bytes)
      → i + length fs ≡ n
      → (st : Store S) → Writes c (wire_format fs) st (send_frames io c n i fs st)
  unfolding send_frames wire_format
  send_frames-Writes c n i [] h st = nothing-Writes c st
  send_frames-Writes c n i (f ∷ []) h st =
      let last = frame-Writes c i n f [] (λ t. (none, t)) (nothing-Writes c) st in
      let goal =
        λ (b : ℕ). Writes c (frame_bytes b f ++ []) st (send_frames io c n i (f ∷ []) st) in
      rw append-nil at (subst goal (flag_last i n (omega arith)) last)
  send_frames-Writes c n i (f ∷ g ∷ fs) h st =
      let more =
        frame-Writes c i n f (wire_format (g ∷ fs)) (send_frames io c n (i + 1) (g ∷ fs))
          (send_frames-Writes c n (i + 1) (g ∷ fs) (omega arith)) st in
      let goal = λ (b : ℕ).
        Writes c (frame_bytes b f ++ wire_format (g ∷ fs)) st
          (send_frames io c n i (f ∷ g ∷ fs) st) in
      subst goal (flag_more i n (omega arith)) more

  -- `SendMsg` on an open connection writes the whole message in the wire format and changes nothing
  -- but the stream, or it fails and the connection is closed.
  pub send_msg-Writes :
      (c : ℕ) (msg : Msg) (st : Store S)
      → (st.conns c).closed ≡ false
      → Writes c (wire_format msg.frames) st (send_msg io c msg st)
  unfolding send_msg
  send_msg-Writes c msg st h =
      rw (h, send_msg) (send_frames-Writes c (length msg.frames) 0 msg.frames (omega arith) st)

  outcome_ok :
      (c : ℕ) (bs : Bytes) (st st' : Store S) (r : Option Error × Store S)
      → r ≡ (none, st')
      → Writes c bs st r
      → (s : S) × (st' ≡ set_rw st c s) × (sent s ≡ sent (st.conns c).rw ++ bs)
  outcome_ok c bs st st' (none, st1) e (s, e1, h) = (s, cc, h)
  outcome_ok c bs st st' (some x, st1) e h = absurd (ground arith)

  outcome_failed :
      (c : ℕ) (bs : Bytes) (st st' : Store S) (x : Error) (r : Option Error × Store S)
      → r ≡ (some x, st')
      → Writes c bs st r
      → (s : S) × (st' ≡ set_closed (set_rw st c s) c)
  outcome_failed c bs st st' x (none, st1) e h = absurd (ground arith)
  outcome_failed c bs st st' x (some y, st1) e (s, e1) = (s, cc)

  -- A send that reports success found the connection open, put the whole message behind what was
  -- sent, in the wire format, and changed nothing else in the store.
  pub send_msg_ok :
      (c : ℕ) (msg : Msg) (st st' : Store S)
      → send_msg io c msg st ≡ (none, st')
      → ((st.conns c).closed ≡ false)
        × (s : S) × (st' ≡ set_rw st c s)
        × (sent s ≡ sent (st.conns c).rw ++ wire_format msg.frames)
  unfolding send_msg
  send_msg_ok c msg st st' h = elim (Bool-cases (st.conns c).closed) [
    | inl e ↦ absurd (ground arith)
    | inr e ↦
        let (s, e1, h1) =
          outcome_ok c (wire_format msg.frames) st st' (send_msg io c msg st) h
            (send_msg-Writes c msg st e) in
        (e, s, e1, h1)
  ]

  -- A send that fails leaves the connection closed, whatever the reason; on a connection that was
  -- closed before it does nothing, and otherwise the close callback has run exactly once.
  pub send_msg_failed :
      (c : ℕ) (msg : Msg) (st st' : Store S) (x : Error)
      → send_msg io c msg st ≡ (some x, st')
      → (((st.conns c).closed ≡ true) × (x ≡ closed_conn) × (st' ≡ st))
        ⊎ (((st.conns c).closed ≡ false) × (s : S) × (st' ≡ after_close (set_rw st c s) c))
  unfolding send_msg
  send_msg_failed c msg st st' x h = elim (Bool-cases (st.conns c).closed) [
    | inl e ↦ inl (e, ground arith, ground arith)
    | inr e ↦
        let (s, e1) =
          outcome_failed c (wire_format msg.frames) st st' x (send_msg io c msg st) h
            (send_msg-Writes c msg st e) in
        inr (e, s, e1 ∙ set_closed_open (set_rw st c s) c (rw (update_self st.conns c _) e))
  ]
