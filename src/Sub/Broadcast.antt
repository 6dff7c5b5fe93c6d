-- ===== src/Sub/Broadcast.antt =====
-- msgio.go: what `mwriter` puts on every connection while nothing fails.
use quicmq.Base.{
  ℕ, zero, suc, ◌+◌, ◌≡◌, refl, ap, ◌∙◌, sym, true, false, none, List, [], ◌∷◌, ◌++◌, ◌==◌, arith,
  if◌then◌else◌, append_assoc, append-nil, All, Bool-cases, inl, inr,
}
use mathlib.Core.Path.{subst}
use quicmq.Base.Bytes.{Bytes}
use quicmq.Base.Conns.{count_conn}
use quicmq.Msg.{Msg}
use quicmq.Wire.Format.{wire_format}
use quicmq.Conn.{NetConn, Conn, Store, set_rw, update}
use quicmq.Conn.Stream.{IsStream, update_ne}
use quicmq.Conn.Link.{IsLink, rw_self, send_msg_works}
use quicmq.Sub.{write_loop}

-- A byte string n times.
unfoldable pub copies : ℕ → Bytes → Bytes
copies zero bs = []
copies (suc n) bs = bs ++ copies n bs

copies_one : (n : ℕ) (bs : Bytes) → copies (n + 1) bs ≡ bs ++ copies n bs
unfolding copies
copies_one n bs = let next : n + 1 ≡ suc n = omega arith in ap (λ k. copies k bs) next

module _ {S : Type 0} {io : NetConn S} {a : IsStream io} (link : IsLink a) where
  -- Connection c is open and its stream works.
  pub record IsReady (st : Store S) (c : ℕ) : Type 0 where
    pub is_open : (st.conns c).closed ≡ false
    pub working : link.works (st.conns c).rw ≡ true

  abbrev pub sent_on : Store S → ℕ → Bytes
  sent_on st c = a.sent (st.conns c).rw

  set_rw-IsReady :
      (st : Store S) (c d : ℕ) (s : S)
      → link.works s ≡ true
      → IsReady st d
      → IsReady (set_rw st c s) d
  unfolding update
  set_rw-IsReady st c d s works v = elim (Bool-cases (d == c)) [
    | inl e ↦
        let same : d ≡ c = ground arith in
        record {
          is_open = rw e (subst (λ x. (st.conns x).closed ≡ false) same v.is_open);
          working = rw e works;
        }
    | inr e ↦ record { is_open = rw e v.is_open; working = rw e v.working }
  ]

  set_rw-All :
      (st : Store S) (c : ℕ) (s : S) (cs : List ℕ)
      → link.works s ≡ true
      → All (IsReady st) cs
      → All (IsReady (set_rw st c s)) cs
  set_rw-All st c s [] works v = tt
  set_rw-All st c s (d ∷ ds) works v =
      (set_rw-IsReady st c d s works v.0, set_rw-All st c s ds works v.1)

  -- One message on connection c, then n more on d.
  one_more :
      (st : Store S) (c d n : ℕ) (s : S) (bs : Bytes)
      → a.sent s ≡ sent_on st c ++ bs
      → sent_on (set_rw st c s) d ++ copies n bs
        ≡ sent_on st d ++ copies (if c == d then n + 1 else n) bs
  one_more st c d n s bs grown = elim (Bool-cases (c == d)) [
    | inl e ↦
        let same : d ≡ c = ground arith in
        rw e (
          ap (λ k. sent_on (set_rw st c s) k ++ copies n bs) same
          ∙ ap (λ x. a.sent x ++ copies n bs) (rw_self link c st s)
          ∙ ap (λ x. x ++ copies n bs) (grown ∙ ap (λ k. sent_on st k ++ bs) (sym same))
          ∙ append_assoc (sent_on st d) bs (copies n bs)
          ∙ ap (λ x. sent_on st d ++ x) (sym (copies_one n bs)))
    | inr e ↦
        rw e (
          ap (λ (k : Conn S). a.sent k.rw ++ copies n bs) (update_ne st.conns c _ d (ground arith)))
  ]

  -- The loop of `write` over open connections whose streams work: it reports no error, and each
  -- connection gets the message as often as it is in the list.
  pub write_loop-copies :
      (msg : Msg) (cs : List ℕ) (st : Store S)
      → All (IsReady st) cs
      → (st1 : Store S) × (write_loop io msg cs none st ≡ (none, st1))
        × ((d : ℕ)
            → sent_on st1 d ≡ sent_on st d ++ copies (count_conn d cs) (wire_format msg.frames))
  unfolding write_loop count_conn copies
  write_loop-copies msg [] st v = (st, refl, λ d. sym (append-nil (sent_on st d)))
  write_loop-copies msg (c ∷ cs) st v =
      let (s, sent, works, grown, _) = send_msg_works link c msg st v.0.is_open v.0.working in
      let (st1, rest, each) =
        write_loop-copies msg cs (set_rw st c s) (set_rw-All st c s cs works v.1) in
      (
        st1,
        rw sent rest,
        λ d. each d ∙ one_more st c d (count_conn d cs) s (wire_format msg.frames) grown,
      )
