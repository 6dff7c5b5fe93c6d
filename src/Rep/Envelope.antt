-- ===== src/Rep/Envelope.antt =====
-- `splitReq` against its description, and its round trip with `buildReplyMsg`.
use quicmq.Base.{
  ℕ, ◌+◌, ◌≡◌, ◌≢◌, refl, ◌∙◌, sym, Option, none, some, List, [], ◌∷◌, ◌++◌, arith, length, take,
  drop, All, All-snoc, append_assoc, take-length-append, drop-length-append, length-append,
  append-nil,
}
use mathlib.Core.Path.{subst}
use quicmq.Base.Bytes.{Bytes}
use quicmq.Msg.{Msg, msg_of}
use quicmq.Rep.{split_loop, split_req, build_reply_msg}

abbrev pub IsFull : Bytes → Type 0
IsFull f = f ≢ []

-- An envelope: identity frames, none of them empty, the empty delimiter, and the payload.
abbrev pub SplitsTo : List Bytes → Option (List Bytes × Msg) → Type 0
SplitsTo whole none = All IsFull whole
SplitsTo whole (some (pre, inner)) =
    (ids : List Bytes) × All IsFull ids
    × (pre ≡ ids ++ [] ∷ [])
    × (whole ≡ pre ++ inner.frames)
    × (inner ≡ msg_of inner.frames)

module _ (ids rest : List Bytes) (i : ℕ) (at_i : i ≡ length ids) where
  before : take (i + 1) (ids ++ [] ∷ rest) ≡ ids ++ [] ∷ []
  before =
      let n : i + 1 ≡ length (ids ++ [] ∷ []) = omega (arith, length-append ids ([] ∷ [])) in
      rw (n, ← append_assoc ids ([] ∷ []) rest) (take-length-append (ids ++ [] ∷ []) rest)

  behind : drop (i + 1) (ids ++ [] ∷ rest) ≡ rest
  behind =
      let n : i + 1 ≡ length (ids ++ [] ∷ []) = omega (arith, length-append ids ([] ∷ [])) in
      rw (n, ← append_assoc ids ([] ∷ []) rest) (drop-length-append (ids ++ [] ∷ []) rest)

-- The delimiter stands at index i.
split_here :
    (ids rest : List Bytes) (i : ℕ)
    → i ≡ length ids
    → split_loop (ids ++ [] ∷ rest) i ([] ∷ rest) ≡ some (ids ++ [] ∷ [], msg_of rest)
unfolding split_loop
split_here ids [] i h = ground (arith, before ids [] i h, behind ids [] i h)
split_here ids (r ∷ rs) i h =
    ground
      (arith, before ids (r ∷ rs) i h, behind ids (r ∷ rs) i h, length-append ids ([] ∷ r ∷ rs))

-- A full frame is passed over.
skip :
    (whole : List Bytes) (i b : ℕ) (bs : Bytes) (rest : List Bytes)
    → split_loop whole i ((b ∷ bs) ∷ rest) ≡ split_loop whole (i + 1) rest
unfolding split_loop
skip whole i b bs rest = refl

split_loop-SplitsTo :
    (ids rest whole : List Bytes) (i : ℕ)
    → whole ≡ ids ++ rest
    → i ≡ length ids
    → All IsFull ids
    → SplitsTo whole (split_loop whole i rest)
split_loop-SplitsTo ids [] whole i w h full = rw w (unfold split_loop in rw append-nil full)
split_loop-SplitsTo ids ([] ∷ rest) whole i w h full =
    rw (w, split_here ids rest i h) (ids, full, refl, sym (append_assoc ids ([] ∷ []) rest), refl)
split_loop-SplitsTo ids ((b ∷ bs) ∷ rest) whole i w h full =
    let next =
      split_loop-SplitsTo (ids ++ (b ∷ bs) ∷ []) rest whole (i + 1)
        (w ∙ sym (append_assoc ids ((b ∷ bs) ∷ []) rest))
        (omega (arith, length-append ids ((b ∷ bs) ∷ [])))
        (All-snoc IsFull ids (b ∷ bs) full (λ e. cc)) in
    subst (SplitsTo whole) (sym (skip whole i b bs rest)) next

-- `splitReq` on every message: with an empty frame it cuts behind the first one, so that preamble
-- and payload make up the envelope and the preamble is full frames and the delimiter; it answers
-- nil exactly if no frame is empty.
pub split_req-SplitsTo : (m : Msg) → SplitsTo m.frames (split_req m)
unfolding split_req
split_req-SplitsTo m = split_loop-SplitsTo [] m.frames m.frames 0 refl refl tt

split_loop_finds :
    (done ids rest : List Bytes) (i : ℕ)
    → i ≡ length done
    → All IsFull ids
    → split_loop (done ++ (ids ++ [] ∷ rest)) i (ids ++ [] ∷ rest)
      ≡ some ((done ++ ids) ++ [] ∷ [], msg_of rest)
split_loop_finds done [] rest i h full = rw append-nil (split_here done rest i h)
split_loop_finds done ([] ∷ ids) rest i h full = absurd (full.0 refl)
split_loop_finds done ((b ∷ bs) ∷ ids) rest i h full =
    let next =
      split_loop_finds (done ++ (b ∷ bs) ∷ []) ids rest (i + 1)
        (omega (arith, length-append done ((b ∷ bs) ∷ []))) full.1 in
    skip (done ++ ((b ∷ bs) ∷ ids ++ [] ∷ rest)) i b bs (ids ++ [] ∷ rest)
    ∙ rw
        (
          append_assoc done ((b ∷ bs) ∷ []) (ids ++ [] ∷ rest),
          append_assoc done ((b ∷ bs) ∷ []) ids,
        )
        at next

-- The envelope of a reply is the envelope of its request: what `splitReq` took off a request,
-- `buildReplyMsg` puts in front of the reply, and `splitReq` finds the same preamble and the
-- reply's frames again, for every request that has a delimiter and every reply.
pub split_req-build_reply :
    (request reply inner : Msg) (pre : List Bytes) (c : ℕ)
    → split_req request ≡ some (pre, inner)
    → split_req (build_reply_msg (record { conn = c; preamble = pre; msg = reply }))
      ≡ some (pre, msg_of reply.frames)
unfolding split_req build_reply_msg
split_req-build_reply request reply inner pre c h =
    let (ids, full, e, _, _) = subst (SplitsTo request.frames) h (split_req-SplitsTo request) in
    rw (e, append_assoc ids ([] ∷ []) reply.frames)
      (split_loop_finds [] ids reply.frames 0 refl full)
