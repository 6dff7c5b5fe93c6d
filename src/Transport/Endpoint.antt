-- ===== src/Transport/Endpoint.antt =====
-- `splitAddr` against its description: a cut at the first separator.
use quicmq.Base.{
  ℕ, suc, ◌≤◌, ◌≡◌, ap, ◌∙◌, sym, true, false, Option, none, some, [], ◌∷◌, ◌++◌, arith, length,
  drop, Bool-cases, inl, inr,
}
use quicmq.Base.Bytes.{Bytes, has_prefix, has_prefix-append, has_prefix→append}
use quicmq.Transport.{separator, split_addr, cons_scheme}

-- A place at which the separator stands in an endpoint.
abbrev pub SplitsAt : Bytes → Bytes → Bytes → Type 0
SplitsAt ep pre post = ep ≡ pre ++ separator ++ post

-- The answers of `splitAddr`: an error if the separator stands nowhere, and otherwise the parts around
-- its first place.
abbrev pub FirstSplit : Bytes → Option (Bytes × Bytes) → Type 0
FirstSplit ep none = (pre post : Bytes) → ¬ SplitsAt ep pre post
FirstSplit ep (some (scheme, addr)) =
    SplitsAt ep scheme addr
    × ((pre post : Bytes) → SplitsAt ep pre post → length scheme ≤ length pre)

tail_of : Bytes → Bytes
tail_of [] = []
tail_of (b ∷ bs) = bs

at_head : (ep post : Bytes) → ep ≡ separator ++ post → has_prefix ep separator ≡ true
at_head ep post e = ap (λ s. has_prefix s separator) e ∙ has_prefix-append separator post

none-cons :
    (b : ℕ) (bs : Bytes)
    → has_prefix (b ∷ bs) separator ≡ false
    → FirstSplit bs none
    → FirstSplit (b ∷ bs) none
unfolding tail_of
none-cons b bs out h [] post e = absurd (ground (arith, at_head (b ∷ bs) post e))
none-cons b bs out h (p ∷ pre) post e = h pre post (ap tail_of e)

later-cons :
    (b : ℕ) (bs : Bytes) (n : ℕ)
    → has_prefix (b ∷ bs) separator ≡ false
    → ((pre post : Bytes) → SplitsAt bs pre post → n ≤ length pre)
    → (pre post : Bytes) → SplitsAt (b ∷ bs) pre post
    → suc n ≤ length pre
unfolding tail_of
later-cons b bs n out first [] post e = absurd (ground (arith, at_head (b ∷ bs) post e))
later-cons b bs n out first (p ∷ pre) post e = omega (arith, first pre post (ap tail_of e))

FirstSplit-cons :
    (b : ℕ) (bs : Bytes) (r : Option (Bytes × Bytes))
    → has_prefix (b ∷ bs) separator ≡ false
    → FirstSplit bs r
    → FirstSplit (b ∷ bs) (cons_scheme b r)
FirstSplit-cons b bs none out h = none-cons b bs out h
FirstSplit-cons b bs (some (scheme, addr)) out (here, first) =
    (ap (◌∷◌ b) here, later-cons b bs (length scheme) out first)

nowhere : FirstSplit [] none
nowhere [] post e = absurd (ground arith)
nowhere (p ∷ pre) post e = absurd (ground arith)

-- `splitAddr` on every endpoint: it cuts at the first place of "://", so that scheme, separator and
-- address make up the endpoint, and it reports an error exactly if the separator stands nowhere.
pub split_addr_lem : (ep : Bytes) → FirstSplit ep (split_addr ep)
unfolding split_addr tail_of
split_addr_lem [] = nowhere
split_addr_lem (b ∷ bs) = elim (Bool-cases (has_prefix (b ∷ bs) separator)) [
  | inr out ↦ rw (out, split_addr) (FirstSplit-cons b bs (split_addr bs) out (split_addr_lem bs))
  | inl here ↦
      let (rest, e) = has_prefix→append (b ∷ bs) separator here in
      rw (here, split_addr)
        (
          e ∙ ap (λ s. separator ++ s) (sym (ap (λ s. drop 2 (tail_of s)) e)),
          λ pre post h. omega arith,
        )
]
