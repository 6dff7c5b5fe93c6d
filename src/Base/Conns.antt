-- ===== src/Base/Conns.antt =====
-- The slices of connections that the readers, the writers and the socket keep: `append`, and the
-- removal loop that `rmConn` has in each of them.
use quicmq.Base.Tests.{◌==◌, if◌then◌else◌, Bool-cases}
use quicmq.Base.Lists.{take, drop}
use Prim.Native.Nat.{ℕ, ◌+◌, ◌-◌}
use mathlib.Core.Path.{◌≡◌, refl, ap, ◌∙◌}
use mathlib.Core.Logic.{◌≢◌, inl, inr}
use mathlib.Core.Bool.{Bool, false}
use mathlib.Core.Option.{Option, none, some}
use mathlib.Core.List.{List, [], ◌∷◌, ◌++◌}
use native.Mathlib.Omega.{arith}
use native.Mathlib.Numerals.{add-one}

-- `conn == c` for a `*Conn` that may be nil.
abbrev pub same_conn : Option ℕ → ℕ → Bool
same_conn none c = false
same_conn (some d) c = d == c

-- The loop over `range` with `break`: the first index that holds c, counted from i.
index_from : ℕ → ℕ → List ℕ → Option ℕ
index_from c i [] = none
index_from c i (d ∷ ds) = let rest = index_from c (i + 1) ds in if d == c then some i else rest

-- `append(rs[:cur], rs[cur+1:]...)` if the loop found c.
splice : Option ℕ → List ℕ → List ℕ
splice none rs = rs
splice (some cur) rs = take cur rs ++ drop (cur + 1) rs

unfoldable pub remove_conn : ℕ → List ℕ → List ℕ
unfolding index_from splice
remove_conn c rs = splice (index_from c 0 rs) rs

unfoldable pub count_conn : ℕ → List ℕ → ℕ
count_conn c [] = 0
count_conn c (d ∷ ds) = if d == c then count_conn c ds + 1 else count_conn c ds

-- The removal as a recursion on the list.
pub without_first : ℕ → List ℕ → List ℕ
without_first c [] = []
without_first c (d ∷ ds) = let rest = without_first c ds in if d == c then ds else d ∷ rest

index_from_step :
    (c d i : ℕ) (ds : List ℕ) → d ≢ c → index_from c i (d ∷ ds) ≡ index_from c (i + 1) ds
unfolding index_from
index_from_step c d i ds h = ground arith

shift : ℕ → Option ℕ → Option ℕ
shift i none = none
shift i (some k) = some (k + i)

index_from-shift : (c i : ℕ) (ds : List ℕ) → index_from c i ds ≡ shift i (index_from c 0 ds)
unfolding index_from shift
index_from-shift c i [] = refl
index_from-shift c i (d ∷ ds) =
    ground (arith, index_from-shift c (i + 1) ds, index_from-shift c 1 ds)

splice-shift : (o : Option ℕ) (d : ℕ) (ds : List ℕ) → splice (shift 1 o) (d ∷ ds) ≡ d ∷ splice o ds
unfolding splice shift
splice-shift none d ds = refl
splice-shift (some k) d ds = simp add-one

count-without_first :
    (c d : ℕ) (rs : List ℕ)
    → count_conn d (without_first c rs) ≡ (if d == c then count_conn d rs - 1 else count_conn d rs)
unfolding without_first count_conn
count-without_first c d [] = ground arith
count-without_first c d (r ∷ rs) = ground (arith, count-without_first c d rs)

-- The loop and the splice remove the first occurrence, and nothing if there is none.
pub remove_conn-without_first : (c : ℕ) (rs : List ℕ) → remove_conn c rs ≡ without_first c rs
unfolding remove_conn without_first
remove_conn-without_first c [] = refl
remove_conn-without_first c (d ∷ ds) = elim (Bool-cases (d == c)) [
  | inl e ↦ rw (e, index_from) refl
  | inr e ↦
      rw (e, index_from)
        (ap (λ o. splice o (d ∷ ds)) (index_from-shift c 1 ds)
          ∙ splice-shift (index_from c 0 ds) d ds
          ∙ ap (◌∷◌ d) (remove_conn-without_first c ds))
]

-- So one occurrence of c less is left, if there was any, and every other connection is kept.
pub count-remove :
    (c d : ℕ) (rs : List ℕ)
    → count_conn d (remove_conn c rs) ≡ (if d == c then count_conn d rs - 1 else count_conn d rs)
count-remove c d rs = rw (remove_conn-without_first c rs) (count-without_first c d rs)
