-- ===== src/Base/Sequencing.antt =====
-- Steps that may have no result, one after the other: `do` blocks on Option.
use mathlib.Core.Option.{Option, none, some}

infixl 5 ◌>>=◌
abbrev pub ◌>>=◌ : {A B : Type 0} → Option A → (A → Option B) → Option B
none >>= f = none
some a >>= f = f a
