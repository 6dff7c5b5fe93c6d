-- ===== src/Transport.antt =====
-- transport.go: endpoints and the registry of transports.
pub mod Contexts
pub mod Endpoint
use quicmq.Base.{ℕ, Bool, true, false, Option, none, some, List, [], ◌∷◌, ◌++◌, drop, if◌then◌else◌}
use quicmq.Base.Bytes.{Bytes, beq, has_prefix}

-- `"://"`.
abbrev pub separator : Bytes
separator = 58 ∷ 47 ∷ 47 ∷ []

abbrev cons_scheme : ℕ → Option (Bytes × Bytes) → Option (Bytes × Bytes)
cons_scheme b none = none
cons_scheme b (some (scheme, addr)) = some (b ∷ scheme, addr)

-- `splitAddr`: cut at the first separator; `none` is the error.
unfoldable pub split_addr : Bytes → Option (Bytes × Bytes)
split_addr [] = none
split_addr (b ∷ bs) =
    let rest = split_addr bs in
    if has_prefix (b ∷ bs) separator then some ([], drop 2 bs) else cons_scheme b rest

-- The registry, a map by name.
unfoldable pub get_transport {ℓ} : {T : Type ℓ} → Bytes → List (Bytes × T) → Option T
get_transport name [] = none
get_transport name ((n, t) ∷ db) =
    let rest = get_transport name db in if beq n name then some t else rest

-- `add`: a duplicate is refused, which the first component tells, and leaves the registry alone.
unfoldable pub add_transport {ℓ} :
    {T : Type ℓ} → Bytes → T → List (Bytes × T) → Bool × List (Bytes × T)
unfolding get_transport
add_transport name t db = elim (get_transport name db) [
  | none ↦ (true, db ++ (name, t) ∷ [])
  | some old ↦ (false, db)
]

-- The loop of `names`, in the order in which the map is ranged over.
unfoldable pub keys {ℓ} : {T : Type ℓ} → List (Bytes × T) → List Bytes
keys [] = []
keys ((n, t) ∷ db) = n ∷ keys db

-- `names`; `sort` is `sort.Strings`.
unfoldable pub names {ℓ} : {T : Type ℓ} → (List Bytes → List Bytes) → List (Bytes × T) → List Bytes
unfolding keys
names sort db = sort (keys db)
