-- ===== src/Qlog/Paths.antt =====
-- The names of trace files.
use quicmq.Base.{◌≡◌, refl, ap, Bool, true, false, [], ◌∷◌, ◌++◌, arith, length, length-append}
use mathlib.Core.Logic.{◌↔◌}
use mathlib.Core.List.{append_cancel_left, head-eq_of_cons-eq, tail-eq_of_cons-eq}
use quicmq.Base.Bytes.{Bytes}
use quicmq.Qlog.{role, extension, trace_path, trim_right, trim_step}

-- What follows the connection's ID.
abbrev ending : Bool → Bytes
ending side = 95 ∷ (role side ++ extension)

halves : (xs ys s t : Bytes) → xs ++ s ≡ ys ++ t → length xs ≡ length ys → (xs ≡ ys) × (s ≡ t)
halves [] [] s t e l = (refl, e)
halves [] (y ∷ ys) s t e l = absurd (ground arith)
halves (x ∷ xs) [] s t e l = absurd (ground arith)
halves (x ∷ xs) (y ∷ ys) s t e l =
    let (f, g) = halves xs ys s t (tail-eq_of_cons-eq e) (ground arith) in
    (ground (arith, head-eq_of_cons-eq e, f), g)

length-ending : (a b : Bool) → length (ending a) ≡ length (ending b)
unfolding role
length-ending true true = refl
length-ending true false = refl
length-ending false true = refl
length-ending false false = refl

ending-injective : (a b : Bool) → ending a ≡ ending b → a ≡ b
unfolding role
ending-injective true true e = refl
ending-injective false false e = refl
ending-injective true false e = absurd (ground arith)
ending-injective false true e = absurd (ground arith)

same_length : (x y : Bytes) (a b : Bool) → x ++ ending a ≡ y ++ ending b → length x ≡ length y
same_length x y a b e =
    omega (
      arith,
      length-append x (ending a),
      length-append y (ending b),
      length-ending a b,
      ap length e,
    )

-- In one directory the file of a connection is not that of another, and a process that has both ends
-- of one connection, with one ID, has two files.
pub trace_path-injective :
    (dir : Bytes) (a b : Bool) (x y : Bytes)
    → (trace_path dir a x ≡ trace_path dir b y) ↔ ((a ≡ b) × (x ≡ y))
unfolding trace_path
trace_path-injective dir a b x y = (
  λ e.
      let f =
        tail-eq_of_cons-eq
          (append_cancel_left (trim_right dir) (47 ∷ (x ++ ending a)) (47 ∷ (y ++ ending b)) e) in
      let (g, h) = halves x y (ending a) (ending b) f (same_length x y a b f) in
      (ending-injective a b h, g),
  λ p. rw (p.0, p.1) refl,
)

trim-slash : (dir : Bytes) → trim_right (dir ++ 47 ∷ []) ≡ trim_right dir
unfolding trim_right trim_step
trim-slash [] = refl
trim-slash (b ∷ bs) = ap (trim_step b) (trim-slash bs)

-- `makeQlogTracer` writes to the same files whether its directory is given with a slash at the end
-- or not.
pub trace_path-slash :
    (dir : Bytes) (a : Bool) (x : Bytes) → trace_path (dir ++ 47 ∷ []) a x ≡ trace_path dir a x
unfolding trace_path
trace_path-slash dir a x =
    ap (λ d. d ++ (47 ∷ (x ++ (95 ∷ (role a ++ extension))))) (trim-slash dir)
