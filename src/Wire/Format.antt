-- ===== src/Wire/Format.antt =====
-- The framing as a function of the frames alone, and the laws of its parts.
use quicmq.Base.{
  ℕ, ◌+◌, ◌^◌, ◌≤◌, ◌<◌, ◌≡◌, refl, true, false, List, [], ◌∷◌, ◌++◌, arith, length, take, drop,
  leb, ◌==◌, take-length-append, drop-length-append, length-append, append_assoc, ◌⊎◌, inl, inr,
  Bool-cases, sym, length-take_le, take-append-drop,
}
use quicmq.Base.Bytes.{Bytes}
use quicmq.Result.{ok, err, eof, unexpected_eof, Error}
use quicmq.Wire.{to_uint32, put_uint32, uint32, flag_of, has_more, read_full}

-- A frame that the four length bytes can describe.
abbrev pub Fits : Bytes → Type 0
Fits f = length f < 2 ^ 32

pub uint32-put_uint32 : (v : ℕ) → v < 2 ^ 32 → uint32 (put_uint32 v) ≡ v
unfolding uint32 put_uint32
uint32-put_uint32 v h = omega arith

-- One frame, and a message: all frames but the last carry the flag.
abbrev pub frame_bytes : ℕ → Bytes → Bytes
frame_bytes flag f = flag ∷ put_uint32 (to_uint32 (length f)) ++ f

unfoldable pub wire_format : List Bytes → Bytes
wire_format [] = []
wire_format (f ∷ []) = frame_bytes 0 f
wire_format (f ∷ g ∷ fs) = frame_bytes 1 f ++ wire_format (g ∷ fs)

pub read_full-append : (xs ys : Bytes) → read_full (length xs) (xs ++ ys) ≡ ok (xs, ys)
unfolding read_full
read_full-append xs ys =
    ground (arith, take-length-append xs ys, drop-length-append xs ys, length-append xs ys)

-- A read that succeeds takes exactly n bytes off the front.
pub read_full-ok :
    (n : ℕ) (bs xs rest : Bytes)
    → read_full n bs ≡ ok (xs, rest)
    → (xs ≡ take n bs) × (rest ≡ drop n bs) × (n ≤ length bs)
unfolding read_full
read_full-ok n bs xs rest h = ground arith

pub has_more-zero : has_more 0 ≡ false
unfolding has_more
has_more-zero = refl

pub has_more-one : has_more 1 ≡ true
unfolding has_more
has_more-one = refl

-- A read succeeds exactly when n bytes are there.
pub read_full_cases :
    (n : ℕ) (bs : Bytes)
    → ((xs : Bytes) × (rest : Bytes) × (read_full n bs ≡ ok (xs, rest))
        × (bs ≡ xs ++ rest)
        × (length xs ≡ n))
      ⊎ ((e : Error) × (read_full n bs ≡ err e) × (length bs < n))
unfolding read_full
read_full_cases n bs = elim (Bool-cases (leb n (length bs))) [
  | inl h ↦
      inl (
        take n bs,
        drop n bs,
        rw h,
        sym (take-append-drop n bs),
        length-take_le n bs (ground arith),
      )
  | inr h ↦ elim (Bool-cases (length bs == 0)) [
    | inl z ↦ inr (eof, rw (h, z), ground arith)
    | inr z ↦ inr (unexpected_eof, rw (h, z), ground arith)
  ]
]

-- Bytes added behind the input of a read that succeeds join what it leaves.
pub read_full-append_ok :
    (n : ℕ) (bs more xs rest : Bytes)
    → read_full n bs ≡ ok (xs, rest)
    → read_full n (bs ++ more) ≡ ok (xs, rest ++ more)
read_full-append_ok n bs more xs rest h = elim (read_full_cases n bs) [
  | inl (ys, r, e, s, l) ↦
      let a : read_full (length ys) (ys ++ (r ++ more)) ≡ ok (ys, r ++ more) =
        read_full-append ys (r ++ more) in
      let b : bs ++ more ≡ ys ++ (r ++ more) = rw s (append_assoc ys r more) in
      rw b (rw (← l) (ground (arith, e, h, a)))
  | inr (x, e, l) ↦ cc
]

pub flag_last : (i n : ℕ) → i + 1 ≡ n → flag_of i n ≡ 0
flag_last i n h = ground arith

pub flag_more : (i n : ℕ) → i + 1 < n → flag_of i n ≡ 1
flag_more i n h = ground arith
