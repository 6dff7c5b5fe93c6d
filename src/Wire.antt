-- ===== src/Wire.antt =====
-- The framing that Conn.SendMsg, Conn.read (conn.go) and the datagram codec (datagram.go) share:
-- [1 byte flags] [4 byte big-endian length] [payload], bit 0 of the flags meaning "has more".
pub mod Format
use quicmq.Base.{
  ℕ, ◌+◌, ◌-◌, ◌*◌, ◌/◌, ◌%◌, ◌^◌, ◌<◌, ◌≡◌, refl, Bool, true, false, not, Option, none, some, List,
  [], ◌∷◌, ◌++◌, arith, length, take, drop, ltb, leb, ◌==◌, if◌then◌else◌,
}
use quicmq.Base.Bytes.{Bytes}
use quicmq.Result.{Result, ok, err, eof, unexpected_eof}
use Prim.Native.Nat.{bit_and}

-- `uint32(n)` for an `int` n ≥ 0.
abbrev pub to_uint32 : ℕ → ℕ
to_uint32 n = n % 2 ^ 32

-- `binary.BigEndian.PutUint32`.
unfoldable pub put_uint32 : ℕ → Bytes
put_uint32 v = v / 2 ^ 24 % 256 ∷ v / 2 ^ 16 % 256 ∷ v / 2 ^ 8 % 256 ∷ v % 256 ∷ []

-- `binary.BigEndian.Uint32`, which the source calls on four bytes.
unfoldable pub uint32 : Bytes → ℕ
uint32 (a ∷ b ∷ c ∷ d ∷ rest) = a * 2 ^ 24 + b * 2 ^ 16 + c * 2 ^ 8 + d
uint32 _ = 0

-- The flag byte of frame `i` of `n`: 0x01 if i < n - 1. A frame exists only if 0 < n.
abbrev pub flag_of : ℕ → ℕ → ℕ
flag_of i n = if ltb i (n - 1) then 0x01 else 0x00

-- `b & 0x01 != 0`.
unfoldable pub has_more : ℕ → Bool
has_more b = not (bit_and b 0x01 == 0)

-- The first byte of a header, which has been read in full.
abbrev pub first_byte : Bytes → ℕ
first_byte [] = 0
first_byte (b ∷ bs) = b

-- `io.ReadFull` of n bytes from a `bytes.Reader` that holds `bs`, with what the reader then holds.
unfoldable pub read_full : ℕ → Bytes → Result (Bytes × Bytes)
read_full n bs =
    if leb n (length bs)
    then ok (take n bs, drop n bs)
    else if length bs == 0
    then err eof
    else err unexpected_eof
