-- ===== src/Msg.antt =====
-- quicmq.go: messages of frames, their constructors and views, and the table of the socket types
-- that may be connected.
pub mod Copy
use quicmq.Base.{
  ℕ, ◌+◌, ◌≡◌, refl, Bool, false, ◌||◌, Option, none, some, List, [], ◌∷◌, ◌++◌, arith, length,
  length-append, ◌==◌,
}
use quicmq.Base.Bytes.{Bytes, beq}
use quicmq.Result.{Error}

-- The strings that the source names; any other string is `other`.
pub data SocketType : Type 0 where
  pub_type sub_type xpub_type xsub_type req_type rep_type dpub_type dsub_type : SocketType
  other : Bytes → SocketType

tag : SocketType → ℕ
tag pub_type = 0
tag sub_type = 1
tag xpub_type = 2
tag xsub_type = 3
tag req_type = 4
tag rep_type = 5
tag dpub_type = 6
tag dsub_type = 7
tag (other s) = 8

-- `==` on the strings.
type_eq : SocketType → SocketType → Bool
unfolding tag
type_eq (other s) (other t) = beq s t
type_eq a b = tag a == tag b

unfoldable pub is_compatible : SocketType → SocketType → Bool
unfolding type_eq
is_compatible pub_type peer = type_eq peer sub_type || type_eq peer xsub_type
is_compatible sub_type peer = type_eq peer pub_type || type_eq peer xpub_type
is_compatible xpub_type peer = type_eq peer sub_type || type_eq peer xsub_type
is_compatible xsub_type peer = type_eq peer pub_type || type_eq peer xpub_type
is_compatible req_type peer = type_eq peer rep_type
is_compatible rep_type peer = type_eq peer req_type
is_compatible dpub_type peer = type_eq peer dsub_type
is_compatible dsub_type peer = type_eq peer dpub_type
is_compatible (other s) peer = false

-- `IsCompatible` gives the same answer whichever of two sockets is asked, for all socket types,
-- unknown strings included.
pub is_compatible_symm : (a b : SocketType) → is_compatible a b ≡ is_compatible b a
unfolding is_compatible
is_compatible_symm pub_type b = ground arith
is_compatible_symm _ b = ground arith

pub record Msg : Type 0 where
  pub frames : List Bytes
  pub multipart : Bool
  pub err : Option Error

abbrev pub msg_of : List Bytes → Msg
msg_of fs = record { frames = fs; multipart = false; err = none }

abbrev pub new_msg : Bytes → Msg
new_msg frame = msg_of (frame ∷ [])

-- `Msg{err: e}`.
abbrev pub failed : Error → Msg
failed e = record { frames = []; multipart = false; err = some e }

bytes_loop : List Bytes → Bytes → Bytes
bytes_loop [] buf = buf
bytes_loop (f ∷ fs) buf = bytes_loop fs (buf ++ f)

unfoldable pub bytes : Msg → Bytes
unfolding bytes_loop
bytes m = bytes_loop m.frames []

size_loop : List Bytes → ℕ → ℕ
size_loop [] n = n
size_loop (f ∷ fs) n = size_loop fs (n + length f)

unfoldable pub size : Msg → ℕ
unfolding size_loop
size m = size_loop m.frames 0

length-bytes_loop :
    (fs : List Bytes) (buf : Bytes) → length (bytes_loop fs buf) ≡ size_loop fs (length buf)
unfolding bytes_loop size_loop
length-bytes_loop [] buf = refl
length-bytes_loop (f ∷ fs) buf = rw (length-bytes_loop fs (buf ++ f), length-append buf f)

-- The buffer that `Bytes` reserves by `size` is filled exactly: the two loops agree on every message.
pub length-bytes : (m : Msg) → length (bytes m) ≡ size m
unfolding bytes size
length-bytes m = length-bytes_loop m.frames []
