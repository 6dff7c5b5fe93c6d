-- ===== src/Msg/Copy.antt =====
-- quicmq.go: Clone, String and the constructor that copies strings.
use quicmq.Base.{
  ℕ, zero, suc, ◌+◌, ◌≡◌, refl, ap, false, none, List, [], ◌∷◌, ◌++◌, length, if◌then◌else◌, ltb,
}
use quicmq.Base.Bytes.{Bytes}
use quicmq.Msg.{Msg, msg_of}

-- `make([]byte, n)`.
unfoldable pub zeros : ℕ → Bytes
zeros zero = []
zeros (suc n) = 0 ∷ zeros n

-- `copy(dst, src)`: as many bytes as both have.
unfoldable pub copy : Bytes → Bytes → Bytes
copy [] src = []
copy (d ∷ dst) [] = d ∷ dst
copy (d ∷ dst) (s ∷ src) = s ∷ copy dst src

-- The loop of `Clone`.
unfoldable pub clone_frames : List Bytes → List Bytes
unfolding zeros copy
clone_frames [] = []
clone_frames (f ∷ fs) = copy (zeros (length f)) f ∷ clone_frames fs

unfoldable pub clone : Msg → Msg
unfolding clone_frames
clone m = msg_of (clone_frames m.frames)

-- The loop of `NewMsgFromString`, which appends each string to a nil frame.
unfoldable pub string_frames : List Bytes → List Bytes
string_frames [] = []
string_frames (s ∷ ss) = ([] ++ s) ∷ string_frames ss

unfoldable pub new_msg_from_string : List Bytes → Msg
unfolding string_frames
new_msg_from_string ss = msg_of (string_frames ss)

-- "Msg{Frames:{", ", " and "}}".
abbrev pub opening : Bytes
opening = 77 ∷ 115 ∷ 103 ∷ 123 ∷ 70 ∷ 114 ∷ 97 ∷ 109 ∷ 101 ∷ 115 ∷ 58 ∷ 123 ∷ []

abbrev pub comma : Bytes
comma = 44 ∷ 32 ∷ []

abbrev pub closing : Bytes
closing = 125 ∷ 125 ∷ []

-- The loop of `String` from frame i on; `quote` is the verb %q of the package fmt.
unfoldable pub string_loop : (Bytes → Bytes) → ℕ → List Bytes → Bytes → Bytes
string_loop quote i [] buf = buf
string_loop quote i (f ∷ fs) buf =
    string_loop quote (i + 1) fs ((if ltb 0 i then buf ++ comma else buf) ++ quote f)

unfoldable pub string : (Bytes → Bytes) → Msg → Bytes
unfolding string_loop
string quote m = string_loop quote 0 m.frames opening ++ closing

copy_all : (f : Bytes) → copy (zeros (length f)) f ≡ f
unfolding copy zeros
copy_all [] = refl
copy_all (b ∷ bs) = ap (◌∷◌ b) (copy_all bs)

frames_cloned : (fs : List Bytes) → clone_frames fs ≡ fs
unfolding clone_frames
frames_cloned [] = refl
frames_cloned (f ∷ fs) = rw (copy_all f, frames_cloned fs) refl

-- Clone keeps the frames of a message, byte by byte, and nothing else of it: of a message with an
-- error, or with the mark of a multipart message, it makes one without.
pub clone_lem : (m : Msg) → clone m ≡ record { frames = m.frames; multipart = false; err = none }
unfolding clone
clone_lem m = ap msg_of (frames_cloned m.frames)
