-- ===== src/Datagram/Codec/RoundTrip.antt =====
-- What `serializeMsgDatagram` packs, `deserializeMsgDatagram` unpacks.
use quicmq.Base.{
  ℕ, zero, suc, ◌+◌, ◌≤◌, ◌≡◌, ◌≢◌, refl, sym, ◌∙◌, none, some, List, [], ◌∷◌, ◌++◌, arith, length,
  All, length-append, append_assoc, append-nil,
}
use quicmq.Base.Bytes.{Bytes}
use quicmq.Result.{ok}
use quicmq.Msg.{Msg}
use quicmq.Wire.{to_uint32, put_uint32, uint32, read_full}
use quicmq.Wire.Format.{
  Fits, frame_bytes, wire_format, uint32-put_uint32, read_full-append, has_more-zero, has_more-one,
  flag_last, flag_more,
}
use quicmq.Datagram.Codec.{serialize_loop, serialize_msg_datagram, deserialize_loop, deserialize}

-- One round of the loop appends the frame's bytes.
push_frame :
    (buf : Bytes) (flag : ℕ) (f : Bytes)
    → ((buf ++ flag ∷ []) ++ put_uint32 (to_uint32 (length f))) ++ f ≡ buf ++ frame_bytes flag f
push_frame buf flag f = simp append_assoc

serialize_loop-format :
    (fs : List Bytes) (n i : ℕ) (buf : Bytes)
    → i + length fs ≡ n
    → serialize_loop n i fs buf ≡ buf ++ wire_format fs
unfolding serialize_loop wire_format
serialize_loop-format [] n i buf h = sym (append-nil buf)
serialize_loop-format (f ∷ []) n i buf h = rw (flag_last i n (omega arith)) (push_frame buf 0 f)
serialize_loop-format (f ∷ g ∷ fs) n i buf h =
    rw (flag_more i n (omega arith), push_frame buf 1 f)
      (serialize_loop-format (g ∷ fs) n (i + 1) (buf ++ frame_bytes 1 f) (omega arith)
        ∙ append_assoc buf (frame_bytes 1 f) (wire_format (g ∷ fs)))

-- The loop of `serializeMsgDatagram` writes the frames in the wire format, flags included.
pub serialize-format : (msg : Msg) → serialize_msg_datagram msg ≡ wire_format msg.frames
unfolding serialize_msg_datagram
serialize-format msg = serialize_loop-format msg.frames (length msg.frames) 0 [] (omega arith)

pub read_header :
    (flag : ℕ) (f rest : Bytes)
    → read_full 5 (frame_bytes flag f ++ rest)
      ≡ ok (flag ∷ put_uint32 (to_uint32 (length f)), f ++ rest)
unfolding put_uint32 read_full
read_header flag f rest = ground arith

pub read_payload :
    (f rest : Bytes)
    → Fits f
    → read_full (uint32 (put_uint32 (to_uint32 (length f)))) (f ++ rest) ≡ ok (f, rest)
read_payload f rest h =
    let e : to_uint32 (length f) ≡ length f = omega arith in
    rw (e, uint32-put_uint32 (length f) h) (read_full-append f rest)

-- One round of the reader on a frame that is the last, and on one that is not.
read_last :
    (fuel : ℕ) (f rest : Bytes) (got : List Bytes)
    → Fits f
    → deserialize_loop (suc fuel) (frame_bytes 0 f ++ rest) got ≡ some (got ++ f ∷ [], rest, none)
unfolding deserialize_loop
read_last fuel f rest got h =
    rw (read_header 0 f rest, read_payload f rest h, has_more-zero, deserialize_loop)

read_more :
    (fuel : ℕ) (f rest : Bytes) (got : List Bytes)
    → Fits f
    → deserialize_loop (suc fuel) (frame_bytes 1 f ++ rest) got
      ≡ deserialize_loop fuel rest (got ++ f ∷ [])
unfolding deserialize_loop
read_more fuel f rest got h =
    rw (read_header 1 f rest, read_payload f rest h, has_more-one, deserialize_loop)

pub deserialize_loop-format :
    (fs : List Bytes) (fuel : ℕ) (rest : Bytes) (got : List Bytes)
    → fs ≢ []
    → All Fits fs
    → length fs ≤ fuel
    → deserialize_loop fuel (wire_format fs ++ rest) got ≡ some (got ++ fs, rest, none)
unfolding wire_format
deserialize_loop-format [] fuel rest got ne h hf = absurd (ne refl)
deserialize_loop-format (f ∷ fs) zero rest got ne h hf = absurd (omega arith)
deserialize_loop-format (f ∷ []) (suc fuel) rest got ne h hf = read_last fuel f rest got h.0
deserialize_loop-format (f ∷ g ∷ fs) (suc fuel) rest got ne h hf =
    rw (append_assoc (frame_bytes 1 f) (wire_format (g ∷ fs)) rest) (
      read_more fuel f (wire_format (g ∷ fs) ++ rest) got h.0
      ∙ deserialize_loop-format (g ∷ fs) fuel rest (got ++ f ∷ []) (λ e. cc) h.1 (omega arith)
      ∙ rw (append_assoc got (f ∷ []) (g ∷ fs)))

frames_le_bytes : (fs : List Bytes) → length fs ≤ length (wire_format fs)
unfolding wire_format
frames_le_bytes [] = omega arith
frames_le_bytes (f ∷ []) = omega arith
frames_le_bytes (f ∷ g ∷ fs) =
    omega (arith, length-append (frame_bytes 1 f) (wire_format (g ∷ fs)), frames_le_bytes (g ∷ fs))

-- The reader takes exactly the packed message off the front of its input: for a message with at
-- least one frame, every frame below 2^32 bytes, it returns the frames and no error, and leaves
-- whatever follows.
pub deserialize-serialize :
    (msg : Msg) (rest : Bytes)
    → msg.frames ≢ []
    → All Fits msg.frames
    → deserialize (serialize_msg_datagram msg ++ rest) ≡ some (msg.frames, rest, none)
unfolding deserialize
deserialize-serialize msg rest ne h = rw (serialize-format msg) (
    deserialize_loop-format msg.frames _ rest [] ne h
      (omega (arith, length-append (wire_format msg.frames) rest, frames_le_bytes msg.frames)))
