-- ===== src/Datagram/Codec.antt =====
-- datagram.go: the packing of a message into one datagram, and the subscription commands of the
-- control stream.
pub mod RoundTrip
pub mod Robust
pub mod SubCmd
use quicmq.Base.{
  ℕ, zero, suc, ◌+◌, Bool, true, false, Option, none, some, List, [], ◌∷◌, ◌++◌, length, drop, ◌==◌,
  if◌then◌else◌,
}
use quicmq.Base.Bytes.{Bytes}
use quicmq.Result.{Result, ok, err, Error, empty_sub_cmd}
use quicmq.Msg.{Msg, msg_of}
use quicmq.Wire.{to_uint32, put_uint32, uint32, flag_of, has_more, first_byte, read_full}

-- The loop over `msg.Frames`: n is the number of frames, i the index of the next one.
serialize_loop : ℕ → ℕ → List Bytes → Bytes → Bytes
serialize_loop n i [] buf = buf
serialize_loop n i (frame ∷ rest) buf =
    serialize_loop n (i + 1) rest
      (((buf ++ flag_of i n ∷ []) ++ put_uint32 (to_uint32 (length frame))) ++ frame)

unfoldable pub serialize_msg_datagram : Msg → Bytes
unfolding serialize_loop
serialize_msg_datagram msg = serialize_loop (length msg.frames) 0 msg.frames []

-- What the loop leaves: the frames read, the error that ended it if there was one, and what the reader
-- held after the last read that succeeded.
abbrev pub Parsed : Type 0
Parsed = List Bytes × Bytes × Option Error

-- `for hasMore`. `none` means that the fuel ran out.
unfoldable pub deserialize_loop : ℕ → Bytes → List Bytes → Option Parsed
deserialize_loop zero r frames = none
deserialize_loop (suc fuel) r frames = elim (read_full 5 r) [
  | err e ↦ some (frames, r, some e)
  | ok (hdr, r1) ↦ elim (read_full (uint32 (drop 1 hdr)) r1) [
    | err e ↦ some (frames, r1, some e)
    | ok (frame, r2) ↦ elim (has_more (first_byte hdr)) [
      | true ↦ deserialize_loop fuel r2 (frames ++ frame ∷ [])
      | false ↦ some (frames ++ frame ∷ [], r2, none)
    ]
  ]
]

-- Each round takes five bytes at least, so a round for each byte and one more are enough.
unfoldable pub deserialize : Bytes → Option Parsed
deserialize bs = deserialize_loop (suc (length bs)) bs []

-- The message and the error that `deserializeMsgDatagram` returns.
abbrev pub parsed_msg : Parsed → Msg × Option Error
parsed_msg p = (msg_of p.0, p.2)

unfoldable pub deserialize_msg_datagram : Bytes → Option (Msg × Option Error)
unfolding deserialize
deserialize_msg_datagram bs = elim (deserialize bs) [ none ↦ none | some p ↦ some (parsed_msg p) ]

-- The bytes that `writeSubCmd` hands to `w.Write`.
unfoldable pub sub_cmd : Bool → Bytes → Bytes
sub_cmd subscribe topic =
    let payload = (if subscribe then 0x01 else 0x00) ∷ topic in
    0x00 ∷ put_uint32 (to_uint32 (length payload)) ++ payload

decode_sub_cmd : Bytes → Bytes → Result ((Bool × Bytes) × Bytes)
decode_sub_cmd [] rest = err empty_sub_cmd
decode_sub_cmd (b ∷ topic) rest = ok ((b == 0x01, topic), rest)

-- `readSubCmd` on a stream that still holds the bytes r; what is left of them comes back.
unfoldable pub read_sub_cmd : Bytes → Result ((Bool × Bytes) × Bytes)
unfolding decode_sub_cmd
read_sub_cmd r = elim (read_full 5 r) [
  | err e ↦ err e
  | ok (hdr, r1) ↦ elim (read_full (uint32 (drop 1 hdr)) r1) [
    | err e ↦ err e
    | ok (payload, r2) ↦ decode_sub_cmd payload r2
  ]
]
