-- ===== src/Datagram/Codec/Robust.antt =====
-- `deserializeMsgDatagram` on any input: it ends, it does not look past the message, and it
-- refuses every truncated one.
use quicmq.Base.{
  ℕ, zero, suc, ◌≤◌, ◌<◌, ◌≡◌, ◌≢◌, sym, ap, ◌∙◌, true, false, none, some, List, [], ◌∷◌, ◌++◌,
  arith, length, All, drop, length-append, append-nil, Bool-cases, inl, inr,
}
use quicmq.Base.Bytes.{Bytes}
use quicmq.Result.{ok, err, Error}
use quicmq.Msg.{Msg}
use quicmq.Wire.{uint32, has_more, first_byte, read_full}
use quicmq.Wire.Format.{Fits, read_full_cases, read_full-append_ok}
use quicmq.Datagram.Codec.{Parsed, serialize_msg_datagram, deserialize_loop, deserialize}
use quicmq.Datagram.Codec.RoundTrip.{deserialize-serialize}

deserialize_loop_total :
    (fuel : ℕ) (r : Bytes) (got : List Bytes)
    → length r < fuel
    → (p : Parsed) × (deserialize_loop fuel r got ≡ some p)
unfolding deserialize_loop
deserialize_loop_total zero r got h = elim h [ ]
deserialize_loop_total (suc fuel) r got h = elim (read_full_cases 5 r) [
  | inr (e, short, _) ↦ ((got, r, some e), rw (short, deserialize_loop))
  | inl (hdr, r1, header, cut, l) ↦ elim (read_full_cases (uint32 (drop 1 hdr)) r1) [
    | inr (e, short, _) ↦ ((got, r1, some e), rw (header, short, deserialize_loop))
    | inl (f, r2, body, cut2, _) ↦ elim (Bool-cases (has_more (first_byte hdr))) [
      | inr stop ↦ ((got ++ f ∷ [], r2, none), rw (header, body, stop, deserialize_loop))
      | inl go ↦
          let (p, e) = deserialize_loop_total fuel r2 (got ++ f ∷ []) (
            omega
              (arith, ap length cut, ap length cut2, length-append hdr r1, length-append f r2)) in
          (p, rw (header, body, go, e, deserialize_loop))
    ]
  ]
]

-- `deserializeMsgDatagram` ends on every input, however malformed: its loop never runs out of fuel.
pub deserialize_total : (bs : Bytes) → (p : Parsed) × (deserialize bs ≡ some p)
unfolding deserialize
deserialize_total bs = deserialize_loop_total (suc (length bs)) bs [] (omega arith)

-- One round by what its two reads give; with the reads shut, the three lemmas are equations.
pub round_short :
    (fuel : ℕ) (r : Bytes) (got : List Bytes) (e : Error)
    → read_full 5 r ≡ err e
    → deserialize_loop (suc fuel) r got ≡ some (got, r, some e)
unfolding deserialize_loop
round_short fuel r got e h = rw (h, deserialize_loop)

pub round_cut :
    (fuel : ℕ) (r : Bytes) (got : List Bytes) (hdr r1 : Bytes) (e : Error)
    → read_full 5 r ≡ ok (hdr, r1)
    → read_full (uint32 (drop 1 hdr)) r1 ≡ err e
    → deserialize_loop (suc fuel) r got ≡ some (got, r1, some e)
unfolding deserialize_loop
round_cut fuel r got hdr r1 e h k = rw (h, k, deserialize_loop)

pub round_last :
    (fuel : ℕ) (r : Bytes) (got : List Bytes) (hdr r1 f r2 : Bytes)
    → read_full 5 r ≡ ok (hdr, r1)
    → read_full (uint32 (drop 1 hdr)) r1 ≡ ok (f, r2)
    → has_more (first_byte hdr) ≡ false
    → deserialize_loop (suc fuel) r got ≡ some (got ++ f ∷ [], r2, none)
unfolding deserialize_loop
round_last fuel r got hdr r1 f r2 h k m = rw (h, k, m, deserialize_loop)

pub round_more :
    (fuel : ℕ) (r : Bytes) (got : List Bytes) (hdr r1 f r2 : Bytes)
    → read_full 5 r ≡ ok (hdr, r1)
    → read_full (uint32 (drop 1 hdr)) r1 ≡ ok (f, r2)
    → has_more (first_byte hdr) ≡ true
    → deserialize_loop (suc fuel) r got ≡ deserialize_loop fuel r2 (got ++ f ∷ [])
unfolding deserialize_loop
round_more fuel r got hdr r1 f r2 h k m = rw (h, k, m, deserialize_loop)

loop-append :
    (fuel fuel' : ℕ) (r more : Bytes) (got fs : List Bytes) (rest : Bytes)
    → fuel ≤ fuel'
    → deserialize_loop fuel r got ≡ some (fs, rest, none)
    → deserialize_loop fuel' (r ++ more) got ≡ some (fs, rest ++ more, none)
loop-append zero fuel' r more got fs rest hf h = unfold deserialize_loop in cc
loop-append (suc fuel) zero r more got fs rest hf h = absurd (omega arith)
loop-append (suc fuel) (suc fuel') r more got fs rest hf h = elim (read_full_cases 5 r) [
  | inr (e, short, _) ↦ cc (h, round_short fuel r got e short)
  | inl (hdr, r1, header, _, _) ↦ elim (read_full_cases (uint32 (drop 1 hdr)) r1) [
    | inr (e, short, _) ↦ cc (h, round_cut fuel r got hdr r1 e header short)
    | inl (f, r2, body, _, _) ↦
        let header' = read_full-append_ok 5 r more hdr r1 header in
        let body' = read_full-append_ok (uint32 (drop 1 hdr)) r1 more f r2 body in
        elim (Bool-cases (has_more (first_byte hdr))) [
          | inr stop ↦
              round_last fuel' (r ++ more) got hdr (r1 ++ more) f (r2 ++ more) header' body' stop
              ∙ ground (arith, h, round_last fuel r got hdr r1 f r2 header body stop)
          | inl go ↦
              round_more fuel' (r ++ more) got hdr (r1 ++ more) f (r2 ++ more) header' body' go
              ∙ loop-append fuel fuel' r2 more (got ++ f ∷ []) fs rest (omega arith)
                  (sym (round_more fuel r got hdr r1 f r2 header body go) ∙ h)
        ]
  ]
]

-- A message that was read in full is read the same when more bytes follow it, and they stay behind.
pub deserialize-append :
    (bs more : Bytes) (fs : List Bytes) (rest : Bytes)
    → deserialize bs ≡ some (fs, rest, none)
    → deserialize (bs ++ more) ≡ some (fs, rest ++ more, none)
unfolding deserialize
deserialize-append bs more fs rest h =
    loop-append (suc (length bs)) (suc (length (bs ++ more))) bs more [] fs rest
      (omega (arith, length-append bs more)) h

errs_unless_whole :
    (bs : Bytes) (p : Parsed)
    → deserialize bs ≡ some p
    → ((fs : List Bytes) (rest : Bytes) → deserialize bs ≡ some (fs, rest, none) → ⊥)
    → (fs : List Bytes) × (rest : Bytes) × (e : Error) × (deserialize bs ≡ some (fs, rest, some e))
errs_unless_whole bs (fs, rest, some e) d never = (fs, rest, e, d)
errs_unless_whole bs (fs, rest, none) d never = absurd (never fs rest d)

-- Every proper prefix of a packed message is refused with an error: for a message with at least
-- one frame, every frame below 2^32 bytes, cutting off one or more bytes at the end never yields
-- a message.
pub deserialize_truncated :
    (msg : Msg) (front back : Bytes) (x : ℕ)
    → msg.frames ≢ []
    → All Fits msg.frames
    → serialize_msg_datagram msg ≡ front ++ x ∷ back
    → (fs : List Bytes) × (rest : Bytes) × (e : Error) × (deserialize front
        ≡ some (fs, rest, some e))
deserialize_truncated msg front back x ne h s =
    let whole : deserialize (front ++ x ∷ back) ≡ some (msg.frames, [], none) =
      rw (append-nil, s) at (deserialize-serialize msg [] ne h) in
    let (p, d) = deserialize_total front in
    errs_unless_whole front p d λ fs rest full. ground (
      arith,
      whole,
      deserialize-append front (x ∷ back) fs rest full,
      length-append rest (x ∷ back),
    )
