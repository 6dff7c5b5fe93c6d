-- ===== src/Conn/Read.antt =====
-- `Conn.read` against the datagram decoder: on the same bytes they do the same.
use quicmq.Base.{
  ℕ, zero, suc, ◌≤◌, ◌<◌, ◌≡◌, refl, sym, ap, ◌∙◌, true, false, Option, none, some, List, [], ◌∷◌,
  ◌++◌, arith, length, take, drop, Bool-cases, inl, inr, length-append, take-length-append,
  drop-length-append,
}
use mathlib.Core.Path.{subst}
use quicmq.Base.Bytes.{Bytes}
use quicmq.Result.{Result, ok, err, Error}
use quicmq.Msg.{Msg, msg_of}
use quicmq.Wire.{uint32, has_more, first_byte}
use quicmq.Wire.Format.{read_full_cases}
use quicmq.Datagram.Codec.{Parsed, deserialize_loop, deserialize}
use quicmq.Datagram.Codec.Robust.{round_short, round_cut, round_last, round_more}
use quicmq.Conn.{NetConn, Store, set_rw, set_closed, check_io, read_part, read_loop, read, received}
use quicmq.Conn.Stream.{IsStream, update_self, update_same, set_rw-set_rw}

-- Five bytes have names.
five :
    (xs : Bytes)
    → length xs ≡ 5
    → (a : ℕ) × (b : ℕ) × (c : ℕ) × (d : ℕ) × (e : ℕ) × (xs ≡ a ∷ b ∷ c ∷ d ∷ e ∷ [])
five (a ∷ b ∷ c ∷ d ∷ e ∷ []) h = (a, b, c, d, e, refl)
five [] h = absurd (omega arith)
five (a ∷ []) h = absurd (omega arith)
five (a ∷ b ∷ []) h = absurd (omega arith)
five (a ∷ b ∷ c ∷ []) h = absurd (omega arith)
five (a ∷ b ∷ c ∷ d ∷ []) h = absurd (omega arith)
five (a ∷ b ∷ c ∷ d ∷ e ∷ f ∷ xs) h = absurd (omega arith)

module _ {S : Type 0} {io : NetConn S} (stream : IsStream io) where
  open stream use {pending, read_enough, read_short}

  received_ok :
      (st : Store S) (c : ℕ) (s : S) (bs : Bytes) (r : Result Bytes × S)
      → r.0 ≡ ok bs
      → received c (set_rw st c s) r ≡ (ok bs, set_rw st c r.1)
  received_ok st c s bs (ok xs, s') h = ground (arith, h, set_rw-set_rw st c s s')
  received_ok st c s bs (err e, s') h = absurd (ground arith)

  received_err :
      (st : Store S) (c : ℕ) (s : S) (e : Error) (r : Result Bytes × S)
      → r.0 ≡ err e
      → received c (set_rw st c s) r ≡ (err e, set_closed (set_rw st c r.1) c)
  unfolding check_io
  received_err st c s e (ok xs, s') h = absurd (ground arith)
  received_err st c s e (err x, s') h =
      let same : x ≡ e = ground arith in
      λ i. (err (same i), set_closed (set_rw-set_rw st c s s' i) c)

  part_enough :
      (st : Store S) (c : ℕ) (s : S) (n : ℕ)
      → n ≤ length (pending s)
      → (s' : S) × (read_part io c n (set_rw st c s) ≡ (ok (take n (pending s)), set_rw st c s'))
        × (pending s' ≡ drop n (pending s))
  unfolding read_part
  part_enough st c s n h =
      let (e, p) = read_enough s n h in
      ((io.read_exactly s n).1, rw (update_self st.conns c _) (received_ok st c s _ _ e), p)

  part_short :
      (st : Store S) (c : ℕ) (s : S) (n : ℕ)
      → length (pending s) < n
      → (e : Error) × (s' : S) × (read_part io c n (set_rw st c s)
          ≡ (err e, set_closed (set_rw st c s') c))
  unfolding read_part
  part_short st c s n h =
      let (x, e) = read_short s n h in
      (x, (io.read_exactly s n).1, rw (update_self st.conns c _) (received_err st c s x _ e))

  -- `read` agrees with the datagram decoder on what the decoder makes of the pending bytes: the same
  -- frames, and no fuel left or an error in the same cases; after a success the decoder's rest is
  -- what is still pending, and after an error the connection is closed.
  abbrev pub Agrees : ℕ → Store S → Option Parsed → Option (Msg × Store S) → Type 0
  Agrees c st none r = r ≡ none
  Agrees c st (some (fs, rest, none)) r =
      (s : S) × (r ≡ some (msg_of fs, set_rw st c s)) × (pending s ≡ rest)
  Agrees c st (some (fs, rest, some e)) r =
      (x : Error) × (s : S) × (r
        ≡ some (record (msg_of fs) { err = some x }, set_closed (set_rw st c s) c))

  -- The cases of one round, with the reads shut.
  round_fails_flag :
      (c fuel : ℕ) (got : List Bytes) (st st1 : Store S) (e : Error)
      → read_part io c 1 st ≡ (err e, st1)
      → read_loop io c (suc fuel) got st ≡ some (record (msg_of got) { err = some e }, st1)
  unfolding read_loop
  round_fails_flag c fuel got st st1 e h = rw (h, read_loop)

  round_fails_len :
      (c fuel : ℕ) (got : List Bytes) (st st1 st2 : Store S) (flag : Bytes) (e : Error)
      → read_part io c 1 st ≡ (ok flag, st1)
      → read_part io c 4 st1 ≡ (err e, st2)
      → read_loop io c (suc fuel) got st ≡ some (record (msg_of got) { err = some e }, st2)
  unfolding read_loop
  round_fails_len c fuel got st st1 st2 flag e h k = rw (h, k, read_loop)

  round_fails_body :
      (c fuel : ℕ) (got : List Bytes) (st st1 st2 st3 : Store S) (flag len : Bytes) (e : Error)
      → read_part io c 1 st ≡ (ok flag, st1)
      → read_part io c 4 st1 ≡ (ok len, st2)
      → read_part io c (uint32 len) st2 ≡ (err e, st3)
      → read_loop io c (suc fuel) got st ≡ some (record (msg_of got) { err = some e }, st3)
  unfolding read_loop
  round_fails_body c fuel got st st1 st2 st3 flag len e h k b = rw (h, k, b, read_loop)

  round_ends :
      (c fuel : ℕ) (got : List Bytes) (st st1 st2 st3 : Store S) (flag len body : Bytes)
      → read_part io c 1 st ≡ (ok flag, st1)
      → read_part io c 4 st1 ≡ (ok len, st2)
      → read_part io c (uint32 len) st2 ≡ (ok body, st3)
      → has_more (first_byte flag) ≡ false
      → read_loop io c (suc fuel) got st ≡ some (msg_of (got ++ body ∷ []), st3)
  unfolding read_loop
  round_ends c fuel got st st1 st2 st3 flag len body h k b m = rw (h, k, b, m, read_loop)

  round_goes_on :
      (c fuel : ℕ) (got : List Bytes) (st st1 st2 st3 : Store S) (flag len body : Bytes)
      → read_part io c 1 st ≡ (ok flag, st1)
      → read_part io c 4 st1 ≡ (ok len, st2)
      → read_part io c (uint32 len) st2 ≡ (ok body, st3)
      → has_more (first_byte flag) ≡ true
      → read_loop io c (suc fuel) got st ≡ read_loop io c fuel (got ++ body ∷ []) st3
  unfolding read_loop
  round_goes_on c fuel got st st1 st2 st3 flag len body h k b m = rw (h, k, b, m, read_loop)

  part_exact :
      (st : Store S) (c : ℕ) (s : S) (n : ℕ) (xs rest : Bytes)
      → pending s ≡ xs ++ rest
      → length xs ≡ n
      → (s' : S) × (read_part io c n (set_rw st c s) ≡ (ok xs, set_rw st c s'))
        × (pending s' ≡ rest)
  part_exact st c s n xs rest p l =
      let (s', k, q) = part_enough st c s n (rw (p, length-append xs rest) (omega arith)) in
      let front : take n (pending s) ≡ xs = rw (p, ← l) (take-length-append xs rest) in
      let back : drop n (pending s) ≡ rest = rw (p, ← l) (drop-length-append xs rest) in
      (s', k ∙ ap (λ bs. (ok bs, set_rw st c s')) front, q ∙ back)

  -- The decoder's five header bytes are the flag and the length that `read` takes one by one.
  header_exact :
      (st : Store S) (c : ℕ) (s : S) (hdr r1 : Bytes)
      → pending s ≡ hdr ++ r1
      → length hdr ≡ 5
      → (flag : Bytes) × (s1 : S) × (s2 : S) × (read_part io c 1 (set_rw st c s)
          ≡ (ok flag, set_rw st c s1))
        × (read_part io c 4 (set_rw st c s1) ≡ (ok (drop 1 hdr), set_rw st c s2))
        × (first_byte flag ≡ first_byte hdr)
        × (pending s2 ≡ r1)
  header_exact st c s hdr r1 p l =
      let (a, b, d, e, f, names) = five hdr l in
      let tail : drop 1 hdr ≡ b ∷ d ∷ e ∷ f ∷ [] = ap (drop 1) names in
      let (s1, k1, p1) =
        part_exact st c s 1 (a ∷ []) (b ∷ d ∷ e ∷ f ∷ r1) (p ∙ ap (λ h. h ++ r1) names)
          (omega arith) in
      let (s2, k2, p2) = part_exact st c s1 4 (b ∷ d ∷ e ∷ f ∷ []) r1 p1 (omega arith) in
      (
        a ∷ [],
        s1,
        s2,
        k1,
        k2 ∙ ap (λ bs. (ok bs, set_rw st c s2)) (sym tail),
        sym (ap first_byte names),
        p2,
      )

  short_header :
      (st : Store S) (c fuel : ℕ) (s : S) (got : List Bytes) (bs : Bytes) (e : Error)
      → pending s ≡ bs
      → length bs < 5
      → Agrees c st (some (got, bs, some e)) (read_loop io c (suc fuel) got (set_rw st c s))
  short_header st c fuel s got [] e p h =
      let (x, s1, r) = part_short st c s 1 (rw p (omega arith)) in
      (x, s1, round_fails_flag c fuel got (set_rw st c s) _ x r)
  short_header st c fuel s got (b ∷ bs) e p h =
      let (s1, r, p1) = part_enough st c s 1 (rw p (omega arith)) in
      let p1' : pending s1 ≡ bs = rw p1 (rw p refl) in
      let (x, s2, r2) = part_short st c s1 4 (rw p1' (omega arith)) in
      (x, s2, round_fails_len c fuel got (set_rw st c s) _ _ _ x r r2)

  loop-Agrees :
      (fuel c : ℕ) (st : Store S) (s : S) (got : List Bytes) (bs : Bytes)
      → pending s ≡ bs
      → Agrees c st (deserialize_loop fuel bs got) (read_loop io c fuel got (set_rw st c s))
  loop-Agrees zero c st s got bs p = unfold deserialize_loop read_loop in refl
  loop-Agrees (suc fuel) c st s got bs p = elim (read_full_cases 5 bs) [
    | inr (e, short, l) ↦
        rw (round_short fuel bs got e short) (short_header st c fuel s got bs e p l)
    | inl (hdr, r1, header, cut, l) ↦
        let (flag, s1, s2, k1, k2, same, p2) = header_exact st c s hdr r1 (p ∙ cut) l in
        elim (read_full_cases (uint32 (drop 1 hdr)) r1) [
          | inr (e, short, l2) ↦
              let (x, s3, k3) = part_short st c s2 (uint32 (drop 1 hdr)) (rw p2 l2) in
              rw (round_cut fuel bs got hdr r1 e header short)
                (x, s3, round_fails_body c fuel got _ _ _ _ _ _ x k1 k2 k3)
          | inl (f, r2, body, cut2, l2) ↦
              let (s3, k3, p3) = part_exact st c s2 (uint32 (drop 1 hdr)) f r2 (p2 ∙ cut2) l2 in
              elim (Bool-cases (has_more (first_byte hdr))) [
                | inr stop ↦
                    rw (round_last fuel bs got hdr r1 f r2 header body stop)
                      (s3, round_ends c fuel got _ _ _ _ _ _ f k1 k2 k3 (rw same stop), p3)
                | inl go ↦
                    rw
                      (
                        round_more fuel bs got hdr r1 f r2 header body go,
                        round_goes_on c fuel got _ _ _ _ _ _ f k1 k2 k3 (rw same go),
                      )
                      (loop-Agrees fuel c st s3 (got ++ f ∷ []) r2 p3)
              ]
        ]
  ]

  -- `read` and the datagram decoder agree on every input: with as much fuel as the decoder, and the
  -- pending bytes as its input, `read` returns the frames that the decoder returns, and an error
  -- exactly where it does.
  pub read-Agrees :
      (c : ℕ) (st : Store S)
      → let bs = pending (st.conns c).rw in
        Agrees c st (deserialize bs) (read io (suc (length bs)) c st)
  unfolding deserialize read
  read-Agrees c st =
      let bs = pending (st.conns c).rw in
      subst
        (λ t.
          Agrees c st (deserialize_loop (suc (length bs)) bs [])
            (read_loop io c (suc (length bs)) [] t))
        (ap (λ f. record st { conns = f }) (update_same st.conns c))
        (loop-Agrees (suc (length bs)) c st (st.conns c).rw [] bs refl)
