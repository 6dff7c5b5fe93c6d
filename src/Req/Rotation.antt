-- ===== src/Req/Rotation.antt =====
-- `reqWriter.write` is round robin: it tries the connections in rotation from `nextConn`.
use quicmq.Base.{
  ℕ, suc, ◌+◌, ◌-◌, ◌%◌, ◌≤◌, ◌<◌, ◌≡◌, ap, ◌∙◌, sym, Option, none, some, List, [], ◌∷◌, ◌++◌,
  arith, length, take, drop, get_or, get_or-append_left, get_or-append_right, get_or-drop,
  get_or-take, length-drop, Bool-cases, inl, inr, ltb, ltb→lt,
}
use native.Mathlib.Nat.{add_comm, mod-lt, mod-eq_of_lt, mod-eq-sub-mod, add-mod-mod}
use quicmq.Result.{Error, req_all_failed}
use quicmq.Msg.{Msg}
use quicmq.Conn.{NetConn, Store, send_msg}
use quicmq.Req.{ReqWriter, ReqSocket, cur_conn, accepted}

-- The connections in the order in which the next request tries them.
unfoldable pub rotation : ReqWriter → List ℕ
rotation w = let n = w.next_conn % length w.conns in drop n w.conns ++ take n w.conns

wrap_low : (i n m : ℕ) → i + n < m → (i + n) % m ≡ i + n
wrap_low i n m h = mod-eq_of_lt h

wrap_high : (i n m : ℕ) → i < m → n < m → m ≤ i + n → (i + n) % m ≡ i + n - m
wrap_high i n m hi hn h = mod-eq-sub-mod h ∙ mod-eq_of_lt (omega arith)

-- Reading a list that is cut at n and put together the other way round.
get_or-rotated :
    (xs : List ℕ) (n i : ℕ)
    → n < length xs
    → i < length xs
    → get_or (drop n xs ++ take n xs) i 0 ≡ get_or xs ((i + n) % length xs) 0
get_or-rotated xs n i hn hi = elim (Bool-cases (ltb i (length xs - n))) [
  | inl front ↦
      let low : i < length (drop n xs) = rw (length-drop n xs) (ltb→lt _ _ front) in
      get_or-append_left (drop n xs) (take n xs) i 0 low
      ∙ get_or-drop n xs i 0
      ∙ ap (λ j. get_or xs j 0)
          (add_comm n i ∙ sym (wrap_low i n (length xs) (omega (arith, ltb→lt _ _ front))))
  | inr back ↦
      let far : length xs - n ≤ i = ground arith in
      let high : length (drop n xs) ≤ i = rw (length-drop n xs) far in
      get_or-append_right (drop n xs) (take n xs) i 0 high
      ∙ ap (λ k. get_or (take n xs) (i - k) 0) (length-drop n xs)
      ∙ get_or-take n xs (i - (length xs - n)) 0 (omega arith)
      ∙ ap (λ j. get_or xs j 0) (sym (wrap_high i n (length xs) hi hn (omega arith) ∙ omega arith))
]

-- The loop's i-th connection is the i-th of the rotation.
pub get_or-rotation :
    (w : ReqWriter) (i : ℕ) → i < length w.conns → get_or (rotation w) i 0 ≡ cur_conn w i
unfolding rotation
get_or-rotation w i h =
    get_or-rotated w.conns (w.next_conn % length w.conns) i (mod-lt w.next_conn (omega arith)) h
    ∙ ap (λ j. get_or w.conns j 0) (add-mod-mod i w.next_conn (length w.conns))

module _ {S : Type 0} (io : NetConn S) where
  abbrev next_position : Option ℕ × Store S → Option ℕ × Store S
  next_position (none, st) = (none, st)
  next_position (some k, st) = (some (suc k), st)

  abbrev or_else : Option Error × Store S → (Store S → Option ℕ × Store S) → Option ℕ × Store S
  or_else (none, st) next = (some 0, st)
  or_else (some e, st) next = next_position (next st)

  -- The specification: connections are offered the message in turn until one accepts it. The answer
  -- is the position of that one, and the store after all the attempts.
  unfoldable pub first_accepting : Msg → List ℕ → Store S → Option ℕ × Store S
  first_accepting msg [] st = (none, st)
  first_accepting msg (c ∷ cs) st = or_else (send_msg io c msg st) (first_accepting msg cs)

  -- The writer's answer, by that of the specification, counted from i on.
  abbrev pub RoundRobin : ReqSocket S → ℕ → Option ℕ × Store S → Option Error × ReqSocket S → Type 0
  RoundRobin sk i (none, st) r =
      (e : Error) × (r ≡ (some (req_all_failed e), record sk { store = st }))
  RoundRobin sk i (some k, st) r = r ≡ (none, accepted sk (i + k) st)
