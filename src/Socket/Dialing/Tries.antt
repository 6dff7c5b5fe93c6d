-- ===== src/Socket/Dialing/Tries.antt =====
-- socket.go: how the loop of Dial ends, attempt by attempt.
use quicmq.Base.{
  ℕ, zero, suc, ◌+◌, ◌≤◌, ◌<◌, ◌≡◌, ◌⊎◌, refl, Bool, true, false, not, ◌&&◌, Option, none, some,
  arith, ltb, Bool-cases, inl, inr,
}
use quicmq.Base.Int.{pos}
use quicmq.Result.{Error, Result, ok, err, nil_conn, dial_budget, dial_cancelled, dial_failed}
use quicmq.Socket.Dialing.{
  Attempt, Pause, slept, budget_ended, cancelled, may_retry, not_nil, after_pause, attempt,
  dial_loop,
}

module _ {S : Type 0} (n : ℕ) (attempts : ℕ → Attempt S) where
  -- Attempt k fails while both contexts run and retries are left.
  abbrev pub WillWait : ℕ → Error → Type 0
  WillWait k e =
      ((attempts k).dialed ≡ err e)
      × ((attempts k).budget_over ≡ false)
      × ((attempts k).socket_over ≡ false)
      × (k < n)

  -- What Dial comes to from attempt k on, with a cap of n retries: the attempt connects or gives a
  -- nil connection; it fails when the time is over, at the cap, or with a socket that is closed; one of
  -- these ends comes in the pause behind it; or it fails and the next attempt decides.
  pub data Tries : ℕ → Result S → Type 0 where
    connects : (k : ℕ) (s : S) → (attempts k).dialed ≡ ok (some s) → Tries k (ok s)
    gets_nil : (k : ℕ) → (attempts k).dialed ≡ ok none → Tries k (err nil_conn)
    out_of_time :
        (k : ℕ) (e : Error)
        → (attempts k).dialed ≡ err e
        → (attempts k).budget_over ≡ true
        → Tries k (err (dial_budget e))
    gives_up :
        (k : ℕ) (e : Error)
        → (attempts k).dialed ≡ err e
        → (attempts k).budget_over ≡ false
        → (n ≤ k) ⊎ ((attempts k).socket_over ≡ true)
        → Tries k (err (dial_failed e))
    ends_waiting :
        (k : ℕ) (e : Error)
        → WillWait k e
        → (attempts k).pause ≡ budget_ended
        → Tries k (err (dial_budget e))
    cancelled_waiting :
        (k : ℕ) (e x : Error)
        → WillWait k e
        → (attempts k).pause ≡ cancelled x
        → Tries k (err (dial_cancelled x))
    next_try :
        (k : ℕ) (e : Error) (r : Result S)
        → WillWait k e
        → (attempts k).pause ≡ slept
        → Tries (suc k) r
        → Tries k r

  -- An end of the loop, with how it came about.
  abbrev Ends : ℕ → Option (Result S) → Type 0
  Ends k o = (r : Result S) × (o ≡ some r) × Tries k r

  pause-Ends :
      (k : ℕ) (e : Error) (p : Pause) (next : Option (Result S))
      → WillWait k e
      → (attempts k).pause ≡ p
      → Ends (suc k) next
      → Ends k (after_pause e p next)
  pause-Ends k e slept next w q (r, h, t) = (r, h, next_try k e r w q t)
  pause-Ends k e budget_ended next w q h = (err (dial_budget e), refl, ends_waiting k e w q)
  pause-Ends k e (cancelled x) next w q h =
      (err (dial_cancelled x), refl, cancelled_waiting k e x w q)

  stops : (k : ℕ) (over : Bool) → (ltb k n && not over) ≡ false → (n ≤ k) ⊎ (over ≡ true)
  stops k true h = inr refl
  stops k false h = inl (ground arith)

  attempt-Ends :
      (k : ℕ) (d : Result (Option S)) (next : Option (Result S))
      → (attempts k).dialed ≡ d
      → (k < n → Ends (suc k) next)
      → Ends k (attempt (pos n) k (attempts k) d next)
  unfolding attempt may_retry not_nil
  attempt-Ends k (ok none) next f more = (err nil_conn, refl, gets_nil k f)
  attempt-Ends k (ok (some s)) next f more = (ok s, refl, connects k s f)
  attempt-Ends k (err e) next f more = elim (Bool-cases (attempts k).budget_over) [
    | inl over ↦ (err (dial_budget e), rw (over, attempt) refl, out_of_time k e f over)
    | inr runs ↦ elim (Bool-cases (ltb k n && not (attempts k).socket_over)) [
      | inl again ↦
          let low : k < n = ground arith in
          let up : (attempts k).socket_over ≡ false = ground arith in
          rw (runs, again, attempt)
            (pause-Ends k e (attempts k).pause next (f, runs, up, low) refl (more low))
      | inr last ↦ (
        err (dial_failed e),
        rw (runs, last, attempt) refl,
        gives_up k e f runs (stops k (attempts k).socket_over last),
      )
    ]
  ]

  loop-Ends : (fuel k : ℕ) → k ≤ n → n < fuel + k → Ends k (dial_loop (pos n) attempts fuel k)
  unfolding dial_loop
  loop-Ends zero k low enough = absurd (omega arith)
  loop-Ends (suc fuel) k low enough =
      attempt-Ends k (attempts k).dialed (dial_loop (pos n) attempts fuel (suc k)) refl
        (λ h. loop-Ends fuel (suc k) (omega arith) (omega arith))

  -- The loop of Dial returns after n + 1 attempts at most, as its attempts say.
  pub dial_ends : (r : Result S) × (dial_loop (pos n) attempts (suc n) 0 ≡ some r) × Tries 0 r
  dial_ends = loop-Ends (suc n) 0 (omega arith) (omega arith)
