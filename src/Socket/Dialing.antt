-- ===== src/Socket/Dialing.antt =====
-- socket.go: the loop of Dial, between its transport and the connection that it opens.
pub mod Tries
use quicmq.Base.{
  ℕ, zero, suc, ◌+◌, ◌-◌, ◌≤◌, ◌<◌, ◌≡◌, refl, ap, ◌∙◌, Bool, true, false, not, ◌&&◌, Option, none,
  some, arith, ltb, if◌then◌else◌, Bool-cases, inl, inr,
}
use quicmq.Base.Int.{ℤ, pos, negsuc}
use quicmq.Result.{Error, Result, ok, err, nil_conn, dial_budget, dial_cancelled, dial_failed}

-- The pause between two attempts ends by the timer or by one of the two contexts.
pub data Pause : Type 0 where
  slept budget_ended : Pause
  cancelled : Error → Pause

-- What happens around one attempt: what the transport returns (a nil connection is `none`), whether
-- the contexts are over then, and how the pause ends that follows a failure.
pub record Attempt (S : Type 0) : Type 0 where
  pub dialed : Result (Option S)
  pub budget_over : Bool
  pub socket_over : Bool
  pub pause : Pause

-- `sck.maxRetries == -1 || retries < sck.maxRetries`.
unfoldable pub may_retry : ℤ → ℕ → Bool
may_retry (pos n) retries = ltb retries n
may_retry (negsuc zero) retries = true
may_retry (negsuc (suc n)) retries = false

module _ {S : Type 0} where
  unfoldable pub not_nil : Option S → Result S
  not_nil none = err nil_conn
  not_nil (some s) = ok s

  abbrev pub after_pause : Error → Pause → Option (Result S) → Option (Result S)
  after_pause e slept next = next
  after_pause e budget_ended next = some (err (dial_budget e))
  after_pause e (cancelled x) next = some (err (dial_cancelled x))

  -- One attempt; `next` is the jump back to `connect`.
  unfoldable pub attempt :
      ℤ → ℕ → Attempt S → Result (Option S) → Option (Result S) → Option (Result S)
  unfolding may_retry not_nil
  attempt max_retries retries a (ok conn) next = some (not_nil conn)
  attempt max_retries retries a (err e) next =
      if a.budget_over
      then some (err (dial_budget e))
      else if may_retry max_retries retries && not a.socket_over
      then after_pause e a.pause next
      else some (err (dial_failed e))

  -- The loop from `retries` on. `none` means that the fuel ran out.
  unfoldable pub dial_loop : ℤ → (ℕ → Attempt S) → ℕ → ℕ → Option (Result S)
  unfolding attempt
  dial_loop max_retries attempts zero retries = none
  dial_loop max_retries attempts (suc fuel) retries =
      let next = dial_loop max_retries attempts fuel (suc retries) in
      attempt max_retries retries (attempts retries) (attempts retries).dialed next

  -- An attempt that fails while both contexts run, and through the pause behind it.
  abbrev pub Fails : Attempt S → Type 0
  Fails a =
      (e : Error) × (a.dialed ≡ err e)
      × (a.budget_over ≡ false)
      × (a.socket_over ≡ false)
      × (a.pause ≡ slept)

  attempt_again :
      (n retries : ℕ) (a : Attempt S) (next : Option (Result S))
      → Fails a
      → retries < n
      → attempt (pos n) retries a a.dialed next ≡ next
  unfolding attempt may_retry
  attempt_again n retries a next (e, failed, budget, socket, pause) low =
      let more : (ltb retries n && not a.socket_over) ≡ true = ground arith in
      let goes_on : attempt (pos n) retries a (err e) next ≡ next =
        rw (budget, more, attempt) (ap (λ p. after_pause e p next) pause) in
      ap (λ d. attempt (pos n) retries a d next) failed ∙ goes_on

  loop_again :
      (n : ℕ) (attempts : ℕ → Attempt S) (k fuel retries : ℕ)
      → ((i : ℕ) → i < k + retries → Fails (attempts i))
      → k + retries ≤ n
      → dial_loop (pos n) attempts (k + fuel) retries
        ≡ dial_loop (pos n) attempts fuel (k + retries)
  unfolding dial_loop
  loop_again n attempts zero fuel retries fails low =
      ap (λ f. dial_loop (pos n) attempts f retries) {x = 0 + fuel} {y = fuel} (omega arith)
      ∙ ap (dial_loop (pos n) attempts fuel) {x = retries} {y = 0 + retries} (omega arith)
  loop_again n attempts (suc k) fuel retries fails low =
      ap (λ f. dial_loop (pos n) attempts f retries) {x = suc k + fuel} {y = suc (k + fuel)}
        (omega arith)
      ∙ attempt_again n retries (attempts retries)
          (dial_loop (pos n) attempts (k + fuel) (suc retries)) (fails retries (omega arith))
          (omega arith)
      ∙ loop_again n attempts k fuel (suc retries) (λ i h. fails i (omega arith)) (omega arith)
      ∙ ap (dial_loop (pos n) attempts fuel) {x = k + suc retries} {y = suc k + retries}
          (omega arith)

  -- Dial gives the connection of the first attempt that succeeds: if attempts 0 to k - 1 fail while
  -- the contexts run and attempt k, within the cap of n retries, returns connection s, Dial has s.
  pub dial_first_success :
      (n k : ℕ) (attempts : ℕ → Attempt S) (s : S)
      → k ≤ n
      → ((i : ℕ) → i < k → Fails (attempts i))
      → (attempts k).dialed ≡ ok (some s)
      → dial_loop (pos n) attempts (suc n) 0 ≡ some (ok s)
  unfolding dial_loop attempt not_nil
  dial_first_success n k attempts s low fails good =
      ap (λ f. dial_loop (pos n) attempts f 0) {x = suc n} {y = k + suc (n - k)} (omega arith)
      ∙ loop_again n attempts k (suc (n - k)) 0 (λ i h. fails i (omega arith)) (omega arith)
      ∙ ap (dial_loop (pos n) attempts (suc (n - k))) {x = k + 0} {y = k} (omega arith)
      ∙ ap (λ d. attempt (pos n) k (attempts k) d (dial_loop (pos n) attempts (n - k) (suc k))) good

  -- And if all n + 1 attempts fail while the contexts run, Dial reports the error of the last one.
  pub dial_exhausted :
      (n : ℕ) (attempts : ℕ → Attempt S) (e : Error)
      → ((i : ℕ) → i ≤ n → Fails (attempts i))
      → (attempts n).dialed ≡ err e
      → dial_loop (pos n) attempts (suc n) 0 ≡ some (err (dial_failed e))
  unfolding dial_loop attempt may_retry
  dial_exhausted n attempts e fails last =
      let (_, _, budget, _, _) = fails n (omega arith) in
      let stop : (ltb n n && not (attempts n).socket_over) ≡ false = ground arith in
      let gives_up : attempt (pos n) n (attempts n) (err e) none ≡ some (err (dial_failed e)) =
        rw (budget, stop, attempt) refl in
      ap (λ f. dial_loop (pos n) attempts f 0) {x = suc n} {y = n + 1} (omega arith)
      ∙ loop_again n attempts n 1 0 (λ i h. fails i (omega arith)) (omega arith)
      ∙ ap (dial_loop (pos n) attempts 1) {x = n + 0} {y = n} (omega arith)
      ∙ ap (λ d. attempt (pos n) n (attempts n) d none) last
      ∙ gives_up
