-- ===== src/Socket/Backoff.antt =====
-- socket.go: the wait between two attempts to reconnect, in 64-bit arithmetic.
use quicmq.Base.{
  ℕ, zero, suc, ◌+◌, ◌*◌, ◌%◌, ◌^◌, ◌<◌, ◌≤◌, min, ◌≡◌, ap, ◌∙◌, Bool, Option, none, some, arith,
  ltb, leb, if◌then◌else◌,
}

-- A `time.Duration` is an int64, here its 64-bit two's complement pattern.
abbrev pub is_neg : ℕ → Bool
is_neg d = leb (2 ^ 63) d

abbrev pub less : ℕ → ℕ → Bool
less a b = ltb ((a + 2 ^ 63) % 2 ^ 64) ((b + 2 ^ 63) % 2 ^ 64)

abbrev pub min_duration : ℕ → ℕ → ℕ
min_duration a b = if less b a then b else a

-- `time.Duration(-1)`.
abbrev pub minus_one : ℕ
minus_one = 18446744073709551615

pub record Backoff : Type 0 where
  pub reconnect_ivl : ℕ
  pub reconnect_ivl_max : ℕ

unfoldable pub candidate : Backoff → ℕ → ℕ
candidate b cur =
    if is_neg cur
    then b.reconnect_ivl
    else if less (cur * 2 % 2 ^ 64) cur
    then b.reconnect_ivl_max
    else cur * 2 % 2 ^ 64

-- The interval and the new `*currentIvl`. `drawn` is what `rand.Int63n` returns, which panics on a
-- bound that is not positive: `none`.
unfoldable pub get_new_reconnect_ivl : Backoff → ℕ → ℕ → Option (ℕ × ℕ)
unfolding candidate
get_new_reconnect_ivl b drawn cur =
    if less 0 b.reconnect_ivl_max
    then (let c = min_duration (candidate b cur) b.reconnect_ivl_max in some (c, c))
    else if less 0 b.reconnect_ivl
    then (let c = if is_neg cur then b.reconnect_ivl else cur in some ((c + drawn) % 2 ^ 64, c))
    else none

-- The loop of `reconnect`: the interval before attempt n and `currentIvl` after it.
unfoldable pub nth_interval : Backoff → (ℕ → ℕ) → ℕ → Option (ℕ × ℕ)
unfolding get_new_reconnect_ivl
nth_interval b draws zero = get_new_reconnect_ivl b (draws 0) minus_one
nth_interval b draws (suc n) = elim (nth_interval b draws n) [
  | none ↦ none
  | some (i, cur) ↦ get_new_reconnect_ivl b (draws (suc n)) cur
]

pub capped_first :
    (b : Backoff) (drawn : ℕ)
    → b.reconnect_ivl < 2 ^ 63
    → 0 < b.reconnect_ivl_max
    → b.reconnect_ivl_max < 2 ^ 63
    → get_new_reconnect_ivl b drawn minus_one
      ≡ some (min b.reconnect_ivl b.reconnect_ivl_max, min b.reconnect_ivl b.reconnect_ivl_max)
unfolding get_new_reconnect_ivl candidate
capped_first b drawn small some_max small_max = ground arith

pub capped_next :
    (b : Backoff) (drawn cur : ℕ)
    → 0 < b.reconnect_ivl_max
    → b.reconnect_ivl_max < 2 ^ 63
    → cur ≤ b.reconnect_ivl_max
    → get_new_reconnect_ivl b drawn cur
      ≡ some (min (cur * 2) b.reconnect_ivl_max, min (cur * 2) b.reconnect_ivl_max)
unfolding get_new_reconnect_ivl candidate
capped_next b drawn cur some_max small_max below = ground arith

pub doubled : (ivl m n : ℕ) → min (min (ivl * 2 ^ n) m * 2) m ≡ min (ivl * 2 ^ suc n) m
doubled ivl m n =
    let twice : ivl * 2 ^ suc n ≡ ivl * 2 ^ n * 2 = grind arith in ground (arith, twice)

-- With a maximum the waits grow by powers of two up to it: before attempt n, counted from 0, the
-- socket waits the base interval times 2^n, or the maximum where that is less, for every n, so the
-- 64-bit doubling never wraps around. The base interval is not negative and the maximum is positive,
-- both int64.
pub nth_interval_capped :
    (b : Backoff) (draws : ℕ → ℕ) (n : ℕ)
    → b.reconnect_ivl < 2 ^ 63
    → 0 < b.reconnect_ivl_max
    → b.reconnect_ivl_max < 2 ^ 63
    → nth_interval b draws n
      ≡ some (
        min (b.reconnect_ivl * 2 ^ n) b.reconnect_ivl_max,
        min (b.reconnect_ivl * 2 ^ n) b.reconnect_ivl_max,
      )
unfolding nth_interval
nth_interval_capped b draws zero small some_max small_max =
    capped_first b (draws 0) small some_max small_max
    ∙ ap (λ k. some (min k b.reconnect_ivl_max, min k b.reconnect_ivl_max)) (omega arith)
nth_interval_capped b draws (suc n) small some_max small_max =
    let m = min (b.reconnect_ivl * 2 ^ n) b.reconnect_ivl_max in
    ap (λ r. elim r [ none ↦ none | some (i, cur) ↦ get_new_reconnect_ivl b (draws (suc n)) cur ])
      (nth_interval_capped b draws n small some_max small_max)
    ∙ capped_next b (draws (suc n)) m some_max small_max (ground arith)
    ∙ ap (λ k. some (k, k)) (doubled b.reconnect_ivl b.reconnect_ivl_max n)

jitter_first :
    (b : Backoff) (drawn : ℕ)
    → b.reconnect_ivl_max ≡ 0
    → 0 < b.reconnect_ivl
    → b.reconnect_ivl < 2 ^ 62
    → drawn < b.reconnect_ivl
    → get_new_reconnect_ivl b drawn minus_one ≡ some (b.reconnect_ivl + drawn, b.reconnect_ivl)
unfolding get_new_reconnect_ivl
jitter_first b drawn no_max positive small bound = ground arith

jitter_next :
    (b : Backoff) (drawn : ℕ)
    → b.reconnect_ivl_max ≡ 0
    → 0 < b.reconnect_ivl
    → b.reconnect_ivl < 2 ^ 62
    → drawn < b.reconnect_ivl
    → get_new_reconnect_ivl b drawn b.reconnect_ivl
      ≡ some (b.reconnect_ivl + drawn, b.reconnect_ivl)
unfolding get_new_reconnect_ivl
jitter_next b drawn no_max positive small bound = ground arith

-- Without a maximum every wait is the base interval and the number drawn for it, which is below the
-- base interval, so the waits neither grow nor wrap around. The base interval is positive and below
-- 2^62 nanoseconds, and every number drawn is below it.
pub nth_interval_jitter :
    (b : Backoff) (draws : ℕ → ℕ) (n : ℕ)
    → b.reconnect_ivl_max ≡ 0
    → 0 < b.reconnect_ivl
    → b.reconnect_ivl < 2 ^ 62
    → ((k : ℕ) → draws k < b.reconnect_ivl)
    → nth_interval b draws n ≡ some (b.reconnect_ivl + draws n, b.reconnect_ivl)
unfolding nth_interval
nth_interval_jitter b draws zero no_max positive small bound =
    jitter_first b (draws 0) no_max positive small (bound 0)
nth_interval_jitter b draws (suc n) no_max positive small bound =
    ap (λ r. elim r [ none ↦ none | some (i, cur) ↦ get_new_reconnect_ivl b (draws (suc n)) cur ])
      (nth_interval_jitter b draws n no_max positive small bound)
    ∙ jitter_next b (draws (suc n)) no_max positive small (bound (suc n))
