-- ===== src/Socket/Reconnecting.antt =====
-- socket.go: the loop of reconnect, which waits and dials until it is connected.
use quicmq.Base.{
  ℕ, zero, suc, ◌+◌, ◌*◌, ◌^◌, ◌<◌, min, ◌≡◌, refl, ap, ◌∙◌, Bool, false, Option, none, some, List,
  [], ◌∷◌, ◌++◌, arith, if◌then◌else◌, append_assoc,
}
use mathlib.Core.Path.{subst}
use quicmq.Result.{Error}
use quicmq.Socket.Backoff.{
  Backoff, get_new_reconnect_ivl, minus_one, capped_first, capped_next, doubled,
}

-- What happens in one round: whether the socket's context is done at the three places where the loop
-- looks, the number that is drawn, and the error of Dial.
pub record Round : Type 0 where
  pub over_at_start : Bool
  pub drawn : ℕ
  pub over_waiting : Bool
  pub over_after : Bool
  pub dial_error : Option Error

pub data Outcome : Type 0 where
  stopped connected panics : Outcome

-- The outcome and the intervals of the waits, in order.
abbrev pub Answer : Type 0
Answer = Option (Outcome × List ℕ)

abbrev pub after_dial : Option Error → List ℕ → Answer → Answer
after_dial none waits next = some (connected, waits)
after_dial (some e) waits next = next

abbrev pub after_wait : Round → List ℕ → Answer → Answer
after_wait r waits next =
    if r.over_waiting
    then some (stopped, waits)
    else if r.over_after
    then some (stopped, waits)
    else after_dial r.dial_error waits next

-- A round from its interval on; `next` is the rest of the loop.
abbrev pub with_interval : Round → List ℕ → Option (ℕ × ℕ) → (ℕ → List ℕ → Answer) → Answer
with_interval r waits none next = some (panics, waits)
with_interval r waits (some (i, cur)) next =
    after_wait r (waits ++ i ∷ []) (next cur (waits ++ i ∷ []))

-- The loop from round n on. The outer `none` means that the fuel ran out.
unfoldable pub reconnect_loop : Backoff → (ℕ → Round) → ℕ → ℕ → ℕ → List ℕ → Answer
reconnect_loop b rounds zero n cur waits = none
reconnect_loop b rounds (suc fuel) n cur waits =
    if (rounds n).over_at_start
    then some (stopped, waits)
    else with_interval (rounds n) waits (get_new_reconnect_ivl b (rounds n).drawn cur)
        (λ cur' waits'. reconnect_loop b rounds fuel (suc n) cur' waits')

-- `reconnect`.
unfoldable pub reconnect : Backoff → (ℕ → Round) → ℕ → Answer
unfolding reconnect_loop
reconnect b rounds fuel = reconnect_loop b rounds fuel 0 minus_one []

-- The intervals of libzmq's exponential backoff from attempt n on.
unfoldable pub growing_waits : Backoff → ℕ → ℕ → List ℕ
growing_waits b zero n = []
growing_waits b (suc k) n =
    min (b.reconnect_ivl * 2 ^ n) b.reconnect_ivl_max ∷ growing_waits b k (suc n)

-- A round in which the context runs and Dial answers so.
abbrev pub Dials : Round → Option Error → Type 0
Dials r e =
    (r.over_at_start ≡ false)
    × (r.over_waiting ≡ false)
    × (r.over_after ≡ false)
    × (r.dial_error ≡ e)

one_more_round :
    (b : Backoff) (rounds : ℕ → Round) (fuel n cur i : ℕ) (waits : List ℕ) (e : Option Error)
    → Dials (rounds n) e
    → get_new_reconnect_ivl b (rounds n).drawn cur ≡ some (i, i)
    → reconnect_loop b rounds (suc fuel) n cur waits
      ≡ after_dial e (waits ++ i ∷ []) (reconnect_loop b rounds fuel (suc n) i (waits ++ i ∷ []))
unfolding reconnect_loop
one_more_round b rounds fuel n cur i waits e (start, waiting, after, dial) ivl =
    rw (start, ivl, waiting, after, dial) refl

-- A round that fails while the context runs.
abbrev pub FailsDial : Round → Type 0
FailsDial r = (e : Error) × Dials r (some e)

grows :
    (b : Backoff) (rounds : ℕ → Round) (k n cur : ℕ) (waits : List ℕ)
    → 0 < b.reconnect_ivl_max
    → b.reconnect_ivl_max < 2 ^ 63
    → ((drawn : ℕ)
        → get_new_reconnect_ivl b drawn cur
          ≡ some (
            min (b.reconnect_ivl * 2 ^ n) b.reconnect_ivl_max,
            min (b.reconnect_ivl * 2 ^ n) b.reconnect_ivl_max,
          ))
    → ((j : ℕ) → j < k → FailsDial (rounds (j + n)))
    → Dials (rounds (k + n)) none
    → reconnect_loop b rounds (suc k) n cur waits
      ≡ some (connected, waits ++ growing_waits b (suc k) n)
unfolding growing_waits
grows b rounds zero n cur waits some_max small_max ivl fails done =
    one_more_round b rounds 0 n cur _ waits none
      (subst (λ t. Dials (rounds t) none) {x = 0 + n} {y = n} (omega arith) done)
      (ivl (rounds n).drawn)
grows b rounds (suc k) n cur waits some_max small_max ivl fails done =
    let i = min (b.reconnect_ivl * 2 ^ n) b.reconnect_ivl_max in
    let (e, failed) =
      subst (λ t. FailsDial (rounds t)) {x = 0 + n} {y = n} (omega arith) (fails 0 (omega arith)) in
    let next = λ (drawn : ℕ).
      capped_next b drawn i some_max small_max (ground arith)
      ∙ ap (λ t. some (t, t)) (doubled b.reconnect_ivl b.reconnect_ivl_max n) in
    let later = λ (j : ℕ) (h : j < k).
      subst (λ t. FailsDial (rounds t)) {x = suc j + n} {y = j + suc n} (omega arith)
        (fails (suc j) (omega arith)) in
    one_more_round b rounds (suc k) n cur i waits (some e) failed (ivl (rounds n).drawn)
    ∙ grows b rounds k (suc n) i (waits ++ i ∷ []) some_max small_max next later
        (subst (λ t. Dials (rounds t) none) {x = suc k + n} {y = k + suc n} (omega arith) done)
    ∙ ap (λ ws. some (connected, ws))
        (append_assoc waits (i ∷ []) (growing_waits b (suc k) (suc n)))

-- A socket that lost its connection comes back: if k attempts to dial fail and the next one succeeds,
-- the context running throughout, then reconnect ends connected after k + 1 waits, which are the base
-- interval, twice it, four times it and so on, none above the maximum. The base interval is not
-- negative and the maximum is positive, both int64.
pub reconnect_growing :
    (b : Backoff) (rounds : ℕ → Round) (k : ℕ)
    → b.reconnect_ivl < 2 ^ 63
    → 0 < b.reconnect_ivl_max
    → b.reconnect_ivl_max < 2 ^ 63
    → ((j : ℕ) → j < k → FailsDial (rounds j))
    → Dials (rounds k) none
    → reconnect b rounds (suc k) ≡ some (connected, growing_waits b (suc k) 0)
unfolding reconnect
reconnect_growing b rounds k small some_max small_max fails done =
    grows b rounds k 0 minus_one [] some_max small_max
      (λ drawn.
        capped_first b drawn small some_max small_max
        ∙ ap (λ t. some (min t b.reconnect_ivl_max, min t b.reconnect_ivl_max)) (omega arith))
      (λ j h. subst (λ t. FailsDial (rounds t)) {x = j} {y = j + 0} (omega arith) (fails j h))
      (subst (λ t. Dials (rounds t) none) {x = k} {y = k + 0} (omega arith) done)
