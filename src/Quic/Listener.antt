-- ===== src/Quic/Listener.antt =====
-- transport_quic.go: the listener, which hands the streams of its connections to Accept.
use quicmq.Base.{
  ℕ, ◌+◌, ◌≤◌, ◌≡◌, refl, ap, ◌∙◌, sym, Bool, true, not, ◌&&◌, Option, none, some, List, [], ◌∷◌,
  ◌++◌, ◌==◌, arith, length, length-append, ltb, if◌then◌else◌, Bool-cases, inl, inr,
}
use mathlib.Core.Path.{subst}
use quicmq.Base.Conns.{count_conn, remove_conn, count-remove}

-- `quicListener`, with the streams that its goroutines have accepted from their connections and wait
-- to hand over (`offering`), those that Accept returned, and those that were closed.
pub record Listener : Type 0 where
  pub accept_ch : List ℕ
  pub closed : Bool
  pub offering : List ℕ
  pub accepted : List ℕ
  pub closed_streams : List ℕ

abbrev pub accept_size : ℕ
accept_size = 16

-- What can happen: AcceptStream returns a stream to a `handleConn` that has found the listener open;
-- its second `select` puts the stream that it offers into `acceptCh`, or takes the case of `closeCh`
-- and closes it; Accept takes a stream, or the case of `closeCh`; Close.
pub data Event : Type 0 where
  arrives hands_over gives_up : ℕ → Event
  accepts refuses closes : Event

-- Stream s is on offer: its goroutine waits at the second `select`.
abbrev offers : ℕ → Listener → Bool
offers s l = not (count_conn s l.offering == 0)

abbrev taken : Listener → List ℕ → Option Listener
taken l [] = none
taken l (s ∷ ss) = some (record l { accept_ch = ss; accepted = l.accepted ++ s ∷ [] })

-- `none`: the event cannot happen in this state, or has to wait.
unfoldable pub step : Event → Listener → Option Listener
step (arrives s) l = some (record l { offering = l.offering ++ s ∷ [] })
step (hands_over s) l =
    if offers s l && ltb (length l.accept_ch) accept_size
    then some (record l { offering = remove_conn s l.offering; accept_ch = l.accept_ch ++ s ∷ [] })
    else none
step (gives_up s) l =
    if offers s l && l.closed
    then some (record l {
      offering = remove_conn s l.offering;
      closed_streams = l.closed_streams ++ s ∷ [];
    })
    else none
step accepts l = taken l l.accept_ch
step refuses l = if l.closed then some l else none
step closes l = some (record l { closed = true })

unfoldable pub run : List Event → Listener → Option Listener
unfolding step
run [] l = some l
run (e ∷ es) l = elim (step e l) [ none ↦ none | some l' ↦ run es l' ]

-- How often a stream has arrived.
unfoldable pub arrivals : ℕ → List Event → ℕ
arrivals s [] = 0
arrivals s (arrives t ∷ es) = if t == s then arrivals s es + 1 else arrivals s es
arrivals s (_ ∷ es) = arrivals s es

-- Where a stream is, all places counted.
abbrev pub places : ℕ → Listener → ℕ
places s l =
    count_conn s l.offering
    + count_conn s l.accept_ch
    + count_conn s l.accepted
    + count_conn s l.closed_streams

count-snoc :
    (d x : ℕ) (xs : List ℕ)
    → count_conn d (xs ++ x ∷ []) ≡ (if x == d then count_conn d xs + 1 else count_conn d xs)
unfolding count_conn
count-snoc d x [] = refl
count-snoc d x (y ∷ ys) = ground (arith, count-snoc d x ys)

arrivals-cons :
    (s : ℕ) (e : Event) (es : List Event)
    → arrivals s (e ∷ es) ≡ arrivals s (e ∷ []) + arrivals s es
unfolding arrivals
arrivals-cons s (arrives t) es = ground arith
arrivals-cons s (hands_over t) es = omega arith
arrivals-cons s (gives_up t) es = omega arith
arrivals-cons s accepts es = omega arith
arrivals-cons s refuses es = omega arith
arrivals-cons s closes es = omega arith

-- An event keeps every stream in one place, and an arrival adds one.
abbrev Steps : Event → Listener → Option Listener → Type 0
Steps e l none = Unit {0}
Steps e l (some l') =
    ((s : ℕ) → places s l' ≡ places s l + arrivals s (e ∷ []))
    × (length l.accept_ch ≤ accept_size → length l'.accept_ch ≤ accept_size)

handed-Steps : (s : ℕ) (l : Listener) → Steps (hands_over s) l (step (hands_over s) l)
unfolding step arrivals
handed-Steps s l = elim (Bool-cases (offers s l && ltb (length l.accept_ch) accept_size)) [
  | inr no_room ↦ rw (no_room, step) tt
  | inl room ↦
      rw (room, step)
        (
          λ d. ground (arith, count-remove s d l.offering, count-snoc d s l.accept_ch),
          λ small. ground (arith, length-append l.accept_ch (s ∷ [])),
        )
]

given_up-Steps : (s : ℕ) (l : Listener) → Steps (gives_up s) l (step (gives_up s) l)
unfolding step arrivals
given_up-Steps s l = elim (Bool-cases (offers s l && l.closed)) [
  | inr no_stop ↦ rw (no_stop, step) tt
  | inl stop ↦
      rw (stop, step)
        (
          λ d. ground (arith, count-remove s d l.offering, count-snoc d s l.closed_streams),
          λ small. small,
        )
]

taken-Steps : (l : Listener) (ss : List ℕ) → l.accept_ch ≡ ss → Steps accepts l (taken l ss)
unfolding arrivals count_conn
taken-Steps l [] e = tt
taken-Steps l (s ∷ ss) e = (
  λ d. ground (arith, count-snoc d s l.accepted, ap (count_conn d) e),
  λ small. omega (arith, ap length e),
)

step-Steps : (e : Event) (l : Listener) → Steps e l (step e l)
unfolding step arrivals
step-Steps (arrives s) l = (λ d. ground (arith, count-snoc d s l.offering), λ small. small)
step-Steps (hands_over s) l = handed-Steps s l
step-Steps (gives_up s) l = given_up-Steps s l
step-Steps accepts l = taken-Steps l l.accept_ch refl
step-Steps refuses l = elim (Bool-cases l.closed) [
  | inl shut ↦ rw (shut, step) (λ d. omega arith, λ small. small)
  | inr opened ↦ rw (opened, step) tt
]
step-Steps closes l = (λ d. omega arith, λ small. small)

-- No stream is lost or doubled: in every run of the listener, with any number of connections and any
-- choices of the selects, each stream that arrived is once at one place, on offer, in the channel,
-- returned by Accept or closed, as often as it arrived, and the channel keeps within its size.
pub run-Conserves :
    (es : List Event) (l l' : Listener)
    → length l.accept_ch ≤ accept_size
    → run es l ≡ some l'
    → ((s : ℕ) → places s l' ≡ places s l + arrivals s es) × (length l'.accept_ch ≤ accept_size)
unfolding run arrivals
run-Conserves [] l l' small h =
    let same : l ≡ l' = ap (λ (o : Option Listener). elim o [ none ↦ l | some x ↦ x ]) h in
    (
      λ s. ap (places s) (sym same) ∙ omega arith,
      subst (λ (x : Listener). length x.accept_ch ≤ accept_size) same small,
    )
run-Conserves (e ∷ es) l l' small h =
    more (step e l) (step-Steps e l) h (λ l1 b k. run-Conserves es l1 l' b k)
  where
    more :
        (r : Option Listener)
        → Steps e l r
        → elim r [ none ↦ none | some l1 ↦ run es l1 ] ≡ some l'
        → ((l1 : Listener)
            → length l1.accept_ch ≤ accept_size
            → run es l1 ≡ some l'
            → ((s : ℕ) → places s l' ≡ places s l1 + arrivals s es)
              × (length l'.accept_ch ≤ accept_size))
        → ((s : ℕ) → places s l' ≡ places s l + arrivals s (e ∷ es))
          × (length l'.accept_ch ≤ accept_size)
    more none v k rest = absurd (ground arith)
    more (some l1) (keeps, bound) k rest =
        let (all, within) = rest l1 (bound small) k in
        (λ s. omega (arith, keeps s, all s, arrivals-cons s e es), within)
