-- ===== src/Pub/Capacity.antt =====
-- What `write` and the pool operations do to the sizes of the subscribers' channels.
use quicmq.Base.{
  ℕ, ◌≤◌, ◌≡◌, ◌≢◌, ap, Bool, true, false, Option, some, List, [], ◌∷◌, ◌++◌, ◌==◌, arith, length,
  length-append, All, ltb, if◌then◌else◌, Bool-cases, inl, inr,
}
use quicmq.Result.{Error}
use quicmq.Msg.{Msg}
use quicmq.Conn.{Store, subscribed}
use quicmq.Pub.{
  Subscriber, Offer, cancels, drops, sends, without, channels_of, hands_over, choose, offer,
  after_offer, topic_of, write_loop,
}

-- A channel of a connection and a size of which Q holds, with as many messages as its size, at most.
abbrev pub Holds : (ℕ → ℕ → Type 0) → Subscriber → Type 0
Holds Q s = Q s.conn s.cap × (length s.buf ≤ s.cap)

module _ (Q R : ℕ → ℕ → Type 0) where
  pub All-Holds :
      (ss : List Subscriber) → ((d n : ℕ) → Q d n → R d n) → All (Holds Q) ss → All (Holds R) ss
  All-Holds [] more h = tt
  All-Holds (s ∷ ss) more h = ((more s.conn s.cap h.0.0, h.0.1), All-Holds ss more h.1)

  pub without-Holds :
      (c : ℕ) (ss : List Subscriber)
      → ((d n : ℕ) → d ≢ c → Q d n → R d n)
      → All (Holds Q) ss
      → All (Holds R) (without c ss)
  unfolding without
  without-Holds c [] more h = tt
  without-Holds c (s ∷ ss) more h = elim (Bool-cases (s.conn == c)) [
    | inl same ↦ rw (same, without) (without-Holds c ss more h.1)
    | inr other ↦
        let apart : s.conn ≢ c = λ e. ground arith in
        rw (other, without) ((more s.conn s.cap apart h.0.0, h.0.1), without-Holds c ss more h.1)
  ]

  pub channels_of-Holds :
      (c : ℕ) (ss : List Subscriber)
      → ((d n : ℕ) → Q d n → R d n)
      → All (Holds Q) ss
      → All (Holds R) (channels_of c ss)
  unfolding channels_of
  channels_of-Holds c [] more h = tt
  channels_of-Holds c (s ∷ ss) more h = elim (Bool-cases (s.conn == c)) [
    | inl same ↦
        rw (same, channels_of) ((more s.conn s.cap h.0.0, h.0.1), channels_of-Holds c ss more h.1)
    | inr other ↦ rw (other, channels_of) (channels_of-Holds c ss more h.1)
  ]

-- What the loop of `write` does to one subscriber keeps its channel, within its size.
module _ (Q : ℕ → ℕ → Type 0) where
  abbrev OfferHolds : Offer → Type 0
  OfferHolds cancels = Unit {0}
  OfferHolds drops = Unit {0}
  OfferHolds (sends s) = Holds Q s

  choose-Holds : (done picks : Bool) (s : Subscriber) → Holds Q s → OfferHolds (choose done picks s)
  choose-Holds true true s h = h
  choose-Holds true false s h = tt
  choose-Holds false picks s h = h

  refused-Holds : (done : Bool) → OfferHolds (if done then cancels else drops)
  refused-Holds true = tt
  refused-Holds false = tt

  offer-Holds :
      (done picks : Bool) (msg : Msg) (s : Subscriber)
      → Holds Q s
      → OfferHolds (offer done picks msg s)
  unfolding offer
  offer-Holds done picks msg s h = elim (Bool-cases (ltb (length s.buf) s.cap)) [
    | inl room ↦
        rw (room, offer)
          (choose-Holds done picks (record s { buf = s.buf ++ msg ∷ [] })
            (h.0, ground (arith, length-append s.buf (msg ∷ []))))
    | inr full ↦ elim (Bool-cases (hands_over s.cap s.sending)) [
      | inl waiting ↦
          rw (full, waiting, offer) (choose-Holds done picks (record s { sending = some msg }) h)
      | inr busy ↦ rw (full, busy, offer) (refused-Holds done)
    ]
  ]

  after_offer-Holds :
      (err : Error) (s : Subscriber) (ss : List Subscriber) (next : Option Error × List Subscriber)
      (o : Offer)
      → Holds Q s
      → All (Holds Q) ss
      → All (Holds Q) next.1
      → OfferHolds o
      → All (Holds Q) (after_offer err s ss (λ _. next) o).1
  unfolding after_offer
  after_offer-Holds err s ss next cancels h k r p = (h, k)
  after_offer-Holds err s ss next drops h k r p = (h, r)
  after_offer-Holds err s ss next (sends s') h k r p = (p, r)

  module _ {S : Type 0} where
    pub write_loop-Holds :
        (done : Bool) (err : Error) (picks : ℕ → Bool) (st : Store S) (msg : Msg)
        (ss : List Subscriber)
        → All (Holds Q) ss
        → All (Holds Q) (write_loop done err picks st msg ss).1
    unfolding write_loop
    write_loop-Holds done err picks st msg [] h = tt
    write_loop-Holds done err picks st msg (s ∷ ss) h =
        let rest = write_loop-Holds done err picks st msg ss h.1 in
        elim (Bool-cases (subscribed st s.conn (topic_of msg.frames))) [
          | inl wants ↦
              rw (wants, write_loop)
                (after_offer-Holds err s ss (write_loop done err picks st msg ss)
                  (offer done (picks s.conn) msg s) h.0 h.1 rest
                  (offer-Holds done (picks s.conn) msg s h.0))
          | inr skips ↦ rw (skips, write_loop) (h.0, rest)
        ]

pub ap_le : {A : Type 0} {xs ys : List A} {n : ℕ} → xs ≡ ys → length ys ≤ n → length xs ≤ n
ap_le e h = omega (arith, ap length e)
