-- ===== src/Pub/Delivery.antt =====
-- The publisher's writer: who is sent a message, and the high-water mark.
use quicmq.Base.{
  ℕ, ◌≤◌, ◌<◌, ◌≡◌, refl, ap, ◌∙◌, Bool, true, false, none, some, List, [], ◌∷◌, ◌++◌, arith,
  length, ltb, if◌then◌else◌, Bool-cases, inl, inr,
}
use quicmq.Result.{Error}
use quicmq.Msg.{Msg}
use quicmq.Conn.{Store, subscribed, matches}
use quicmq.Conn.Topics.{HasMatch, matches_iff}
use quicmq.Pub.{
  Subscriber, PubWriter, offer, after_offer, write_loop, write, topic_of, hands_over, keep_first,
}

clash : {b : Bool} → b ≡ true → b ≡ false → ⊥
clash t f = ground arith

module _ {S : Type 0} (st : Store S) (msg : Msg) where
  -- What the message does to one subscriber. If a topic of the subscriber is a prefix of the
  -- message's first frame, then it is queued at the end of a channel that has room, is handed to the
  -- waiting goroutine of a channel without a buffer, and is dropped otherwise.
  pub record Receives (s t : Subscriber) : Type 0 where
    pub queued :
        HasMatch (st.conns s.conn).topics (topic_of msg.frames)
        → length s.buf < s.cap
        → t ≡ record s { buf = s.buf ++ msg ∷ [] }
    pub filtered : ¬ HasMatch (st.conns s.conn).topics (topic_of msg.frames) → t ≡ s
    pub handed :
        HasMatch (st.conns s.conn).topics (topic_of msg.frames)
        → s.cap ≤ length s.buf
        → hands_over s.cap s.sending ≡ true
        → t ≡ record s { sending = some msg }
    pub dropped : s.cap ≤ length s.buf → hands_over s.cap s.sending ≡ false → t ≡ s

  -- The same subscribers, each after the message.
  abbrev pub Delivered : List Subscriber → List Subscriber → Type 0
  Delivered [] [] = Unit {0}
  Delivered [] (t ∷ ts) = ⊥
  Delivered (s ∷ ss) [] = ⊥
  Delivered (s ∷ ss) (t ∷ ts) = Receives s t × Delivered ss ts

  matched :
      (s : Subscriber) (err : Error) (ss rest : List Subscriber) (pick : Bool)
      → subscribed st s.conn (topic_of msg.frames) ≡ true
      → Delivered ss rest
      → (t : Subscriber) × (after_offer err s ss (λ _. (none, rest)) (offer false pick msg s)
          ≡ (none, t ∷ rest))
        × Receives s t
  unfolding subscribed offer after_offer
  matched s err ss rest pick m h =
      let has : HasMatch (st.conns s.conn).topics (topic_of msg.frames) = (matches_iff _ _).0 m in
      elim (Bool-cases (ltb (length s.buf) s.cap)) [
        | inl room ↦ (
          record s { buf = s.buf ++ msg ∷ [] },
          rw (room, offer) refl,
          record {
            queued = λ _ _. refl;
            filtered = λ no_match. absurd (no_match has);
            handed = λ _ full _. absurd (ground arith);
            dropped = λ full _. absurd (ground arith);
          },
        )
        | inr full ↦ elim (Bool-cases (hands_over s.cap s.sending)) [
          | inl waiting ↦ (
            record s { sending = some msg },
            rw (full, waiting, offer) refl,
            record {
              queued = λ _ room. absurd (ground arith);
              filtered = λ no_match. absurd (no_match has);
              handed = λ _ _ _. refl;
              dropped = λ _ busy. absurd (clash waiting busy);
            },
          )
          | inr busy ↦ (
            s,
            rw (full, busy, offer) refl,
            record {
              queued = λ _ room. absurd (ground arith);
              filtered = λ _. refl;
              handed = λ _ _ waiting. absurd (clash waiting busy);
              dropped = λ _ _. refl;
            },
          )
        ]
      ]

  write_loop-Delivered :
      (err : Error) (picks : ℕ → Bool) (ss : List Subscriber)
      → (ts : List Subscriber) × (write_loop false err picks st msg ss ≡ (none, ts))
        × Delivered ss ts
  unfolding write_loop subscribed
  write_loop-Delivered err picks [] = ([], refl, tt)
  write_loop-Delivered err picks (s ∷ ss) =
      let (ts, e, h) = write_loop-Delivered err picks ss in
      elim (Bool-cases (matches (st.conns s.conn).topics (topic_of msg.frames))) [
        | inl m ↦
            let (t, e1, r) = matched s err ss ts (picks s.conn) m h in
            (
              t ∷ ts,
              ap
                    (λ b.
                      if b
                      then after_offer err s ss (λ _. write_loop false err picks st msg ss)
                          (offer false (picks s.conn) msg s)
                      else keep_first s (write_loop false err picks st msg ss))
                    m
                  ∙ ap (λ rest. after_offer err s ss (λ _. rest) (offer false (picks s.conn) msg s))
                      e
                  ∙ e1,
              (r, h),
            )
        | inr m ↦ (
          s ∷ ts,
          ap
                (λ b.
                  if b
                  then after_offer err s ss (λ _. write_loop false err picks st msg ss)
                      (offer false (picks s.conn) msg s)
                  else keep_first s (write_loop false err picks st msg ss))
                m
              ∙ ap (keep_first s) e,
          (
            record {
              queued = λ has _. absurd (clash ((matches_iff _ _).1 has) m);
              filtered = λ _. refl;
              handed = λ has _ _. absurd (clash ((matches_iff _ _).1 has) m);
              dropped = λ _ _. refl;
            },
            h,
          ),
        )
      ]

  -- `write` with a context that is not done: it returns no error, keeps every subscriber in its place,
  -- and each is left as its topics, the room in its channel and its goroutine say: the message is queued
  -- behind what the channel holds or handed over to a subscriber with a topic that is a prefix of the
  -- message's first frame, and nothing changes for one without such a topic or without room.
  pub write-Delivered :
      (err : Error) (picks : ℕ → Bool) (w : PubWriter) (ss : List Subscriber)
      → w.subscribers ≡ some ss
      → (ts : List Subscriber) × (write false err picks st msg w
          ≡ (none, record w { subscribers = some ts }))
        × Delivered ss ts
  unfolding write
  write-Delivered err picks w ss e =
      let (ts, l, h) = write_loop-Delivered err picks ss in (ts, rw (e, write, l) refl, h)
