-- ===== src/Pub/Listener/Commands.antt =====
-- The publisher's reader: subscription commands from subscribers, and what else they send.
use quicmq.Base.{
  ℕ, ◌+◌, ◌≤◌, ◌<◌, ◌≡◌, refl, ap, ◌∙◌, Bool, true, false, Option, none, some, List, [], ◌∷◌, ◌++◌,
  arith, length, length-append, All, All-snoc, ltb, if◌then◌else◌, Bool-cases, inl, inr,
}
use quicmq.Base.Bytes.{Bytes, beq}
use quicmq.Result.{Error}
use quicmq.Msg.{Msg}
use quicmq.Conn.{NetConn, Store, subscribe, subscribe_topics, apply_cmd, set_conn, has_topic}
use quicmq.Conn.Topics.{cmd_msg, subscribe-cmd_msg}
use quicmq.Pub.Listener.{
  PubReader, Round, goes_on, ends, waits, panics, is_topic, is_topic_frames, qrsize, listen_step,
  listen_open, listen_ok, leave, after_subscribe, listen_all, after_round,
}

module _ {S : Type 0} where
  -- `subscribe` does not index past the end of a message that `isTopic` passed.
  topic_subscribes :
      (st : Store S) (c : ℕ) (m : Msg)
      → is_topic m ≡ true
      → (ts : List Bytes) × (subscribe st c m
          ≡ some (set_conn st c (record (st.conns c) { topics = ts })))
  unfolding is_topic subscribe subscribe_topics
  topic_subscribes st c m h = go m.frames refl h
    where
      go :
          (fs : List Bytes)
          → m.frames ≡ fs
          → is_topic_frames fs ≡ true
          → (ts : List Bytes) × (subscribe st c m
              ≡ some (set_conn st c (record (st.conns c) { topics = ts })))
      go [] e t = absurd (ground arith)
      go ([] ∷ []) e t = absurd (ground arith)
      go ((b ∷ k) ∷ []) e t = (apply_cmd b k (st.conns c).topics, rw (e, subscribe) refl)
      go (f ∷ g ∷ fs) e t = absurd (ground arith)

  -- The queue of application messages holds no subscription command, and ten messages at most.
  pub record IsQueue (q : PubReader S) : Type 0 where
    pub no_command : All (λ m. is_topic m ≡ false) q.ch
    pub bounded : length q.ch ≤ qrsize

module _ {S : Type 0} (io : NetConn S) where
  -- What a round leaves, where it leaves a reader.
  abbrev pub Leaves : (PubReader S → Type 0) → Round S → Type 0
  Leaves P (goes_on q) = P q
  Leaves P (ends q) = P q
  Leaves P waits = Unit {0}
  Leaves P panics = ⊥

  ok-Leaves : (q : PubReader S) (c : ℕ) (m : Msg) → IsQueue q → Leaves IsQueue (listen_ok io q c m)
  unfolding listen_ok after_subscribe
  ok-Leaves q c m v = elim (Bool-cases (is_topic m)) [
    | inl t ↦
        let (ts, e) = topic_subscribes q.store c m t in
        rw (t, e) (record { no_command = v.no_command; bounded = v.bounded })
    | inr t ↦ elim (Bool-cases (ltb (length q.ch) qrsize)) [
      | inl room ↦
          rw (t, room)
            (record {
              no_command = All-snoc (λ m'. is_topic m' ≡ false) q.ch m v.no_command t;
              bounded = ground (arith, length-append q.ch (m ∷ []));
            })
      | inr full ↦ rw (t, full) tt
    ]
  ]

  open-Leaves :
      (q : PubReader S) (c : ℕ) (m : Msg) (e : Option Error)
      → IsQueue q
      → Leaves IsQueue (listen_open io q c m e)
  unfolding listen_open leave
  open-Leaves q c m (some e) v = record { no_command = v.no_command; bounded = v.bounded }
  open-Leaves q c m none v = ok-Leaves q c m v

  -- A round of `listen` never panics, whatever message arrives; it keeps the queue within its ten
  -- places, and it never puts a subscription command there: Recv of an XPUB socket, which reads that
  -- queue, sees none.
  pub listen_step-IsQueue :
      (done : Bool) (q : PubReader S) (c : ℕ) (m : Msg)
      → IsQueue q
      → Leaves IsQueue (listen_step io done q c m)
  unfolding listen_step leave
  listen_step-IsQueue true q c m v = record { no_command = v.no_command; bounded = v.bounded }
  listen_step-IsQueue false q c m v = open-Leaves q c m m.err v

  -- An application message: read without an error, and no subscription command.
  abbrev pub IsApplication : Msg → Type 0
  IsApplication m = (m.err ≡ none) × (is_topic m ≡ false)

  application_step :
      (q : PubReader S) (c : ℕ) (m : Msg)
      → IsApplication m
      → listen_step io false q c m
        ≡ (if ltb (length q.ch) qrsize then goes_on (record q { ch = q.ch ++ m ∷ [] }) else waits)
  unfolding listen_step listen_ok
  application_step q c m (fine, plain) =
      ap (listen_open io q c m) fine
      ∙ ap
          (λ t.
            if t
            then after_subscribe io q (subscribe q.store c m)
            else if ltb (length q.ch) qrsize
            then goes_on (record q { ch = q.ch ++ m ∷ [] })
            else waits)
          plain

  -- The listener of a PUB socket stops for good: nothing takes messages off its queue, since Recv
  -- of a PUB socket does not read it, so once a subscriber has sent more application messages than
  -- the queue has room for, its listener waits and applies no subscription command that follows.
  pub listen_all_stuck :
      (q : PubReader S) (c : ℕ) (ms later : List Msg)
      → All IsApplication ms
      → length q.ch ≤ qrsize
      → qrsize < length q.ch + length ms
      → listen_all io q c (ms ++ later) ≡ waits
  unfolding listen_all
  listen_all_stuck q c [] later all small many = absurd (omega arith)
  listen_all_stuck q c (m ∷ ms) later (plain, all) small many =
      elim (Bool-cases (ltb (length q.ch) qrsize)) [
        | inr full ↦
            ap (λ r. after_round io r (λ q'. listen_all io q' c (ms ++ later)))
              (application_step q c m plain
                ∙ ap (λ t. if t then goes_on (record q { ch = q.ch ++ m ∷ [] }) else waits) full)
        | inl room ↦
            let q' = record q { ch = q.ch ++ m ∷ [] } in
            ap (λ r. after_round io r (λ q1. listen_all io q1 c (ms ++ later)))
              (application_step q c m plain ∙ ap (λ t. if t then goes_on q' else waits) room)
            ∙ listen_all_stuck q' c ms later all (ground (arith, length-append q.ch (m ∷ [])))
                (omega (arith, length-append q.ch (m ∷ [])))
      ]

  -- A subscription command read without an error is applied to the connection and goes no further.
  pub command_step :
      (q : PubReader S) (c : ℕ) (sub : Bool) (k : Bytes)
      → (ts : List Bytes) × (listen_step io false q c (cmd_msg sub k)
          ≡ goes_on
              (record q { store = set_conn q.store c (record (q.store.conns c) { topics = ts }) }))
        × ((j : Bytes)
            → has_topic j ts ≡ (if beq k j then sub else has_topic j (q.store.conns c).topics))
  unfolding listen_step listen_ok is_topic
  command_step q c true k =
      let (ts, e, laws) = subscribe-cmd_msg q.store c true k in
      (ts, ap (after_subscribe io q) e, laws)
  command_step q c false k =
      let (ts, e, laws) = subscribe-cmd_msg q.store c false k in
      (ts, ap (after_subscribe io q) e, laws)
