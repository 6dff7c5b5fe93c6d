-- ===== src/Conn/Topics.antt =====
-- Topic sets: the laws of the map, and `subscribed` against its description.
use quicmq.Base.{
  ℕ, ◌≡◌, refl, ◌∙◌, sym, Bool, true, false, ◌↔◌, some, List, [], ◌∷◌, ◌++◌, arith, if◌then◌else◌,
  Bool-cases, inl, inr,
}
use quicmq.Base.Bytes.{Bytes, beq, has_prefix, beq_iff, beq_self, has_prefix-nil}
use quicmq.Msg.{Msg, new_msg}
use quicmq.Conn.{Store, has_topic, add_topic, delete_topic, matches, apply_cmd, subscribe, set_conn}

pub has_topic-snoc :
    (j k : Bytes) (ts : List Bytes)
    → has_topic j (ts ++ k ∷ []) ≡ (if beq k j then true else has_topic j ts)
unfolding has_topic
has_topic-snoc j k [] = refl
has_topic-snoc j k (t ∷ ts) = ground (arith, has_topic-snoc j k ts)

-- The two map operations, seen through membership.
pub has_topic-add :
    (j k : Bytes) (ts : List Bytes)
    → has_topic j (add_topic k ts) ≡ (if beq k j then true else has_topic j ts)
unfolding add_topic
has_topic-add j k ts = ground (arith, has_topic-snoc j k ts, beq_iff k j)

pub has_topic-delete :
    (j k : Bytes) (ts : List Bytes)
    → has_topic j (delete_topic k ts) ≡ (if beq k j then false else has_topic j ts)
unfolding has_topic delete_topic
has_topic-delete j k [] = ground arith
has_topic-delete j k (t ∷ ts) =
    ground (arith, has_topic-delete j k ts, beq_iff k j, beq_iff t k, beq_iff t j)

-- Some topic of the set is a prefix of the message's topic.
abbrev pub HasMatch : List Bytes → Bytes → Type 0
HasMatch ts topic = (k : Bytes) × (has_topic k ts ≡ true) × (has_prefix topic k ≡ true)

matches→HasMatch : (ts : List Bytes) (topic : Bytes) → matches ts topic ≡ true → HasMatch ts topic
unfolding matches has_topic
matches→HasMatch [] topic h = absurd (ground arith)
matches→HasMatch (k ∷ ks) topic h = elim (Bool-cases (has_prefix topic k)) [
  | inl p ↦ (k, rw (beq_self k), p)
  | inr p ↦
      let (j, mem, q) =
        matches→HasMatch ks topic (ground (arith, beq_iff k [], has_prefix-nil topic)) in
      (j, ground arith, q)
]

HasMatch→matches :
    (ts : List Bytes) (topic k : Bytes)
    → has_topic k ts ≡ true
    → has_prefix topic k ≡ true
    → matches ts topic ≡ true
unfolding matches has_topic
HasMatch→matches [] topic k m p = ground arith
HasMatch→matches (t ∷ ts) topic k m p = ground (arith, beq_iff t k, HasMatch→matches ts topic k)

-- The loop of `subscribed` answers yes exactly if a topic of the set is a prefix of the message's.
pub matches_iff : (ts : List Bytes) (topic : Bytes) → (matches ts topic ≡ true) ↔ HasMatch ts topic
matches_iff ts topic = (matches→HasMatch ts topic, λ (k, mem, p). HasMatch→matches ts topic k mem p)

-- Go ranges over a map in any order: the answer depends on the set alone.
pub matches_ext :
    (ts us : List Bytes) (topic : Bytes)
    → ((k : Bytes) → has_topic k ts ≡ has_topic k us)
    → matches ts topic ≡ matches us topic
matches_ext ts us topic same = elim (Bool-cases (matches ts topic)) [
  | inl e ↦
      let (k, mem, p) = (matches_iff ts topic).0 e in
      e ∙ sym ((matches_iff us topic).1 (k, sym (same k) ∙ mem, p))
  | inr e ↦ elim (Bool-cases (matches us topic)) [
    | inr u ↦ e ∙ sym u
    | inl u ↦
        let (k, mem, p) = (matches_iff us topic).0 u in
        absurd (ground (arith, e, (matches_iff ts topic).1 (k, same k ∙ mem, p)))
  ]
]

-- A subscription command: the byte and the topic in one frame.
abbrev pub cmd_msg : Bool → Bytes → Msg
cmd_msg subscribe k = new_msg ((if subscribe then 1 else 0) ∷ k)

-- The set after a command, as membership.
pub has_topic-apply :
    (sub : Bool) (k j : Bytes) (ts : List Bytes)
    → has_topic j (apply_cmd (if sub then 1 else 0) k ts)
      ≡ (if beq k j then sub else has_topic j ts)
unfolding apply_cmd
has_topic-apply true k j ts = has_topic-add j k ts
has_topic-apply false k j ts = has_topic-delete j k ts

-- `subscribe` on a well-formed command cannot panic, keeps everything but the connection's topics,
-- and leaves a set that differs from the old one in the command's topic alone: it holds it after
-- a subscription and not after an unsubscription.
pub subscribe-cmd_msg :
    {S : Type 0} (st : Store S) (c : ℕ) (sub : Bool) (k : Bytes)
    → (ts : List Bytes) × (subscribe st c (cmd_msg sub k)
        ≡ some (set_conn st c (record (st.conns c) { topics = ts })))
      × ((j : Bytes) → has_topic j ts ≡ (if beq k j then sub else has_topic j (st.conns c).topics))
unfolding subscribe
subscribe-cmd_msg st c sub k =
    let ts = (st.conns c).topics in
    (apply_cmd (if sub then 1 else 0) k ts, refl, λ j. has_topic-apply sub k j ts)
