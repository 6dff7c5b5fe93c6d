-- ===== src/Conn/TopicSet.antt =====
-- conn.go: the topics of a connection as a set, without the order in which a map holds them.
use quicmq.Base.{
  ℕ, ◌≡◌, refl, ap, ◌∙◌, sym, Bool, Option, none, some, List, [], ◌∷◌, if◌then◌else◌, Bool-cases,
  inl, inr, ◌>>=◌,
}
use mathlib.Core.Bool.{Bool-set}
use mathlib.Core.Quot
use mathlib.Core.Quot.{Quot}
use quicmq.Base.Bytes.{Bytes, beq}
use quicmq.Conn.{Store, Conn, has_topic, matches, set_conn, subscribe, subscribed}
use quicmq.Conn.Stream.{update_self}
use quicmq.Conn.Topics.{cmd_msg, matches_ext, subscribe-cmd_msg}

-- Two listings of one set: they have the same members.
abbrev pub SameTopics : List Bytes → List Bytes → Type 0
SameTopics ts us = (k : Bytes) → has_topic k ts ≡ has_topic k us

abbrev pub TopicSet : Type 0
TopicSet = Quot SameTopics

abbrev pub topic_set : List Bytes → TopicSet
topic_set ts = Quot.mk ts

-- Whether a connection with these topics is sent a message: it does not depend on the listing.
unfoldable pub delivers : Bytes → TopicSet → Bool
delivers topic = Quot.lift Bool-set (λ ts. matches ts topic) (λ ts us h. matches_ext ts us topic h)

-- A command: to subscribe or to unsubscribe, with the topic.
abbrev pub Command : Type 0
Command = Bool × Bytes

-- What the last command for a topic asks for.
abbrev pub or_says : Bytes → Command → Option Bool → Option Bool
or_says j (sub, k) (some later) = some later
or_says j (sub, k) none = if beq k j then some sub else none

unfoldable pub last_for : Bytes → List Command → Option Bool
last_for j [] = none
last_for j (c ∷ cs) = or_says j c (last_for j cs)

abbrev or_else : Option Bool → Bool → Bool
or_else (some b) _ = b
or_else none b = b

-- The membership that results from commands.
after_one :
    (j k : Bytes) (sub : Bool) (later : Option Bool) (before : Bool)
    → or_else later (if beq k j then sub else before) ≡ or_else (or_says j (sub, k) later) before
after_one j k sub (some b) before = refl
after_one j k sub none before = elim (Bool-cases (beq k j)) [
  | inl e ↦ rw e refl
  | inr e ↦ rw e refl
]

module _ {S : Type 0} (c : ℕ) where
  -- `subscribe` of one command after another on connection c.
  unfoldable pub subscribe_all : List Command → Store S → Option (Store S)
  subscribe_all [] st = some st
  subscribe_all ((sub, k) ∷ cs) st = subscribe st c (cmd_msg sub k) >>= subscribe_all cs

  Commanded : List Command → Store S → Store S → Type 0
  Commanded cs st st1 =
      (j : Bytes)
      → has_topic j (st1.conns c).topics ≡ or_else (last_for j cs) (has_topic j (st.conns c).topics)

  subscribe_all-Commanded :
      (cs : List Command) (st : Store S)
      → (st1 : Store S) × (subscribe_all cs st ≡ some st1) × Commanded cs st st1
  unfolding subscribe_all last_for Commanded
  subscribe_all-Commanded [] st = (st, refl, λ j. refl)
  subscribe_all-Commanded ((sub, k) ∷ cs) st =
      let (ts, done, member) = subscribe-cmd_msg st c sub k in
      let (st1, rest, all) =
        subscribe_all-Commanded cs (set_conn st c (record (st.conns c) { topics = ts })) in
      (
        st1,
        rw done rest,
        λ j.
            all j
            ∙ ap (λ (x : Conn S). or_else (last_for j cs) (has_topic j x.topics))
                (update_self st.conns c _)
            ∙ ap (or_else (last_for j cs)) (member j)
            ∙ after_one j k sub (last_for j cs) (has_topic j (st.conns c).topics),
      )

  -- Of the commands that a connection gets only the last for each topic counts: two sequences of
  -- commands with the same last one for every topic are both applied without a panic, and leave one
  -- topic set, so that the same messages are delivered, in whatever order the map lists its topics.
  pub last_commands_count :
      (cs ds : List Command) (st : Store S)
      → ((j : Bytes) → last_for j cs ≡ last_for j ds)
      → (st1 : Store S) × (st2 : Store S) × (subscribe_all cs st ≡ some st1)
        × (subscribe_all ds st ≡ some st2)
        × (topic_set (st1.conns c).topics ≡ topic_set (st2.conns c).topics)
        × ((topic : Bytes) → subscribed st1 c topic ≡ subscribed st2 c topic)
  unfolding Commanded subscribed delivers
  last_commands_count cs ds st same =
      let (st1, done1, all1) = subscribe_all-Commanded cs st in
      let (st2, done2, all2) = subscribe_all-Commanded ds st in
      let one : topic_set (st1.conns c).topics ≡ topic_set (st2.conns c).topics = Quot.sound λ j.
        all1 j ∙ ap (λ l. or_else l (has_topic j (st.conns c).topics)) (same j) ∙ sym (all2 j) in
      (st1, st2, done1, done2, one, λ topic. ap (delivers topic) one)
