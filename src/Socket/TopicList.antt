-- ===== src/Socket/TopicList.antt =====
-- `topics` of the base socket, which PUB and XPUB pass on.
use quicmq.Base.{
  ℕ, ◌≡◌, ap, ◌∙◌, sym, Bool, true, false, List, [], ◌∷◌, ◌++◌, arith, if◌then◌else◌, Bool-cases,
  inl, inr,
}
use quicmq.Base.Bytes.{Bytes, beq, beq_iff}
use quicmq.Conn.{Store, has_topic}
use quicmq.Conn.Topics.{has_topic-snoc}
use quicmq.Socket.{topics_of, topics_loop}

same_topic :
    (t k : Bytes) (found : List Bytes)
    → has_topic t found ≡ true
    → beq t k ≡ true
    → has_topic k found ≡ true
same_topic t k found known e = sym (ap (λ x. has_topic x found) ((beq_iff t k).0 e)) ∙ known

has_topic-topics_of :
    (k : Bytes) (ts found : List Bytes)
    → has_topic k (topics_of ts found) ≡ (if has_topic k found then true else has_topic k ts)
unfolding topics_of has_topic
has_topic-topics_of k [] found = ground arith
has_topic-topics_of k (t ∷ ts) found = elim (Bool-cases (has_topic t found)) [
  | inl known ↦
      rw (known, topics_of)
        (ground (arith, has_topic-topics_of k ts found, same_topic t k found known))
  | inr unknown ↦
      rw (unknown, topics_of)
        (ground (arith, has_topic-topics_of k ts (found ++ t ∷ []), has_topic-snoc k t found))
]

module _ {S : Type 0} where
  -- Some connection of the list has the topic.
  unfoldable pub some_conn_has : Store S → Bytes → List ℕ → Bool
  some_conn_has st k [] = false
  some_conn_has st k (c ∷ cs) =
      if has_topic k (st.conns c).topics then true else some_conn_has st k cs

  topics_loop_found :
      (st : Store S) (k : Bytes) (cs : List ℕ) (found : List Bytes)
      → has_topic k (topics_loop st cs found)
        ≡ (if has_topic k found then true else some_conn_has st k cs)
  unfolding topics_loop some_conn_has
  topics_loop_found st k [] found = ground arith
  topics_loop_found st k (c ∷ cs) found = ground (
    arith,
    topics_loop_found st k cs (topics_of (st.conns c).topics found),
    has_topic-topics_of k (st.conns c).topics found,
  )

  -- The list of `topics` has exactly the topics that some connection has.
  pub topics_lem :
      (st : Store S) (cs : List ℕ) (k : Bytes)
      → has_topic k (topics_loop st cs []) ≡ some_conn_has st k cs
  unfolding has_topic
  topics_lem st cs k = topics_loop_found st k cs []
