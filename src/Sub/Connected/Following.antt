-- ===== src/Sub/Connected/Following.antt =====
-- A subscription from the subscriber's calls to the publisher's set.
use quicmq.Base.{
  ℕ, ◌≡◌, refl, ap, ◌∙◌, sym, none, List, [], ◌∷◌, ◌++◌, length, All, append_assoc, append-nil,
}
use mathlib.Core.Path.{subst}
use quicmq.Base.Bytes.{Bytes}
use quicmq.Wire.Format.{wire_format}
use quicmq.Conn.{NetConn, has_topic, matches, subscribed}
use quicmq.Conn.Stream.{IsStream}
use quicmq.Conn.TopicSet.{SameTopics}
use quicmq.Conn.Topics.{cmd_msg, matches_ext}
use quicmq.Conn.Link.{IsLink, new_bytes, arrive}
use quicmq.Conn.Link.Ends.{AtEnd, arrive-AtEnd, new_bytes-AtEnd}
use quicmq.Conn.Link.Messages.{wires}
use quicmq.Pub.Listener.{PubReader, goes_on}
use quicmq.Sub.{SubSocket, add_conn, sorted_topics}
use quicmq.Sub.Sync.{Change, own_topics, commands, as_changes, announced_then, FitsChange}
use quicmq.Sub.Connected.Sides.{kept_topics, rounds_follow, set_options-AtEnd, announce-AtEnd}
use quicmq.Sub.Connected.{join_conn, set_options, listen_rounds}

commands_append :
    (xs ys : List Change) → wires (commands (xs ++ ys)) ≡ wires (commands xs) ++ wires (commands ys)
unfolding wires commands
commands_append [] ys = refl
commands_append ((sub, k) ∷ xs) ys =
    ap (λ bs. wire_format (cmd_msg sub k).frames ++ bs) (commands_append xs ys)
    ∙ sym (append_assoc (wire_format (cmd_msg sub k).frames) (wires (commands xs)) _)

module _ {S T : Type 0} {io : NetConn S} {peer : NetConn T} {a : IsStream io} {b : IsStream peer}
    (here : IsLink a) (there : IsLink b) (c d : ℕ) where
  -- A subscription from the first byte to the last: a SUB socket without a connection gets connection c,
  -- announces its topics on it, and then any calls of SetOption(SUBSCRIBE) and SetOption(UNSUBSCRIBE)
  -- are made. None of the calls returns an error; and once the bytes that all of this put on c have
  -- arrived on connection d of the publisher, its listener reads and applies them, one in each round,
  -- without stopping and without a change of its queue, after which it passes on exactly the messages
  -- that match the subscriber's own topics, which are what the calls made of those that it had. Both
  -- ends are open, over streams that work, with nothing pending at the publisher, which knows no topic
  -- of d yet; the sorting of the topics keeps the set; and every topic sent is short of 2^32 bytes with
  -- its command byte.
  pub subscription_follows :
      (sort : List Bytes → List Bytes) (cs : List Change) (sk : SubSocket S) (q : PubReader T)
      (p o w : Bytes)
      → sk.conns ≡ []
      → sk.writer.ws ≡ []
      → SameTopics (sorted_topics sort sk.subs) sk.subs
      → All FitsChange (as_changes (sorted_topics sort sk.subs) ++ cs)
      → AtEnd here c p o sk.store
      → AtEnd there d [] w q.store
      → (q.store.conns d).topics ≡ []
      → (sk1 : SubSocket S) × (q1 : PubReader T) × (set_options io cs (join_conn io sort c sk)
          ≡ (none, sk1))
        × (listen_rounds there d
              (length (as_changes (sorted_topics sort sk.subs) ++ cs))
              (record q {
                store =
                    arrive there d
                      (new_bytes here (sk.store.conns c).rw (sk1.store.conns c).rw)
                      q.store;
              })
            ≡ goes_on q1)
        × (q1.ch ≡ q.ch)
        × (sk1.subs ≡ own_topics cs sk.subs)
        × ((topic : Bytes) → subscribed q1.store d topic ≡ matches sk1.subs topic)
  unfolding join_conn add_conn subscribed
  subscription_follows sort cs sk q p o w alone quiet sorted fits v u fresh =
      let ts = sorted_topics sort sk.subs in
      let all = as_changes ts ++ cs in
      let joined = join_conn io sort c sk in
      let said = o ++ wires (commands (as_changes ts)) in
      let (st1, called, v1) =
        set_options-AtEnd here c cs p said joined (ap (λ xs. xs ++ c ∷ []) alone)
          (ap (λ xs. xs ++ c ∷ []) quiet) (announce-AtEnd here c ts p o sk.store v) in
      let v2 : AtEnd here c p (o ++ wires (commands all)) st1 =
        subst (λ bs. AtEnd here c p bs st1)
          (append_assoc o (wires (commands (as_changes ts))) (wires (commands cs))
            ∙ ap (λ bs. o ++ bs) (sym (commands_append (as_changes ts) cs)))
          v1 in
      let got = new_bytes-AtEnd here c p p o (wires (commands all)) sk.store st1 v v2 in
      let to = arrive there d (wires (commands all)) q.store in
      let u1 : AtEnd there d (wires (commands all) ++ []) w to =
        rw (append-nil (wires (commands all)))
          (arrive-AtEnd there d [] w (wires (commands all)) q.store u) in
      let empty : SameTopics (to.conns d).topics [] =
        λ k. ap (has_topic k) (kept_topics there d q.store _ ∙ fresh) in
      let (q1, heard, ch, agree, _) =
        rounds_follow there d all [] w [] (record q { store = to }) fits empty u1 in
      (
        record joined { subs = own_topics cs sk.subs; store = st1 },
        q1,
        called,
        ap
              (λ bs.
                listen_rounds there d (length all) (record q { store = arrive there d bs q.store }))
              got
            ∙ heard,
        ch,
        refl,
        λ topic.
            matches_ext (q1.store.conns d).topics (own_topics cs sk.subs) topic
              (λ k. agree k ∙ announced_then ts sk.subs cs sorted k),
      )
