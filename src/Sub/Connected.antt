-- ===== src/Sub/Connected.antt =====
-- sub.go and pub.go: a subscriber from its connection on, with what `onConnAdded` and SetOption send, and
-- the rounds of the publisher's listener.
pub mod Sides
pub mod Following
use quicmq.Base.{
  ℕ, zero, suc, ◌≡◌, refl, ap, ◌∙◌, sym, Bool, true, false, Option, none, some, List, [], ◌∷◌, ◌++◌,
  length, All, if◌then◌else◌, append_assoc, append-nil,
}
use mathlib.Core.Path.{subst}
use quicmq.Base.Bytes.{Bytes, beq}
use quicmq.Result.{Error}
use quicmq.Msg.{Msg, new_msg}
use quicmq.Wire.Format.{wire_format}
use quicmq.Conn.{
  NetConn, Conn, Store, set_conn, set_rw, has_topic, matches, subscribed, send_msg, read,
}
use quicmq.Conn.Stream.{IsStream, update_self}
use quicmq.Conn.TopicSet.{SameTopics}
use quicmq.Conn.Topics.{cmd_msg, has_topic-apply, matches_ext}
use quicmq.Conn.Link.{IsLink, new_bytes, arrive, fuel_for}
use quicmq.Conn.Link.Ends.{AtEnd, arrive-AtEnd, send-AtEnd, read_rw-AtEnd, new_bytes-AtEnd}
use quicmq.Conn.Link.Messages.{wires}
use quicmq.Pub.Listener.{PubReader, Round, goes_on, waits, listen_step, after_round}
use quicmq.Pub.Listener.Commands.{command_step}
use quicmq.Sub.{
  SubSocket, Name, subscribe_name, unsubscribe_name, add_conn, first_error, sorted_topics,
  subscribe, set_option, announce, on_conn_added, write_all, write_loop,
}
use quicmq.Sub.Sync.{
  Change, own_topics, commands, as_changes, announced_then, subscribe-apply, FitsChange,
}

abbrev pub option_name : Bool → Name
option_name true = subscribe_name
option_name false = unsubscribe_name

module _ {S : Type 0} (io : NetConn S) where
  -- `addConn` of the base socket for a SUB socket, with its `onConnAdded`; `sort` is `sort.Strings`.
  unfoldable pub join_conn : (List Bytes → List Bytes) → ℕ → SubSocket S → SubSocket S
  unfolding sorted_topics on_conn_added add_conn
  join_conn sort c sk = record sk {
    conns = sk.conns ++ c ∷ [];
    writer = add_conn sk.writer c;
    store = on_conn_added io c (sorted_topics sort sk.subs) sk.store;
  }

  -- Calls of SetOption, with the first error that one of them returns.
  unfoldable pub set_options : List Change → SubSocket S → Option Error × SubSocket S
  unfolding set_option
  set_options [] sk = (none, sk)
  set_options ((sub, k) ∷ cs) sk =
      let (e, sk1) = set_option io (option_name sub) k sk in
      let (e', sk2) = set_options cs sk1 in (first_error e e', sk2)

module _ {T : Type 0} where
  -- What `r.read()` returned, if it did.
  abbrev pub after_read :
      (PubReader T → Msg → Round T) → PubReader T → Option (Msg × Store T) → Round T
  after_read next q none = waits
  after_read next q (some (m, st)) = next (record q { store = st }) m

module _ {T : Type 0} {peer : NetConn T} {b : IsStream peer} (there : IsLink b) (d : ℕ) where
  -- n rounds of `listen` on connection d, each with its `r.read()`.
  unfoldable pub listen_rounds : ℕ → PubReader T → Round T
  listen_rounds zero q = goes_on q
  listen_rounds (suc n) q =
      after_read
        (λ q1 m. after_round peer (listen_step peer false q1 d m) (λ q2. listen_rounds n q2)) q
        (read peer (fuel_for there d q.store) d q.store)
