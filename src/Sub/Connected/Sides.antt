-- ===== src/Sub/Connected/Sides.antt =====
-- What each end of a subscription does to its connection.
use quicmq.Base.{
  ℕ, ◌≡◌, refl, ap, ◌∙◌, sym, Bool, true, false, none, List, [], ◌∷◌, ◌++◌, length, All,
  if◌then◌else◌, append_assoc, append-nil,
}
use mathlib.Core.Path.{subst}
use quicmq.Base.Bytes.{Bytes, beq}
use quicmq.Msg.{new_msg}
use quicmq.Wire.Format.{wire_format}
use quicmq.Conn.{NetConn, Conn, Store, set_conn, set_rw, has_topic, send_msg}
use quicmq.Conn.Stream.{IsStream, update_self}
use quicmq.Conn.TopicSet.{SameTopics}
use quicmq.Conn.Topics.{cmd_msg, has_topic-apply}
use quicmq.Conn.Link.{IsLink}
use quicmq.Conn.Link.Ends.{AtEnd, send-AtEnd, read_rw-AtEnd}
use quicmq.Conn.Link.Messages.{wires}
use quicmq.Pub.Listener.{PubReader, goes_on, listen_step, after_round}
use quicmq.Pub.Listener.Commands.{command_step}
use quicmq.Sub.{SubSocket, subscribe, set_option, announce, on_conn_added, write_all, write_loop}
use quicmq.Sub.Sync.{Change, own_topics, commands, as_changes, subscribe-apply, FitsChange}
use quicmq.Sub.Connected.{option_name, set_options, after_read, listen_rounds}

module _ {T : Type 0} {peer : NetConn T} {b : IsStream peer} (there : IsLink b) (d : ℕ) where
  -- The publisher's side: each command that is pending is read and applied.
  abbrev pub Follows : List Change → Bytes → Bytes → List Bytes → PubReader T → Type 0
  Follows cs p o subs q =
      (q' : PubReader T) × (listen_rounds there d (length cs) q ≡ goes_on q')
      × (q'.ch ≡ q.ch)
      × SameTopics (q'.store.conns d).topics (own_topics cs subs)
      × AtEnd there d p o q'.store

  topics-AtEnd :
      (p o : Bytes) (st : Store T) (ts : List Bytes)
      → AtEnd there d p o st
      → AtEnd there d p o (set_conn st d (record (st.conns d) { topics = ts }))
  topics-AtEnd p o st ts v =
      let now = update_self st.conns d (record (st.conns d) { topics = ts }) in
      record {
        is_open = ap (λ (k : Conn T). k.closed) now ∙ v.is_open;
        working = ap (λ (k : Conn T). there.works k.rw) now ∙ v.working;
        waits = ap (λ (k : Conn T). b.pending k.rw) now ∙ v.waits;
        wrote = ap (λ (k : Conn T). b.sent k.rw) now ∙ v.wrote;
      }

  pub kept_topics : (st : Store T) (s : T) → ((set_rw st d s).conns d).topics ≡ (st.conns d).topics
  kept_topics st s = ap (λ (k : Conn T). k.topics) (update_self st.conns d _)

  pub rounds_follow :
      (cs : List Change) (p o : Bytes) (subs : List Bytes) (q : PubReader T)
      → All FitsChange cs
      → SameTopics (q.store.conns d).topics subs
      → AtEnd there d (wires (commands cs) ++ p) o q.store
      → Follows cs p o subs q
  unfolding listen_rounds commands wires own_topics
  rounds_follow [] p o subs q fits same v = (q, refl, refl, same, v)
  rounds_follow ((sub, k) ∷ cs) p o subs q fits same v =
      let frames = (cmd_msg sub k).frames in
      let rest = wires (commands cs) ++ p in
      let (s, got, v1) =
        read_rw-AtEnd there d rest o frames q.store
          (subst (λ bs. AtEnd there d bs o q.store)
            (append_assoc (wire_format frames) (wires (commands cs)) p) v)
          (λ e. cc) (fits.0, tt) in
      let q1 = record q { store = set_rw q.store d s } in
      let (ts, step, laws) = command_step peer q1 d sub k in
      let st2 = set_conn q1.store d (record (q1.store.conns d) { topics = ts }) in
      let kept : SameTopics (st2.conns d).topics (subscribe k (if sub then 1 else 0) subs) = λ j.
        ap (λ (c : Conn T). has_topic j c.topics) (update_self q1.store.conns d _)
        ∙ laws j
        ∙ ap (λ us. if beq k j then sub else has_topic j us) (kept_topics q.store s)
        ∙ ap (λ x. if beq k j then sub else x) (same j)
        ∙ sym (has_topic-apply sub k j subs)
        ∙ ap (has_topic j) (sym (subscribe-apply sub k subs)) in
      let (q', e, ch, agree, end) =
        rounds_follow cs p o (subscribe k (if sub then 1 else 0) subs) (record q { store = st2 })
          fits.1 kept (topics-AtEnd rest o q1.store ts v1) in
      (
        q',
        ap
              (after_read
                (λ q2 m.
                  after_round peer (listen_step peer false q2 d m)
                    (λ q3. listen_rounds there d (length cs) q3))
                q)
              got
            ∙ ap (λ r. after_round peer r (λ q3. listen_rounds there d (length cs) q3)) step
            ∙ e,
        ch,
        agree,
        end,
      )

module _ {S : Type 0} {io : NetConn S} {a : IsStream io} (here : IsLink a) (c : ℕ) where
  -- The subscriber's side: a SetOption over its one connection sends the command.
  set_option-AtEnd :
      (sub : Bool) (k p o : Bytes) (sk : SubSocket S)
      → sk.conns ≡ c ∷ []
      → sk.writer.ws ≡ c ∷ []
      → AtEnd here c p o sk.store
      → (st : Store S) × (set_option io (option_name sub) k sk
          ≡ (none, record sk { subs = subscribe k (if sub then 1 else 0) sk.subs; store = st }))
        × AtEnd here c p (o ++ wire_format (cmd_msg sub k).frames) st
  unfolding set_option announce write_all write_loop
  set_option-AtEnd true k p o sk held writes v =
      let (st, sent, v1) = send-AtEnd here c p o (cmd_msg true k) sk.store v in
      (st, rw (held, writes, sent) refl, v1)
  set_option-AtEnd false k p o sk held writes v =
      let (st, sent, v1) = send-AtEnd here c p o (cmd_msg false k) sk.store v in
      (st, rw (held, writes, sent) refl, v1)

  -- Any calls of SetOption succeed, and put their commands on the wire.
  pub set_options-AtEnd :
      (cs : List Change) (p o : Bytes) (sk : SubSocket S)
      → sk.conns ≡ c ∷ []
      → sk.writer.ws ≡ c ∷ []
      → AtEnd here c p o sk.store
      → (st : Store S) × (set_options io cs sk
          ≡ (none, record sk { subs = own_topics cs sk.subs; store = st }))
        × AtEnd here c p (o ++ wires (commands cs)) st
  unfolding set_options own_topics commands wires
  set_options-AtEnd [] p o sk held writes v = (sk.store, refl, rw (append-nil o) v)
  set_options-AtEnd ((sub, k) ∷ cs) p o sk held writes v =
      let (st1, called, v1) = set_option-AtEnd sub k p o sk held writes v in
      let sk1 = record sk { subs = subscribe k (if sub then 1 else 0) sk.subs; store = st1 } in
      let frames = (cmd_msg sub k).frames in
      let (st2, more, v2) = set_options-AtEnd cs p (o ++ wire_format frames) sk1 held writes v1 in
      (
        st2,
        rw called (rw more refl),
        subst (λ bs. AtEnd here c p bs st2)
            (append_assoc o (wire_format frames) (wires (commands cs))) v2,
      )

  -- `onConnAdded` puts the commands for the topics on the wire.
  pub announce-AtEnd :
      (ts : List Bytes) (p o : Bytes) (st : Store S)
      → AtEnd here c p o st
      → AtEnd here c p (o ++ wires (commands (as_changes ts))) (on_conn_added io c ts st)
  unfolding on_conn_added commands as_changes wires
  announce-AtEnd [] p o st v = rw (append-nil o) v
  announce-AtEnd (t ∷ ts) p o st v =
      let frames = (cmd_msg true t).frames in
      let (st1, sent, v1) = send-AtEnd here c p o (cmd_msg true t) st v in
      let now : (send_msg io c (new_msg (1 ∷ t)) st).1 ≡ st1 = ap (λ r. r.1) sent in
      let later = announce-AtEnd ts p (o ++ wire_format frames) st1 v1 in
      let grown =
        subst (λ bs. AtEnd here c p bs (on_conn_added io c ts st1))
          (append_assoc o (wire_format frames) (wires (commands (as_changes ts)))) later in
      subst
        (λ x.
          AtEnd here c p (o ++ wires (commands (as_changes (t ∷ ts)))) (on_conn_added io c ts x))
        (sym now) grown
