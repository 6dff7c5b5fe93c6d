-- ===== src/Datagram/Control/Agreement.antt =====
-- What the publisher makes of the control stream of a subscriber.
use quicmq.Base.{
  ℕ, zero, suc, ◌≤◌, ◌≡◌, refl, ap, ◌∙◌, sym, Bool, true, false, Option, none, some, List, [], ◌∷◌,
  ◌++◌, arith, length, All, if◌then◌else◌, append_assoc, append-nil, Bool-cases, inl, inr,
}
use quicmq.Base.Bytes.{Bytes}
use quicmq.Result.{Error}
use quicmq.Conn.{NetConn, matches, add_topic, delete_topic}
use quicmq.Conn.Stream.{IsStream, update_self}
use quicmq.Conn.Topics.{matches_ext}
use quicmq.Conn.TopicSet.{SameTopics}
use quicmq.Sub.{subscribe, first_error}
use quicmq.Sub.Sync.{Change, own_topics, as_changes, FitsChange, announced_then}
use quicmq.Wire.{read_full}
use quicmq.Datagram.Codec.{sub_cmd, read_sub_cmd}
use quicmq.Datagram.Codec.SubCmd.{read_sub_cmd-sub_cmd}
use quicmq.Datagram.Peers.{Hub, Peer, handle_cmd, peer_subscribed}
use quicmq.Datagram.Subscriber.{DatagramSub, write_sub_cmd, written, set_option, resend, connect}
use quicmq.Datagram.Control.{
  IsControl, change_all, dialed_sub, after_read, handle_all, change_bytes,
}

changed :
    (sub : Bool) (k : Bytes) (ts : List Bytes)
    → (if sub then add_topic k ts else delete_topic k ts) ≡ subscribe k (if sub then 1 else 0) ts
unfolding subscribe
changed true k ts = refl
changed false k ts = refl

module _ {S : Type 0} (io : NetConn S) where
  -- The commands on the stream, one after the other, with the first error.
  writes : List Change → S → Option Error × S
  writes [] s = (none, s)
  writes ((sub, k) ∷ cs) s =
      let (e, s1) = write_sub_cmd io sub k s in
      let (e', s2) = writes cs s1 in (first_error e e', s2)

  -- SetOption while the stream is open writes the commands, and keeps the topics that they make, with or
  -- without errors.
  changes-open :
      (cs : List Change) (ts : List Bytes) (s : S)
      → change_all io cs (record { topics = ts; ctrl = some s })
        ≡ written io (own_topics cs ts) (writes cs s)
  unfolding change_all set_option own_topics writes write_sub_cmd
  changes-open [] ts s = refl
  changes-open ((sub, k) ∷ cs) ts s =
      let (e, s1) = write_sub_cmd io sub k s in
      ap
        (λ us.
          let (e', sk) = change_all io cs (record { topics = us; ctrl = some s1 }) in
          (first_error e e', sk))
        (changed sub k ts)
      ∙ ap (λ r. (first_error e r.0, r.1))
          (changes-open cs (subscribe k (if sub then 1 else 0) ts) s1)

  -- Before Dial there is nothing to write to.
  changes-shut :
      (cs : List Change) (ts : List Bytes)
      → change_all io cs (record { topics = ts; ctrl = none })
        ≡ (none, record { topics = own_topics cs ts; ctrl = none })
  unfolding change_all set_option own_topics
  changes-shut [] ts = refl
  changes-shut ((sub, k) ∷ cs) ts =
      ap
        (λ us.
          let (e', sk) = change_all io cs (record { topics = us; ctrl = none }) in
          (first_error none e', sk))
        (changed sub k ts)
      ∙ ap (λ r. (first_error none r.0, r.1))
          (changes-shut cs (subscribe k (if sub then 1 else 0) ts))

  resend-writes : (ts : List Bytes) (s : S) → resend io ts s ≡ (writes (as_changes ts) s).1
  unfolding resend writes as_changes
  resend-writes [] s = refl
  resend-writes (t ∷ ts) s = resend-writes ts (write_sub_cmd io true t s).1

  dialed_sub_lem :
      (before : List Change) (listing : List Bytes) (after : List Change) (s : S)
      → dialed_sub io before listing s after
        ≡ written io (own_topics after (own_topics before [])) (writes after (resend io listing s))
  unfolding connect
  dialed_sub_lem before listing after s =
      ap (λ (r : Option Error × DatagramSub S). change_all io after (connect io listing s r.1))
        (changes-shut before [])
      ∙ changes-open after (own_topics before []) (resend io listing s)

  module _ (a : IsStream io) (v : IsControl io) where
    -- A stream that is not broken afterwards took all that was written.
    one_written :
        (s : S) (bs : Bytes) (e : Option Error)
        → (io.write s bs).0 ≡ e
        → v.broken (io.write s bs).1 ≡ false
        → (e ≡ none) × (v.broken s ≡ false) × (a.sent (io.write s bs).1 ≡ a.sent s ++ bs)
    one_written s bs (some e) h up = absurd (ground (arith, v.fail_breaks s bs e h))
    one_written s bs none h up = elim (Bool-cases (v.broken s)) [
      | inl down ↦ absurd (ground (arith, v.stays_broken s bs down))
      | inr fine ↦ (refl, fine, a.write_sent s bs h)
    ]

    all_written :
        (cs : List Change) (s : S)
        → v.broken (writes cs s).1 ≡ false
        → ((writes cs s).0 ≡ none)
          × (v.broken s ≡ false)
          × (a.sent (writes cs s).1 ≡ a.sent s ++ change_bytes cs)
    unfolding writes change_bytes write_sub_cmd
    all_written [] s up = (refl, up, sym (append-nil (a.sent s)))
    all_written ((sub, k) ∷ cs) s up =
        let (fine, up1, grown) = all_written cs (write_sub_cmd io sub k s).1 up in
        let (first, up0, sent) = one_written s (sub_cmd sub k) _ refl up1 in
        (
          ap (λ e. first_error e (writes cs (write_sub_cmd io sub k s).1).0) first ∙ fine,
          up0,
          grown
              ∙ ap (λ bs. bs ++ change_bytes cs) sent
              ∙ append_assoc (a.sent s) (sub_cmd sub k) (change_bytes cs),
        )

change_bytes-append :
    (cs ds : List Change) → change_bytes (cs ++ ds) ≡ change_bytes cs ++ change_bytes ds
unfolding change_bytes
change_bytes-append [] ds = refl
change_bytes-append ((sub, k) ∷ cs) ds =
    ap (λ bs. sub_cmd sub k ++ bs) (change_bytes-append cs ds)
    ∙ sym (append_assoc (sub_cmd sub k) (change_bytes cs) (change_bytes ds))

module _ {S : Type 0} where
  after_cmd :
      (hub : Hub S) (p : ℕ) (sub : Bool) (k : Bytes)
      → ((handle_cmd hub p sub k).peers p).topics
        ≡ subscribe k (if sub then 1 else 0) (hub.peers p).topics
  unfolding handle_cmd
  after_cmd hub p sub k =
      ap (λ (q : Peer S). q.topics) (update_self hub.peers p _) ∙ changed sub k (hub.peers p).topics

  -- The publisher's loop decodes the bytes into the changes that they were made of.
  handle-changes :
      (cs : List Change) (fuel p : ℕ) (hub : Hub S)
      → length cs ≤ fuel
      → All FitsChange cs
      → ((handle_all fuel (change_bytes cs) p hub).peers p).topics
        ≡ own_topics cs (hub.peers p).topics
  unfolding handle_all change_bytes own_topics read_sub_cmd read_full
  handle-changes [] zero p hub low fits = refl
  handle-changes [] (suc fuel) p hub low fits = refl
  handle-changes ((sub, k) ∷ cs) zero p hub low fits = absurd (omega arith)
  handle-changes ((sub, k) ∷ cs) (suc fuel) p hub low fits =
      ap (λ r. ((after_read p hub (λ rest h. handle_all fuel rest p h) r).peers p).topics)
        (read_sub_cmd-sub_cmd sub k (change_bytes cs) fits.0)
      ∙ handle-changes cs fuel p (handle_cmd hub p sub k) (omega arith) fits.1
      ∙ ap (own_topics cs) (after_cmd hub p sub k)

some_eq : {S : Type 0} {x y : S} → ◌≡◌ {A = Option S} (some x) (some y) → x ≡ y
some_eq e = cc

module _ {S T : Type 0} {io : NetConn S} (a : IsStream io) (v : IsControl io) where
  pub control_agrees :
      (before after : List Change) (listing : List Bytes) (s s1 : S) (hub : Hub T) (p fuel : ℕ)
      → (hub.peers p).topics ≡ []
      → SameTopics listing (own_topics before [])
      → All FitsChange (as_changes listing ++ after)
      → a.sent s ≡ []
      → (dialed_sub io before listing s after).1.ctrl ≡ some s1
      → v.broken s1 ≡ false
      → length (as_changes listing ++ after) ≤ fuel
      → ((dialed_sub io before listing s after).0 ≡ none)
        × ((dialed_sub io before listing s after).1.topics
            ≡ own_topics after (own_topics before []))
        × ((topic : Bytes)
            → peer_subscribed (handle_all fuel (a.sent s1) p hub) p topic
              ≡ matches (dialed_sub io before listing s after).1.topics topic)
  unfolding peer_subscribed
  control_agrees before after listing s s1 hub p fuel empty same fits unused ends up enough =
      let cs = as_changes listing ++ after in
      let s0 = resend io listing s in
      let state = dialed_sub_lem io before listing after s in
      let now : (writes io after s0).1 ≡ s1 = some_eq (sym (ap (λ r. r.1.ctrl) state) ∙ ends) in
      let (fine, up0, grown) = all_written io a v after s0 (ap v.broken now ∙ up) in
      let first = resend-writes io listing s in
      let (_, _, announced) =
        all_written io a v (as_changes listing) s (ap v.broken (sym first) ∙ up0) in
      let bytes : a.sent s1 ≡ change_bytes cs =
        ap a.sent (sym now)
        ∙ grown
        ∙ ap (λ x. a.sent x ++ change_bytes after) first
        ∙ ap (λ bs. bs ++ change_bytes after)
            (announced ∙ ap (λ bs. bs ++ change_bytes (as_changes listing)) unused)
        ∙ sym (change_bytes-append (as_changes listing) after) in
      let knows : ((handle_all fuel (a.sent s1) p hub).peers p).topics ≡ own_topics cs [] =
        ap (λ x. ((handle_all fuel x p hub).peers p).topics) bytes
        ∙ handle-changes cs fuel p hub enough fits
        ∙ ap (own_topics cs) empty in
      (
        ap (λ r. r.0) state ∙ fine,
        ap (λ r. r.1.topics) state,
        λ topic.
            ap (λ ts. matches ts topic) knows
            ∙ matches_ext (own_topics cs []) (own_topics after (own_topics before [])) topic
                (announced_then listing (own_topics before []) after same)
            ∙ ap (λ r. matches r.1.topics topic) (sym state),
      )
