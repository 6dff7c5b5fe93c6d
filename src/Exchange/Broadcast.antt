-- ===== src/Exchange/Broadcast.antt =====
-- From the datagram publisher's Send to the subscriber's Recv, with the control stream before it.
use quicmq.Base.{
  ℕ, zero, suc, ◌≤◌, ◌≡◌, refl, ap, ◌∙◌, Bool, true, false, none, some, List, [], ◌∷◌, ◌++◌, arith,
  length, All, if◌then◌else◌,
}
use quicmq.Base.Bytes.{Bytes}
use quicmq.Base.Conns.{count_conn}
use quicmq.Result.{Result, ok, err}
use quicmq.Wire.Format.{Fits}
use quicmq.Msg.{Msg, msg_of}
use quicmq.Conn.{NetConn, matches}
use quicmq.Conn.Stream.{IsStream, update_self}
use quicmq.Sub.Sync.{Change, own_topics, as_changes, FitsChange}
use quicmq.Conn.TopicSet.{SameTopics}
use quicmq.Datagram.Codec.{serialize_msg_datagram, read_sub_cmd}
use quicmq.Datagram.Peers.{DatagramConn, Peer, Hub, handle_cmd, peer_subscribed, send}
use quicmq.Datagram.Broadcast.{reached, send_reaches}
use quicmq.Datagram.Control.{IsControl, dialed_sub, after_read, handle_all}
use quicmq.Datagram.Control.Agreement.{control_agrees}
use quicmq.Datagram.Subscriber.{matches_topic, recv, recv-serialize}

module _ {S : Type 0} where
  -- The commands of a peer change neither the list of peers nor its connection.
  abbrev SamePlace : ℕ → Hub S → Hub S → Type 0
  SamePlace p hub hub1 =
      (hub1.peer_list ≡ hub.peer_list) × ((hub1.peers p).qconn ≡ (hub.peers p).qconn)

  cmd-SamePlace :
      (hub : Hub S) (p : ℕ) (sub : Bool) (k : Bytes) → SamePlace p hub (handle_cmd hub p sub k)
  unfolding handle_cmd
  cmd-SamePlace hub p sub k = (refl, ap (λ (q : Peer S). q.qconn) (update_self hub.peers p _))

  all-SamePlace :
      (fuel : ℕ) (bs : Bytes) (p : ℕ) (hub : Hub S) → SamePlace p hub (handle_all fuel bs p hub)
  unfolding handle_all
  all-SamePlace zero bs p hub = (refl, refl)
  all-SamePlace (suc fuel) bs p hub =
      by_cmd (read_sub_cmd bs) (λ rest hub'. all-SamePlace fuel rest p hub')
    where
      by_cmd :
          (r : Result ((Bool × Bytes) × Bytes))
          → ((rest : Bytes) (hub' : Hub S) → SamePlace p hub' (handle_all fuel rest p hub'))
          → SamePlace p hub (after_read p hub (λ rest hub'. handle_all fuel rest p hub') r)
      by_cmd (err e) later = (refl, refl)
      by_cmd (ok ((sub, k), rest)) later =
          let (list, conn) = cmd-SamePlace hub p sub k in
          let (list1, conn1) = later rest (handle_cmd hub p sub k) in (list1 ∙ list, conn1 ∙ conn)

  reached_conn :
      (io : DatagramConn S) (topic payload : Bytes) (peer : Peer S) (q : S) (b : Bool)
      → matches peer.topics topic ≡ b
      → peer.qconn ≡ q
      → io.supports q ≡ true
      → (reached io topic payload peer).qconn ≡ (if b then (io.send_datagram q payload).1 else q)
  reached_conn io topic payload peer q true wants same can = rw (wants, same, can) refl
  reached_conn io topic payload peer q false lacks same can = rw (lacks) same

module _ {S T : Type 0} {stream : NetConn T} (a : IsStream stream) (v : IsControl stream) where
  -- A datagram goes where it is wanted: after the control stream, no write to which has failed, the
  -- publisher sends a message on the peer's connection, which has datagrams, exactly once if the
  -- subscriber's own topics match its first frame and not at all if they do not; and of the datagram,
  -- should it come next, Recv makes the message in the first case and nothing in the second. The peer is
  -- in the list once, of which no topic was known; the message has every frame below 2^32 bytes, and
  -- every topic sent is short of that with its command byte.
  pub datagram_arrives :
      (io : DatagramConn S) (before after : List Change) (listing : List Bytes) (s s1 : T)
      (hub : Hub S) (p fuel : ℕ) (msg : Msg) (f : Bytes) (fs : List Bytes)
      → (hub.peers p).topics ≡ []
      → count_conn p hub.peer_list ≡ 1
      → io.supports (hub.peers p).qconn ≡ true
      → SameTopics listing (own_topics before [])
      → All FitsChange (as_changes listing ++ after)
      → a.sent s ≡ []
      → (dialed_sub stream before listing s after).1.ctrl ≡ some s1
      → v.broken s1 ≡ false
      → length (as_changes listing ++ after) ≤ fuel
      → msg.frames ≡ f ∷ fs
      → All Fits msg.frames
      → (((send io msg (handle_all fuel (a.sent s1) p hub)).1.peers p).qconn ≡ (
          if matches (dialed_sub stream before listing s after).1.topics f
          then (io.send_datagram (hub.peers p).qconn (serialize_msg_datagram msg)).1
          else (hub.peers p).qconn))
        × ((rest : List (Result Bytes))
            → recv
                (dialed_sub stream before listing s after).1.topics
                (ok (serialize_msg_datagram msg) ∷ rest)
              ≡ (if matches (dialed_sub stream before listing s after).1.topics f
                  then some ((msg_of msg.frames, none), rest)
                  else recv (dialed_sub stream before listing s after).1.topics rest))
  unfolding peer_subscribed matches_topic
  datagram_arrives io before after listing s s1 hub p fuel msg f fs empty once can same fits unused
        ends up enough first fitting =
      let w = a.sent s1 in
      let topics = (dialed_sub stream before listing s after).1.topics in
      let (list, conn) = all-SamePlace fuel w p hub in
      let there = ap (count_conn p) list ∙ once in
      let (sent, _) = send_reaches io msg f fs (handle_all fuel w p hub) p first there in
      let (_, _, agree) =
        control_agrees a v before after listing s s1 hub p fuel empty same fits unused ends up
          enough in
      (
        ap (λ (q : Peer S). q.qconn) sent
            ∙ reached_conn io f (serialize_msg_datagram msg) ((handle_all fuel w p hub).peers p)
                (hub.peers p).qconn (matches topics f) (agree f) conn can,
        λ rest.
            recv-serialize topics msg rest (λ none_left. ground (arith, first, none_left)) fitting
            ∙ ap
                (λ gs.
                  if matches_topic topics gs
                  then some ((msg_of msg.frames, none), rest)
                  else recv topics rest)
                first,
      )
