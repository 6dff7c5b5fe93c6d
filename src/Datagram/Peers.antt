-- ===== src/Datagram/Peers.antt =====
-- datagram.go: the DatagramPub socket, its peers and their subscriptions.
use quicmq.Base.{
  ℕ, ◌-◌, ◌≡◌, ◌≢◌, refl, ap, ◌∙◌, Bool, true, false, Option, none, some, List, [], ◌∷◌, ◌++◌,
  arith, if◌then◌else◌, Bool-cases, inl, inr,
}
use quicmq.Base.Bytes.{Bytes}
use quicmq.Base.Conns.{remove_conn, count_conn, count-remove}
use quicmq.Result.{Error}
use quicmq.Msg.{Msg}
use quicmq.Conn.{matches, add_topic, delete_topic, update}
use quicmq.Conn.Stream.{update_ne}
use quicmq.Datagram.Codec.{serialize_msg_datagram}

-- What `Send` uses of a `*quic.Conn`.
pub record DatagramConn (S : Type 0) : Type 0 where
  pub supports : S → Bool
  pub send_datagram : S → Bytes → Option Error × S

-- `dgpeer`.
pub record Peer (S : Type 0) : Type 0 where
  pub qconn : S
  pub topics : List Bytes

-- `peerList`, with the peers behind its pointers.
pub record Hub (S : Type 0) : Type 0 where
  pub peer_list : List ℕ
  pub peers : ℕ → Peer S

-- What the loop of `Send` has: `firstErr`, `dead` and the connections.
pub record Sending (S : Type 0) : Type 0 where
  pub first_err : Option Error
  pub dead : List ℕ
  pub hub : Hub S

-- The loops that take the dead peers out of `peerList`, each at its first place.
unfoldable pub remove_all : List ℕ → List ℕ → List ℕ
remove_all [] ps = ps
remove_all (d ∷ ds) ps = remove_all ds (remove_conn d ps)

pub count-remove_all :
    (d : ℕ) (ds ps : List ℕ) → count_conn d (remove_all ds ps) ≡ count_conn d ps - count_conn d ds
unfolding remove_all count_conn
count-remove_all d [] ps = omega arith
count-remove_all d (c ∷ ds) ps =
    ground (arith, count-remove_all d ds (remove_conn c ps), count-remove c d ps)

count-snoc : (d p : ℕ) (ds : List ℕ) → d ≢ p → count_conn d (ds ++ p ∷ []) ≡ count_conn d ds
unfolding count_conn
count-snoc d p [] other = ground arith
count-snoc d p (c ∷ ds) other = ground (arith, count-snoc d p ds other)

clash : {b : Bool} → b ≡ true → b ≡ false → ⊥
clash t f = ground arith

module _ {S : Type 0} where
  -- `dgpeer.subscribed`.
  unfoldable pub peer_subscribed : Hub S → ℕ → Bytes → Bool
  peer_subscribed hub p topic = matches (hub.peers p).topics topic

  -- One command of `handlePeer`.
  unfoldable pub handle_cmd : Hub S → ℕ → Bool → Bytes → Hub S
  handle_cmd hub p sub topic =
      let peer = hub.peers p in
      record hub {
        peers = update hub.peers p (record peer {
          topics = if sub then add_topic topic peer.topics else delete_topic topic peer.topics;
        });
      }

  -- The end of `handlePeer`.
  unfoldable pub leave : Hub S → ℕ → Hub S
  leave hub p = record hub { peer_list = remove_conn p hub.peer_list }

  abbrev pub after_datagram : ℕ → Sending S → Option Error × S → Sending S
  after_datagram p a (none, s) = record a {
    hub = record (a.hub) { peers = update a.hub.peers p (record (a.hub.peers p) { qconn = s }) };
  }
  after_datagram p a (some e, s) = record {
    first_err = elim a.first_err [ none ↦ some e | some x ↦ some x ];
    dead = a.dead ++ p ∷ [];
    hub = record (a.hub) { peers = update a.hub.peers p (record (a.hub.peers p) { qconn = s }) };
  }

  module _ (io : DatagramConn S) where
    unfoldable pub send_one_peer : Bytes → Bytes → ℕ → Sending S → Sending S
    unfolding peer_subscribed
    send_one_peer topic payload p a =
        if peer_subscribed a.hub p topic
        then (if io.supports (a.hub.peers p).qconn
            then after_datagram p a (io.send_datagram (a.hub.peers p).qconn payload)
            else a)
        else a

    unfoldable pub send_loop : Bytes → Bytes → List ℕ → Sending S → Sending S
    unfolding send_one_peer
    send_loop topic payload [] a = a
    send_loop topic payload (p ∷ ps) a =
        send_loop topic payload ps (send_one_peer topic payload p a)

    abbrev pub after_loop : Sending S → Option Error × Hub S
    after_loop a = (a.first_err, record (a.hub) { peer_list = remove_all a.dead a.hub.peer_list })

    unfoldable pub send_frames_to : Msg → List Bytes → Hub S → Option Error × Hub S
    unfolding send_loop
    send_frames_to msg [] hub = (none, hub)
    send_frames_to msg (f ∷ fs) hub = after_loop (
        send_loop f (serialize_msg_datagram msg) hub.peer_list
          (record { first_err = none; dead = []; hub = hub }))

    -- `DatagramPubSocket.Send`, with no peer coming or going meanwhile.
    unfoldable pub send : Msg → Hub S → Option Error × Hub S
    unfolding send_frames_to
    send msg hub = send_frames_to msg msg.frames hub

    -- The loop has not touched peer d.
    abbrev pub Spared : ℕ → Sending S → Sending S → Type 0
    Spared d a b =
        (b.hub.peers d ≡ a.hub.peers d)
        × (count_conn d b.dead ≡ count_conn d a.dead)
        × (b.hub.peer_list ≡ a.hub.peer_list)

    pub datagram-Spared :
        (p d : ℕ) (a : Sending S) (r : Option Error × S) → d ≢ p → Spared d a (after_datagram p a r)
    datagram-Spared p d a (none, s) other = (update_ne a.hub.peers p _ d other, refl, refl)
    datagram-Spared p d a (some e, s) other =
        (update_ne a.hub.peers p _ d other, count-snoc d p a.dead other, refl)

    one_peer-Spared :
        (topic payload : Bytes) (p d : ℕ) (a : Sending S)
        → peer_subscribed a.hub d topic ≡ false
        → Spared d a (send_one_peer topic payload p a)
    unfolding send_one_peer
    one_peer-Spared topic payload p d a out = elim (Bool-cases (peer_subscribed a.hub p topic)) [
      | inr lacks ↦ rw (lacks, send_one_peer) (refl, refl, refl)
      | inl wants ↦ elim (Bool-cases (io.supports (a.hub.peers p).qconn)) [
        | inr lacks ↦ rw (wants, lacks, send_one_peer) (refl, refl, refl)
        | inl can ↦
            rw (wants, can, send_one_peer)
              (datagram-Spared p d a (io.send_datagram (a.hub.peers p).qconn payload)
                (λ same. clash (ap (λ k. peer_subscribed a.hub k topic) same ∙ wants) out))
      ]
    ]

    loop-Spared :
        (topic payload : Bytes) (ps : List ℕ) (d : ℕ) (a : Sending S)
        → peer_subscribed a.hub d topic ≡ false
        → Spared d a (send_loop topic payload ps a)
    unfolding send_loop peer_subscribed
    loop-Spared topic payload [] d a out = (refl, refl, refl)
    loop-Spared topic payload (p ∷ ps) d a out =
        let (same, dead, list) = one_peer-Spared topic payload p d a out in
        let still = ap (λ (q : Peer S). matches q.topics topic) same ∙ out in
        let (same1, dead1, list1) =
          loop-Spared topic payload ps d (send_one_peer topic payload p a) still in
        (same1 ∙ same, dead1 ∙ dead, list1 ∙ list)

    -- Whatever fails, `Send` leaves a peer alone that is not subscribed to the message: no datagram
    -- goes to its connection and it stays in the list as often as before.
    pub send_spares :
        (msg : Msg) (f : Bytes) (fs : List Bytes) (hub : Hub S) (d : ℕ)
        → msg.frames ≡ f ∷ fs
        → peer_subscribed hub d f ≡ false
        → ((send msg hub).1.peers d ≡ hub.peers d)
          × (count_conn d (send msg hub).1.peer_list ≡ count_conn d hub.peer_list)
    unfolding send send_frames_to count_conn
    send_spares msg f fs hub d first out =
        let start : Sending S = record { first_err = none; dead = []; hub = hub } in
        let a = send_loop f (serialize_msg_datagram msg) hub.peer_list start in
        let (same, dead, list) =
          loop-Spared f (serialize_msg_datagram msg) hub.peer_list d start out in
        let now : send msg hub ≡ after_loop a = ap (λ gs. send_frames_to msg gs hub) first in
        (
          ap (λ r. r.1.peers d) now ∙ same,
          ap (λ r. count_conn d r.1.peer_list) now
              ∙ count-remove_all d a.dead a.hub.peer_list
              ∙ ap (λ k. count_conn d a.hub.peer_list - k) dead
              ∙ omega arith
              ∙ ap (count_conn d) list,
        )
