-- ===== src/Datagram/Broadcast.antt =====
-- Whom `DatagramPubSocket.Send` reaches.
use quicmq.Base.{
  ℕ, ◌+◌, ◌-◌, ◌≡◌, ◌≢◌, refl, ap, ◌∙◌, sym, Bool, ◌&&◌, Option, none, some, List, [], ◌∷◌, ◌++◌,
  ◌==◌, arith, if◌then◌else◌, Bool-cases, inl, inr,
}
use mathlib.Core.Path.{subst}
use quicmq.Base.Bytes.{Bytes}
use quicmq.Base.Conns.{count_conn}
use quicmq.Result.{Error}
use quicmq.Msg.{Msg}
use quicmq.Conn.{matches}
use quicmq.Conn.Stream.{update_self}
use quicmq.Datagram.Codec.{serialize_msg_datagram}
use quicmq.Datagram.Peers.{
  DatagramConn, Peer, Hub, Sending, peer_subscribed, after_datagram, send_one_peer, send_loop,
  after_loop, send_frames_to, send, count-remove_all, Spared, datagram-Spared,
}

module _ {S : Type 0} (io : DatagramConn S) (topic payload : Bytes) where
  -- The peer is subscribed and its connection has datagrams.
  abbrev pub is_addressed : Peer S → Bool
  is_addressed peer = matches peer.topics topic && io.supports peer.qconn

  abbrev pub failures : Option Error → ℕ
  failures none = 0
  failures (some e) = 1

  -- What a peer's turn does: one datagram if it is addressed, which counts it as dead if it fails.
  abbrev pub reached : Peer S → Peer S
  reached peer =
      if is_addressed peer
      then record peer { qconn = (io.send_datagram peer.qconn payload).1 }
      else peer

  abbrev pub died : Peer S → ℕ
  died peer = if is_addressed peer then failures (io.send_datagram peer.qconn payload).0 else 0

  -- The loop has given peer d its turn.
  abbrev HadTurn : ℕ → Sending S → Sending S → Type 0
  HadTurn d a b =
      (b.hub.peers d ≡ reached (a.hub.peers d))
      × (count_conn d b.dead ≡ count_conn d a.dead + died (a.hub.peers d))
      × (b.hub.peer_list ≡ a.hub.peer_list)

  peer-Spared :
      (p d : ℕ) (a : Sending S) → d ≢ p → Spared io d a (send_one_peer io topic payload p a)
  unfolding send_one_peer
  peer-Spared p d a other = elim (Bool-cases (peer_subscribed a.hub p topic)) [
    | inr lacks ↦ rw (lacks, send_one_peer) (refl, refl, refl)
    | inl wants ↦ elim (Bool-cases (io.supports (a.hub.peers p).qconn)) [
      | inr lacks ↦ rw (wants, lacks, send_one_peer) (refl, refl, refl)
      | inl can ↦
          rw (wants, can, send_one_peer)
            (datagram-Spared io p d a (io.send_datagram (a.hub.peers p).qconn payload) other)
    ]
  ]

  loop-Spared :
      (ps : List ℕ) (d : ℕ) (a : Sending S)
      → count_conn d ps ≡ 0
      → Spared io d a (send_loop io topic payload ps a)
  unfolding send_loop count_conn
  loop-Spared [] d a absent = (refl, refl, refl)
  loop-Spared (p ∷ ps) d a absent =
      let (peer, dead, list) = peer-Spared p d a (λ same. ground arith) in
      let absent1 : count_conn d ps ≡ 0 = ground arith in
      let (peer1, dead1, list1) = loop-Spared ps d (send_one_peer io topic payload p a) absent1 in
      (peer1 ∙ peer, dead1 ∙ dead, list1 ∙ list)

  count_last : (d : ℕ) (ds : List ℕ) → count_conn d (ds ++ d ∷ []) ≡ count_conn d ds + 1
  unfolding count_conn
  count_last d [] = ground arith
  count_last d (c ∷ ds) = ground (arith, count_last d ds)

  datagram-HadTurn :
      (d : ℕ) (a : Sending S) (r : Option Error × S)
      → ((after_datagram d a r).hub.peers d ≡ record (a.hub.peers d) { qconn = r.1 })
        × (count_conn d (after_datagram d a r).dead ≡ count_conn d a.dead + failures r.0)
        × ((after_datagram d a r).hub.peer_list ≡ a.hub.peer_list)
  datagram-HadTurn d a (none, s) = (update_self a.hub.peers d _, omega arith, refl)
  datagram-HadTurn d a (some e, s) = (update_self a.hub.peers d _, count_last d a.dead, refl)

  peer-HadTurn : (d : ℕ) (a : Sending S) → HadTurn d a (send_one_peer io topic payload d a)
  unfolding send_one_peer peer_subscribed
  peer-HadTurn d a = elim (Bool-cases (matches (a.hub.peers d).topics topic)) [
    | inr lacks ↦ rw (lacks, send_one_peer) (refl, omega arith, refl)
    | inl wants ↦ elim (Bool-cases (io.supports (a.hub.peers d).qconn)) [
      | inr lacks ↦ rw (wants, lacks, send_one_peer) (refl, omega arith, refl)
      | inl can ↦
          rw (wants, can, send_one_peer)
            (datagram-HadTurn d a (io.send_datagram (a.hub.peers d).qconn payload))
    ]
  ]

  loop-HadTurn :
      (ps : List ℕ) (d : ℕ) (a : Sending S)
      → count_conn d ps ≡ 1
      → HadTurn d a (send_loop io topic payload ps a)
  unfolding send_loop count_conn
  loop-HadTurn [] d a once = absurd (ground arith)
  loop-HadTurn (p ∷ ps) d a once = elim (Bool-cases (p == d)) [
    | inl here ↦
        let same : p ≡ d = ground arith in
        let absent : count_conn d ps ≡ 0 = ground arith in
        let (peer, dead, list) =
          subst (λ k. HadTurn d a (send_one_peer io topic payload k a)) (sym same)
            (peer-HadTurn d a) in
        let (peer1, dead1, list1) = loop-Spared ps d (send_one_peer io topic payload p a) absent in
        (peer1 ∙ peer, dead1 ∙ dead, list1 ∙ list)
    | inr later ↦
        let once1 : count_conn d ps ≡ 1 = ground arith in
        let (peer, dead, list) = peer-Spared p d a (λ same. ground arith) in
        let (peer1, dead1, list1) = loop-HadTurn ps d (send_one_peer io topic payload p a) once1 in
        (
          peer1 ∙ ap reached peer,
          dead1
              ∙ ap (λ n. n + died ((send_one_peer io topic payload p a).hub.peers d)) dead
              ∙ ap (λ q. count_conn d a.dead + died q) peer,
          list1 ∙ list,
        )
  ]

module _ {S : Type 0} (io : DatagramConn S) where
  -- `Send` on every connection and with any failures: a peer that is in the list once and subscribed to
  -- the message, over a connection that has datagrams, is sent it exactly once, and stays in the list
  -- exactly if that succeeded; any other peer is left as it is.
  pub send_reaches :
      (msg : Msg) (f : Bytes) (fs : List Bytes) (hub : Hub S) (d : ℕ)
      → msg.frames ≡ f ∷ fs
      → count_conn d hub.peer_list ≡ 1
      → ((send io msg hub).1.peers d ≡ reached io f (serialize_msg_datagram msg) (hub.peers d))
        × (count_conn d (send io msg hub).1.peer_list
            ≡ 1 - died io f (serialize_msg_datagram msg) (hub.peers d))
  unfolding send send_frames_to count_conn
  send_reaches msg f fs hub d first once =
      let start : Sending S = record { first_err = none; dead = []; hub = hub } in
      let a = send_loop io f (serialize_msg_datagram msg) hub.peer_list start in
      let (peer, dead, list) =
        loop-HadTurn io f (serialize_msg_datagram msg) hub.peer_list d start once in
      let now : send io msg hub ≡ after_loop io a = ap (λ gs. send_frames_to io msg gs hub) first in
      (
        ap (λ r. r.1.peers d) now ∙ peer,
        ap (λ r. count_conn d r.1.peer_list) now
            ∙ count-remove_all d a.dead a.hub.peer_list
            ∙ ap (λ ps. count_conn d ps - count_conn d a.dead) list
            ∙ ap (λ n. n - count_conn d a.dead) once
            ∙ ap (λ n. 1 - n) dead
            ∙ omega arith,
      )
