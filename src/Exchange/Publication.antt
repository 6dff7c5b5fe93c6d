-- ===== src/Exchange/Publication.antt =====
-- From the publisher's Send to the subscriber's Recv.
use quicmq.Base.{
  ℕ, suc, ◌<◌, ◌≡◌, ◌≢◌, refl, ap, ◌∙◌, sym, Bool, true, false, none, some, List, [], ◌∷◌, ◌++◌,
  arith, length, All, if◌then◌else◌, ltb,
}
use mathlib.Core.Path.{subst}
use quicmq.Base.Bytes.{Bytes}
use quicmq.Result.{Error}
use quicmq.Msg.{Msg, msg_of}
use quicmq.Wire.Format.{Fits}
use quicmq.Conn.{NetConn, Store, set_rw, send_msg, read}
use quicmq.Conn.Stream.{IsStream}
use quicmq.Conn.Topics.{HasMatch}
use quicmq.Conn.Transfer.{read-send_msg}
use quicmq.Pub.{Subscriber, PubWriter, write, topic_of, pump}
use quicmq.Pub.Delivery.{Receives, Delivered, write-Delivered}
use quicmq.Reader
use quicmq.Reader.{QReader, qrsize, after_put, take_msg}
use quicmq.Sub.{lock_passes}

module _ {S : Type 0} (st : Store S) (msg : Msg) where
  -- What a delivery did to the subscriber in the middle of the list.
  middle :
      (before after : List Subscriber) (s : Subscriber) (ts : List Subscriber)
      → Delivered st msg (before ++ s ∷ after) ts
      → (before1 : List Subscriber) × (after1 : List Subscriber) × (t : Subscriber) × (ts
          ≡ before1 ++ t ∷ after1)
        × (length before1 ≡ length before)
        × Receives st msg s t
  middle [] after s [] h = absurd h
  middle [] after s (t ∷ ts) h = ([], ts, t, refl, refl, h.0)
  middle (b ∷ before) after s [] h = absurd h
  middle (b ∷ before) after s (t ∷ ts) h =
      let (before1, after1, u, e, n, r) = middle before after s ts h.1 in
      (t ∷ before1, after1, u, ap (◌∷◌ t) e, omega (arith, n), r)

-- A subscriber whose goroutine waits, with nothing in its channel.
abbrev pub idle : ℕ → ℕ → Subscriber
idle c cap = record { conn = c; cap = cap; buf = []; sending = none }

module _ {S : Type 0} (io : NetConn S) where
  -- An idle goroutine with one message in its channel takes it and sends it.
  abbrev pub PumpsOut : ℕ → ℕ → Msg → Store S → Subscriber → Type 0
  PumpsOut c cap msg st t =
      (taken : Subscriber) × (pump io t st ≡ (taken, st))
      × (pump io taken st ≡ (idle c cap, (send_msg io c msg st).1))

  pumps_out :
      (c cap : ℕ) (msg : Msg) (st : Store S)
      → PumpsOut c cap msg st (record (idle c cap) { buf = msg ∷ [] })
  unfolding pump
  pumps_out c cap msg st = (record (idle c cap) { sending = some msg }, refl, refl)

module _ {T : Type 0} (peer : NetConn T) where
  -- A reader with an empty queue passes the next message on.
  abbrev pub PassesOn : QReader T → ℕ → Msg → Type 0
  PassesOn q d m =
      (q1 : QReader T) × (q2 : QReader T) × (Reader.listen_step peer false q d m ≡ some (true, q1))
      × (Reader.read false none q1 ≡ some ((m, none), q2))
      × (q2.ch ≡ [])

  passes_on :
      (q : QReader T) (d : ℕ) (fs : List Bytes)
      → q.ch ≡ []
      → q.sem.ready ≡ true
      → PassesOn q d (msg_of fs)
  unfolding Reader.listen_step after_put Reader.read lock_passes take_msg
  passes_on q d fs empty ready = (
    record q { ch = msg_of fs ∷ [] },
    record q { ch = [] },
    ap
        (λ ms.
          if ltb (length ms) qrsize
          then some (after_put peer (record q { ch = ms ++ msg_of fs ∷ [] }) d none)
          else none)
        empty,
    ap (λ b. if b then take_msg none (record q { ch = msg_of fs ∷ [] }) (msg_of fs ∷ []) else none)
        ready,
    refl,
  )

module _ {S T : Type 0} {io : NetConn S} {peer : NetConn T} (a : IsStream io)
    (b : IsStream peer) where
  -- A publication arrives: connection c is a subscriber of the writer, among any others, idle, with a
  -- channel that has a buffer and a topic that is a prefix of the message's first frame. Then `write`
  -- returns no error and queues the message there, and the goroutine takes it and sends it. If that
  -- send succeeds, and exactly its bytes come first on connection d of the subscriber, whose queue is
  -- empty, then the read there returns, its listener queues the message, and Recv returns its frames
  -- in order. The message has at least one frame and every frame is below 2^32 bytes.
  pub publication_arrives :
      (err : Error) (picks : ℕ → Bool) (w : PubWriter) (st st' : Store S) (q : QReader T)
      (c cap d : ℕ) (before after : List Subscriber) (msg : Msg) (delta rest : Bytes)
      → w.subscribers ≡ some (before ++ idle c cap ∷ after)
      → 0 < cap
      → HasMatch (st.conns c).topics (topic_of msg.frames)
      → send_msg io c msg st ≡ (none, st')
      → a.sent (st'.conns c).rw ≡ a.sent (st.conns c).rw ++ delta
      → b.pending (q.store.conns d).rw ≡ delta ++ rest
      → q.ch ≡ []
      → q.sem.ready ≡ true
      → msg.frames ≢ []
      → All Fits msg.frames
      → (before1 : List Subscriber) × (after1 : List Subscriber) × (t : Subscriber)
        × (taken : Subscriber) × (s : T) × (write false err picks st msg w
            ≡ (none, record w { subscribers = some (before1 ++ t ∷ after1) }))
        × (length before1 ≡ length before)
        × (pump io t st ≡ (taken, st))
        × (pump io taken st ≡ (idle c cap, st'))
        × (read peer (suc (length (delta ++ rest))) d q.store
            ≡ some (msg_of msg.frames, set_rw q.store d s))
        × PassesOn peer (record q { store = set_rw q.store d s }) d (msg_of msg.frames)
  publication_arrives err picks w st st' q c cap d before after msg delta rest subs room wants wire
        grows arrives empty ready ne fits =
      let (ts, wrote, all) = write-Delivered st msg err picks w _ subs in
      let (before1, after1, t, parts, same, r) = middle st msg before after (idle c cap) ts all in
      let put : t ≡ record (idle c cap) { buf = msg ∷ [] } = r.queued wants (omega arith) in
      let (taken, takes, sends) =
        subst (PumpsOut io c cap msg st) (sym put) (pumps_out io c cap msg st) in
      let (s, got, _) =
        read-send_msg a b c d msg st st' q.store delta rest wire grows arrives ne fits in
      (
        before1,
        after1,
        t,
        taken,
        s,
        wrote ∙ ap (λ us. (none, record w { subscribers = some us })) parts,
        same,
        takes,
        sends ∙ ap (λ x. (idle c cap, x.1)) wire,
        got,
        passes_on peer (record q { store = set_rw q.store d s }) d msg.frames empty ready,
      )
