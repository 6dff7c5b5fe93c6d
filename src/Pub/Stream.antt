-- ===== src/Pub/Stream.antt =====
-- pub.go with conn.go: what a subscriber's channel holds, from its goroutine to the reads of the peer.
use quicmq.Base.{
  ℕ, zero, suc, ◌≡◌, refl, ap, ◌∙◌, Option, none, some, List, [], ◌∷◌, ◌++◌, length, append_assoc,
  append-nil, All,
}
use mathlib.Core.Path.{subst}
use quicmq.Base.Bytes.{Bytes}
use quicmq.Msg.{Msg}
use quicmq.Wire.Format.{wire_format}
use quicmq.Conn.{NetConn, Store}
use quicmq.Conn.Stream.{IsStream}
use quicmq.Conn.Link.{IsLink, new_bytes, arrive}
use quicmq.Conn.Link.Ends.{AtEnd, send-AtEnd}
use quicmq.Conn.Link.Messages.{Readable, wires, as_read, read_all, sent_arrives}
use quicmq.Pub.{Subscriber, pump, pump_step}
use quicmq.Pub.Order.{held}

-- What the goroutine still has to send.
abbrev pub unsent : Subscriber → List Msg
unsent s = held s.sending ++ s.buf

-- The steps that it needs for that: two for each message in the channel, one for the message it holds.
abbrev pub steps_for_buf : List Msg → ℕ
steps_for_buf [] = 0
steps_for_buf (m ∷ ms) = suc (suc (steps_for_buf ms))

abbrev pub steps_for : Subscriber → ℕ
steps_for s = elim s.sending [ none ↦ steps_for_buf s.buf | some m ↦ suc (steps_for_buf s.buf) ]

abbrev pub emptied : Subscriber → Subscriber
emptied s = record s { buf = []; sending = none }

module _ {S : Type 0} (io : NetConn S) where
  unfoldable pub pump_all : ℕ → Subscriber → Store S → Subscriber × Store S
  unfolding pump
  pump_all zero s st = (s, st)
  pump_all (suc n) s st = let (s1, st1) = pump io s st in pump_all n s1 st1

module _ {S : Type 0} {io : NetConn S} {a : IsStream io} (link : IsLink a) where
  -- The goroutine sends what it holds and what is in the channel.
  abbrev Drains : Bytes → Bytes → Subscriber → Store S → Type 0
  Drains p o s st =
      (st1 : Store S) × (pump_all io (steps_for s) s st ≡ (emptied s, st1))
      × AtEnd link s.conn p (o ++ wires (unsent s)) st1

  sends_held :
      (p o : Bytes) (c room : ℕ) (m : Msg) (ms : List Msg) (st : Store S)
      → ((o1 : Bytes) (st1 : Store S)
          → AtEnd link c p o1 st1
          → Drains p o1 (record { conn = c; cap = room; buf = ms; sending = none }) st1)
      → AtEnd link c p o st
      → Drains p o (record { conn = c; cap = room; buf = ms; sending = some m }) st
  unfolding pump_all pump pump_step wires
  sends_held p o c room m ms st drain v =
      let (st1, sent, v1) = send-AtEnd link c p o m st v in
      let (st2, rest, v2) = drain (o ++ wire_format m.frames) st1 v1 in
      (
        st2,
        ap
              (λ r.
                pump_all io (steps_for_buf ms)
                  (record { conn = c; cap = room; buf = ms; sending = none }) r.1)
              sent
            ∙ rest,
        subst (λ q. AtEnd link c p q st2) (append_assoc o (wire_format m.frames) (wires ms)) v2,
      )

  empties :
      (c room : ℕ) (ms : List Msg) (p o : Bytes) (st : Store S)
      → AtEnd link c p o st
      → Drains p o (record { conn = c; cap = room; buf = ms; sending = none }) st
  unfolding pump_all pump pump_step wires
  empties c room [] p o st v = (st, refl, rw (append-nil o) v)
  empties c room (m ∷ ms) p o st v =
      sends_held p o c room m ms st (λ o1 st1 v1. empties c room ms p o1 st1 v1) v

  empties_held :
      (c room : ℕ) (sending : Option Msg) (ms : List Msg) (p o : Bytes) (st : Store S)
      → AtEnd link c p o st
      → Drains p o (record { conn = c; cap = room; buf = ms; sending = sending }) st
  empties_held c room none ms p o st v = empties c room ms p o st v
  empties_held c room (some m) ms p o st v =
      sends_held p o c room m ms st (λ o1 st1 v1. empties c room ms p o1 st1 v1) v

module _ {S T : Type 0} {io : NetConn S} {peer : NetConn T} {a : IsStream io} {b : IsStream peer}
    (here : IsLink a) (there : IsLink b) where
  -- What a subscriber's channel holds arrives: over a connection that works, the goroutine sends the
  -- message that it holds and then those in the channel, in two steps for each at most, and is idle with
  -- an empty channel after that; and once the bytes have arrived, the peer's reads return exactly these
  -- messages, in order. Each has a frame at least, and every frame is below 2^32 bytes.
  pub channel_arrives :
      (s : Subscriber) (d : ℕ) (p o q : Bytes) (st : Store S) (to : Store T)
      → All Readable (unsent s)
      → AtEnd here s.conn p o st
      → AtEnd there d [] q to
      → (st1 : Store S) × (to1 : Store T) × (pump_all io (steps_for s) s st ≡ (emptied s, st1))
        × (read_all there d
              (length (unsent s))
              (arrive there d (new_bytes here (st.conns s.conn).rw (st1.conns s.conn).rw) to)
            ≡ some (as_read (unsent s), to1))
        × AtEnd there d [] q to1
  channel_arrives s d p o q st to h v w =
      let (st1, pumped, v1) = empties_held here s.conn s.cap s.sending s.buf p o st v in
      let (to1, got, w1) = sent_arrives here there s.conn d (unsent s) p o q st st1 to h v v1 w in
      (st1, to1, pumped, got, w1)
