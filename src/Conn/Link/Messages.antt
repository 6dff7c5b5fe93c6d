-- ===== src/Conn/Link/Messages.antt =====
-- Messages one after the other over a connection that works.
use quicmq.Base.{
  ℕ, zero, suc, ◌≡◌, ◌≢◌, refl, ap, ◌∙◌, Option, none, some, List, [], ◌∷◌, ◌++◌, length, map,
  append_assoc, append-nil, All, ◌>>=◌,
}
use mathlib.Core.Path.{subst}
use quicmq.Base.Bytes.{Bytes}
use quicmq.Result.{Error}
use quicmq.Msg.{Msg, msg_of}
use quicmq.Wire.Format.{Fits, wire_format}
use quicmq.Conn.{NetConn, Store, go_on, send_msg, read}
use quicmq.Conn.Stream.{IsStream}
use quicmq.Conn.Link.{IsLink, new_bytes, arrive, fuel_for}
use quicmq.Conn.Link.Ends.{AtEnd, arrive-AtEnd, send-AtEnd, read-AtEnd, new_bytes-AtEnd}

-- A message that a peer can read back: a frame at least, each below 2^32 bytes.
abbrev pub Readable : Msg → Type 0
Readable m = (m.frames ≢ []) × All Fits m.frames

-- Their bytes on the wire.
unfoldable pub wires : List Msg → Bytes
wires [] = []
wires (m ∷ ms) = wire_format m.frames ++ wires ms

-- `read` gives the frames; the marks of a message stay behind.
abbrev pub as_read : List Msg → List Msg
as_read ms = map (λ m. msg_of m.frames) ms

module _ {S : Type 0} (io : NetConn S) (c : ℕ) where
  -- SendMsg of each message, up to the first error.
  unfoldable pub send_all : List Msg → Store S → Option Error × Store S
  send_all [] st = (none, st)
  send_all (m ∷ ms) st = go_on (send_msg io c m st) (send_all ms)

module _ {S : Type 0} {io : NetConn S} {a : IsStream io} (link : IsLink a) (c : ℕ) where
  -- n calls of `read`.
  unfoldable pub read_all : ℕ → Store S → Option (List Msg × Store S)
  read_all zero st = some ([], st)
  read_all (suc n) st = do
    (m, st1) ← read io (fuel_for link c st) c st
    (ms, st2) ← read_all n st1
    some (m ∷ ms, st2)

  send_all-AtEnd :
      (p o : Bytes) (ms : List Msg) (st : Store S)
      → AtEnd link c p o st
      → (st1 : Store S) × (send_all io c ms st ≡ (none, st1)) × AtEnd link c p (o ++ wires ms) st1
  unfolding send_all wires
  send_all-AtEnd p o [] st v = (st, refl, rw (append-nil o) v)
  send_all-AtEnd p o (m ∷ ms) st v =
      let (st1, sent, v1) = send-AtEnd link c p o m st v in
      let (st2, rest, v2) = send_all-AtEnd p (o ++ wire_format m.frames) ms st1 v1 in
      (
        st2,
        rw sent rest,
        subst (λ q. AtEnd link c p q st2) (append_assoc o (wire_format m.frames) (wires ms)) v2,
      )

  read_all-AtEnd :
      (p o : Bytes) (ms : List Msg) (st : Store S)
      → All Readable ms
      → AtEnd link c (wires ms ++ p) o st
      → (st1 : Store S) × (read_all (length ms) st ≡ some (as_read ms, st1)) × AtEnd link c p o st1
  unfolding read_all wires
  read_all-AtEnd p o [] st h v = (st, refl, v)
  read_all-AtEnd p o (m ∷ ms) st h v =
      let (st1, got, v1) =
        read-AtEnd link c (wires ms ++ p) o m.frames st
          (subst (λ q. AtEnd link c q o st) (append_assoc (wire_format m.frames) (wires ms) p) v)
          h.0.0 h.0.1 in
      let (st2, rest, v2) = read_all-AtEnd p o ms st1 h.1 v1 in (st2, rw (got, rest) refl, v2)

module _ {S T : Type 0} {io : NetConn S} {peer : NetConn T} {a : IsStream io} {b : IsStream peer}
    (here : IsLink a) (there : IsLink b) (c d : ℕ) where
  -- The bytes of messages that one end has sent are read as these messages at the other end.
  pub sent_arrives :
      (ms : List Msg) (p o q : Bytes) (st st1 : Store S) (to : Store T)
      → All Readable ms
      → AtEnd here c p o st
      → AtEnd here c p (o ++ wires ms) st1
      → AtEnd there d [] q to
      → (to1 : Store T) × (read_all there d
            (length ms)
            (arrive there d (new_bytes here (st.conns c).rw (st1.conns c).rw) to)
          ≡ some (as_read ms, to1))
        × AtEnd there d [] q to1
  sent_arrives ms p o q st st1 to h v v1 w =
      let (to1, got, w1) =
        read_all-AtEnd there d [] q ms (arrive there d (wires ms) to) h
          (rw (append-nil (wires ms)) (arrive-AtEnd there d [] q (wires ms) to w)) in
      (
        to1,
        ap (λ bs. read_all there d (length ms) (arrive there d bs to))
              (new_bytes-AtEnd here c p p o (wires ms) st st1 v v1)
            ∙ got,
        w1,
      )

  -- Any number of messages, sent one after the other over a connection that works: every SendMsg
  -- succeeds, and once their bytes have arrived at the peer, as many calls of `read` return the
  -- messages, all of them and in order, and leave nothing pending. Each has a frame at least, and every
  -- frame is below 2^32 bytes.
  pub messages_arrive :
      (ms : List Msg) (p o q : Bytes) (st : Store S) (to : Store T)
      → All Readable ms
      → AtEnd here c p o st
      → AtEnd there d [] q to
      → (st1 : Store S) × (to1 : Store T) × (send_all io c ms st ≡ (none, st1))
        × (read_all there d
              (length ms)
              (arrive there d (new_bytes here (st.conns c).rw (st1.conns c).rw) to)
            ≡ some (as_read ms, to1))
        × AtEnd there d [] q to1
  messages_arrive ms p o q st to h v w =
      let (st1, sent, v1) = send_all-AtEnd here c p o ms st v in
      let (to1, got, w1) = sent_arrives ms p o q st st1 to h v v1 w in (st1, to1, sent, got, w1)
