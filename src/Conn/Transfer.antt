-- ===== src/Conn/Transfer.antt =====
-- `SendMsg` at one end and `read` at the other.
use quicmq.Base.{
  List, ℕ, suc, ◌≡◌, ◌≢◌, sym, ap, ◌∙◌, none, some, [], ◌++◌, length, drop, drop-length-append, All,
}
use quicmq.Base.Bytes.{Bytes}
use quicmq.Msg.{Msg, msg_of}
use quicmq.Wire.Format.{Fits, wire_format}
use quicmq.Datagram.Codec.{deserialize}
use quicmq.Datagram.Codec.RoundTrip.{deserialize-serialize, serialize-format}
use quicmq.Conn.{NetConn, Store, set_rw, send_msg, read}
use quicmq.Conn.Stream.{IsStream, update_self}
use quicmq.Conn.Send.{send_msg_ok}
use quicmq.Conn.Read.{read-Agrees}

append_left_cancel : (xs ys zs : Bytes) → xs ++ ys ≡ xs ++ zs → ys ≡ zs
append_left_cancel xs ys zs h =
    sym (drop-length-append xs ys) ∙ ap (drop (length xs)) h ∙ drop-length-append xs zs

-- A message whose bytes come first is what `read` returns, and what follows it stays pending.
pub read_wire :
    {T : Type 0} {peer : NetConn T} (b : IsStream peer) (d : ℕ) (fs : List Bytes) (to : Store T)
    (rest : Bytes)
    → b.pending (to.conns d).rw ≡ wire_format fs ++ rest
    → fs ≢ []
    → All Fits fs
    → (s : T) × (read peer (suc (length (wire_format fs ++ rest))) d to
        ≡ some (msg_of fs, set_rw to d s))
      × (b.pending s ≡ rest)
read_wire b d fs to rest arrives ne fits =
    let decoded : deserialize (wire_format fs ++ rest) ≡ some (fs, rest, none) =
      rw (← serialize-format (msg_of fs)) (deserialize-serialize (msg_of fs) rest ne fits) in
    let r = read-Agrees b d to in rw (arrives, decoded) at r

module _ {S T : Type 0} {io : NetConn S} {peer : NetConn T} (a : IsStream io)
    (b : IsStream peer) where
  -- A message that `SendMsg` reports as sent is the message that `read` returns at the other end.
  -- `delta` is what the send added to the sender's stream, and the receiver's pending bytes start
  -- with it. The message has at least one frame and every frame is below 2^32 bytes; it comes back
  -- without an error, its frames in order, and what follows it stays pending.
  pub read-send_msg :
      (c d : ℕ) (msg : Msg) (st st' : Store S) (to : Store T) (delta rest : Bytes)
      → send_msg io c msg st ≡ (none, st')
      → a.sent (st'.conns c).rw ≡ a.sent (st.conns c).rw ++ delta
      → b.pending (to.conns d).rw ≡ delta ++ rest
      → msg.frames ≢ []
      → All Fits msg.frames
      → (s : T) × (read peer (suc (length (delta ++ rest))) d to
          ≡ some (msg_of msg.frames, set_rw to d s))
        × (b.pending s ≡ rest)
  read-send_msg c d msg st st' to delta rest sending grows arrives ne fits =
      let (open_before, s, e, w) = send_msg_ok a c msg st st' sending in
      let now : a.sent (st'.conns c).rw ≡ a.sent (st.conns c).rw ++ wire_format msg.frames =
        rw (e, update_self st.conns c _) w in
      let same : delta ≡ wire_format msg.frames =
        append_left_cancel _ delta (wire_format msg.frames) (sym grows ∙ now) in
      let bytes : delta ++ rest ≡ wire_format msg.frames ++ rest = ap (λ x. x ++ rest) same in
      rw bytes (read_wire b d msg.frames to rest (arrives ∙ bytes) ne fits)
