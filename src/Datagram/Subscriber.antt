-- ===== src/Datagram/Subscriber.antt =====
-- datagram.go: the DatagramSub socket.
use quicmq.Base.{
  ◌≡◌, ◌≢◌, ap, ◌∙◌, sym, Bool, true, false, Option, none, some, List, [], ◌∷◌, All, if◌then◌else◌,
  append-nil,
}
use quicmq.Base.Bytes.{Bytes}
use quicmq.Result.{Error, Result, ok, err, not_connected}
use quicmq.Msg.{Msg, msg_of}
use quicmq.Wire.Format.{Fits}
use quicmq.Conn.{NetConn, matches, add_topic, delete_topic}
use quicmq.Datagram.Codec.{
  serialize_msg_datagram, deserialize, deserialize_msg_datagram, parsed_msg, sub_cmd,
}
use quicmq.Datagram.Codec.RoundTrip.{deserialize-serialize}

-- `DatagramSubSocket`: its topics, and its control stream if it has one.
pub record DatagramSub (S : Type 0) : Type 0 where
  pub topics : List Bytes
  pub ctrl : Option S

abbrev pub new_datagram_sub : {S : Type 0} → DatagramSub S
new_datagram_sub = record { topics = []; ctrl = none }

module _ {S : Type 0} (io : NetConn S) where
  -- `writeSubCmd`.
  unfoldable pub write_sub_cmd : Bool → Bytes → S → Option Error × S
  write_sub_cmd sub topic s = io.write s (sub_cmd sub topic)

  abbrev pub written : List Bytes → Option Error × S → Option Error × DatagramSub S
  written topics (e, s) = (e, record { topics = topics; ctrl = some s })

  -- `SetOption` with OptionSubscribe (true) or OptionUnsubscribe (false): the set changes, and then the
  -- command is written if there is a control stream, whose error is returned.
  unfoldable pub set_option : Bool → Bytes → DatagramSub S → Option Error × DatagramSub S
  unfolding write_sub_cmd
  set_option sub topic sk =
      let topics = if sub then add_topic topic sk.topics else delete_topic topic sk.topics in
      elim sk.ctrl [
        | none ↦ (none, record { topics = topics; ctrl = none })
        | some s ↦ written topics (write_sub_cmd sub topic s)
      ]

  -- The loop of Dial over the topics, in the order in which the map is ranged over, which ignores the
  -- errors of its writes.
  unfoldable pub resend : List Bytes → S → S
  unfolding write_sub_cmd
  resend [] s = s
  resend (t ∷ ts) s = resend ts (write_sub_cmd true t s).1

  -- The end of Dial, with the stream that it has opened.
  unfoldable pub connect : List Bytes → S → DatagramSub S → DatagramSub S
  unfolding resend
  connect listing s sk = record sk { ctrl = some (resend listing s) }

-- `matchesTopic`.
unfoldable pub matches_topic : List Bytes → List Bytes → Bool
matches_topic topics [] = false
matches_topic topics (f ∷ fs) = matches topics f

-- A round of `Recv` on a datagram: a malformed or unwanted one is skipped by `next`.
abbrev pub after_parse :
    List Bytes
    → List (Result Bytes)
    → Option ((Msg × Option Error) × List (Result Bytes))
    → Option (Msg × Option Error)
    → Option ((Msg × Option Error) × List (Result Bytes))
after_parse topics rest next none = none
after_parse topics rest next (some (m, some e)) = next
after_parse topics rest next (some (m, none)) =
    if matches_topic topics m.frames then some ((m, none), rest) else next

-- The loop of `Recv` over what `ReceiveDatagram` returns, with what is left of that; `none` means that
-- it waits for more.
unfoldable pub recv :
    List Bytes → List (Result Bytes) → Option ((Msg × Option Error) × List (Result Bytes))
unfolding matches_topic
recv topics [] = none
recv topics (err e ∷ rest) = some ((msg_of [], some e), rest)
recv topics (ok packet ∷ rest) =
    let next = recv topics rest in after_parse topics rest next (deserialize_msg_datagram packet)

-- `DatagramSubSocket.Recv`; `connected` says that qconn is not nil.
unfoldable pub receive :
    Bool → List Bytes → List (Result Bytes) → Option ((Msg × Option Error) × List (Result Bytes))
unfolding recv
receive connected topics packets =
    if connected then recv topics packets else some ((msg_of [], some not_connected), packets)

parse_serialized :
    (msg : Msg)
    → msg.frames ≢ []
    → All Fits msg.frames
    → deserialize_msg_datagram (serialize_msg_datagram msg) ≡ some (msg_of msg.frames, none)
unfolding deserialize_msg_datagram
parse_serialized msg ne fits =
    ap (λ bs. elim (deserialize bs) [ none ↦ none | some p ↦ some (parsed_msg p) ])
      (sym (append-nil (serialize_msg_datagram msg)))
    ∙ ap (λ r. elim r [ none ↦ none | some p ↦ some (parsed_msg p) ])
        (deserialize-serialize msg [] ne fits)

-- A published datagram that comes next is what Recv returns, frames in order, if the subscriber has a
-- topic that is a prefix of the first frame, and is skipped as if it had not come if it has none. The
-- message has at least one frame and every frame is below 2^32 bytes.
pub recv-serialize :
    (topics : List Bytes) (msg : Msg) (rest : List (Result Bytes))
    → msg.frames ≢ []
    → All Fits msg.frames
    → recv topics (ok (serialize_msg_datagram msg) ∷ rest) ≡ (
        if matches_topic topics msg.frames
        then some ((msg_of msg.frames, none), rest)
        else recv topics rest)
unfolding recv
recv-serialize topics msg rest ne fits =
    ap (after_parse topics rest (recv topics rest)) (parse_serialized msg ne fits)
