-- ===== src/Datagram/Codec/SubCmd.antt =====
-- Subscription commands on the control stream: `writeSubCmd` and `readSubCmd`.
use quicmq.Base.{ℕ, suc, ◌^◌, ◌<◌, ◌≡◌, Bool, true, false, ◌∷◌, ◌++◌, length, if◌then◌else◌}
use quicmq.Base.Bytes.{Bytes}
use quicmq.Result.{ok}
use quicmq.Msg.{new_msg}
use quicmq.Wire.Format.{wire_format}
use quicmq.Datagram.Codec.{serialize_msg_datagram, sub_cmd, read_sub_cmd}
use quicmq.Datagram.Codec.RoundTrip.{serialize-format, read_header, read_payload}

abbrev pub command : Bool → ℕ
command subscribe = if subscribe then 0x01 else 0x00

-- `writeSubCmd` writes what the framing makes of the one-frame message [0x01 or 0x00][topic], so
-- the control stream speaks the format of the stream sockets.
pub sub_cmd-serialize :
    (subscribe : Bool) (topic : Bytes)
    → sub_cmd subscribe topic ≡ serialize_msg_datagram (new_msg (command subscribe ∷ topic))
unfolding sub_cmd wire_format
sub_cmd-serialize subscribe topic = rw (serialize-format (new_msg (command subscribe ∷ topic)))

-- `readSubCmd` returns the flag and the topic that `writeSubCmd` was given, and leaves whatever
-- follows, if the topic and its command byte are together below 2^32 bytes.
pub read_sub_cmd-sub_cmd :
    (subscribe : Bool) (topic rest : Bytes)
    → suc (length topic) < 2 ^ 32
    → read_sub_cmd (sub_cmd subscribe topic ++ rest) ≡ ok ((subscribe, topic), rest)
unfolding read_sub_cmd sub_cmd
read_sub_cmd-sub_cmd true topic rest h =
    rw (read_header 0 (0x01 ∷ topic) rest, read_payload (0x01 ∷ topic) rest h, read_sub_cmd)
read_sub_cmd-sub_cmd false topic rest h =
    rw (read_header 0 (0x00 ∷ topic) rest, read_payload (0x00 ∷ topic) rest h, read_sub_cmd)
