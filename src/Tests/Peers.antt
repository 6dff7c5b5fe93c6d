-- ===== src/Tests/Peers.antt =====
-- Datagram publisher and subscriber on concrete peers.
use quicmq.Base.{ℕ, suc, ◌≡◌, refl, true, false, none, some, List, [], ◌∷◌, arith, if◌then◌else◌}
use quicmq.Base.Bytes.{Bytes}
use quicmq.Base.Conns.{count_conn}
use quicmq.Result.{ok, net_error}
use quicmq.Msg.{msg_of}
use quicmq.Datagram.Codec.{serialize_msg_datagram}
use quicmq.Datagram.Peers.{DatagramConn, Hub, send}
use quicmq.Datagram.Subscriber.{recv, set_option, write_sub_cmd, resend, connect}
use quicmq.Conn.Stream.{Pipe, pipe_io, pipe_io-IsStream}
use quicmq.Tests.{holding, cut_pipe}
use quicmq.Conn.{matches, has_topic, add_topic, delete_topic}
use quicmq.Sub.{subscribe}
use quicmq.Wire.{put_uint32}
use quicmq.Datagram.Codec.{sub_cmd}
use quicmq.Sub.Sync.{Change, as_changes, own_topics}
use quicmq.Conn.TopicSet.{SameTopics}
use quicmq.Datagram.Control.{change_all, dialed_sub, handle_all, pipe_control}
use quicmq.Base.Bytes.{beq}
use quicmq.Base.{false}
use quicmq.Msg.{Msg}
use quicmq.Result.{Result}
use quicmq.Exchange.Broadcast.{datagram_arrives}

-- A connection whose every datagram fails.
abbrev failing : DatagramConn ℕ
failing = record { supports = λ _. true; send_datagram = λ n bs. (some (net_error 1), suc n) }

abbrev settings_before : List Change
settings_before = (true, 97 ∷ []) ∷ (true, 98 ∷ []) ∷ (false, 97 ∷ []) ∷ []

abbrev settings_after : List Change
settings_after = (true, 99 ∷ []) ∷ []

abbrev no_topics : Hub ℕ
no_topics = record { peer_list = 3 ∷ []; peers = λ _. record { qconn = 0; topics = [] } }

abbrev control_bytes : Bytes
control_bytes = 0 ∷ 0 ∷ 0 ∷ 0 ∷ 2 ∷ 1 ∷ 98 ∷ 0 ∷ 0 ∷ 0 ∷ 0 ∷ 2 ∷ 1 ∷ 99 ∷ []

only_b : SameTopics ((98 ∷ []) ∷ []) (own_topics settings_before [])
unfolding has_topic own_topics subscribe add_topic delete_topic beq
only_b k = refl

-- The control stream once the three commands are on it.
abbrev control_stream : Pipe
control_stream = record (holding []) { outbox = control_bytes }

-- Over a stream that is cut, Dial keeps the topics, sends nothing and sees no error; the next SetOption
-- reports one, and keeps its topic all the same.
cut_control :
    dialed_sub pipe_io settings_before ((98 ∷ []) ∷ []) cut_pipe settings_after
    ≡ (some (net_error 1), record { topics = (98 ∷ []) ∷ (99 ∷ []) ∷ []; ctrl = some cut_pipe })
unfolding change_all set_option resend connect write_sub_cmd pipe_io add_topic delete_topic
    has_topic beq
cut_control = refl

abbrev topic_only : Msg
topic_only = msg_of ((99 ∷ 33 ∷ []) ∷ [])

abbrev own : List Bytes
own = (dialed_sub pipe_io settings_before ((98 ∷ []) ∷ []) (holding []) settings_after).1.topics

datagram_arrives_example :
    (((send failing topic_only (handle_all 2 control_bytes 3 no_topics)).1.peers 3).qconn
      ≡ (if matches own (99 ∷ 33 ∷ []) then 1 else 0))
    × ((rest : List (Result Bytes))
        → recv own (ok (serialize_msg_datagram topic_only) ∷ rest) ≡ (
            if matches own (99 ∷ 33 ∷ [])
            then some ((msg_of topic_only.frames, none), rest)
            else recv own rest))
unfolding change_all set_option resend connect write_sub_cmd sub_cmd put_uint32 as_changes
    count_conn pipe_io pipe_io-IsStream pipe_control
datagram_arrives_example =
    datagram_arrives pipe_io-IsStream pipe_control failing settings_before settings_after
      ((98 ∷ []) ∷ []) (holding []) control_stream no_topics 3 2 topic_only (99 ∷ 33 ∷ []) [] refl
      refl refl only_b (omega arith, (omega arith, tt)) refl refl refl (omega arith) refl
      (omega arith, tt)
