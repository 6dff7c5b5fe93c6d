-- ===== src/Tests/Delivery.antt =====
-- A publication from end to end, and the queues on the way, on concrete messages.
use quicmq.Base.{suc, ◌≡◌, refl, true, false, none, some, List, [], ◌∷◌, ◌++◌, arith, length}
use quicmq.Base.Bytes.{has_prefix, beq}
use quicmq.Base.Int.{pos}
use quicmq.Result.{net_error}
use quicmq.Wire.{put_uint32}
use quicmq.Msg.{msg_of}
use quicmq.Conn.{
  has_topic, set_rw, read, send_msg, send_frames, write_part, is_closed, check_io, set_closed,
  update, matches, subscribed,
}
use quicmq.Conn.Stream.{Pipe, pipe_io, pipe_io-IsStream}
use quicmq.Conn.Topics.{HasMatch}
use quicmq.Tests.{holding, store_over, greeting, greeting_bytes}
use quicmq.Pub.{
  topic_of, write_loop, add_conn, without, channels_of, hands_over, set_option, int_value,
  PubWriter, Subscriber, write, pump, new_pub_writer,
}
use quicmq.Pub.Bounds.{
  sets, pump_at, Op, writes, adds, pumps, op_all, op, Sizing, sizing_all, Bounded, op_all-Bounded,
}
use quicmq.Reader.{QReader}
use quicmq.Reader.Order.{Action, listens, receives, History}
use quicmq.Exchange.Publication.{idle, PassesOn, publication_arrives}
use quicmq.Tests.Publishing.{topic_store}

abbrev queue : QReader Pipe
queue = record {
  rs = 5 ∷ [];
  ch = [];
  sem = record { ready = true };
  store = store_over (holding (greeting_bytes ++ 7 ∷ []));
}

abbrev publisher : PubWriter
publisher = record { subscribers = some (idle 4 1 ∷ idle 3 1 ∷ []); detached = []; hwm = pos 1 }

topic_HasMatch : HasMatch (topic_store.conns 3).topics (104 ∷ 105 ∷ [])
unfolding update has_topic has_prefix beq
topic_HasMatch = (104 ∷ [], refl, refl)

publication_arrives_example :
    (before1 : List Subscriber) × (after1 : List Subscriber) × (t : Subscriber)
    × (taken : Subscriber) × (s : Pipe) × (write false
          (net_error 1)
          (λ _. true)
          topic_store
          greeting
          publisher
        ≡ (none, record publisher { subscribers = some (before1 ++ t ∷ after1) }))
    × (length before1 ≡ 1)
    × (pump pipe_io t topic_store ≡ (taken, topic_store))
    × (pump pipe_io taken topic_store ≡ (idle 3 1, (send_msg pipe_io 3 greeting topic_store).1))
    × (read pipe_io (suc (length (greeting_bytes ++ 7 ∷ []))) 5 queue.store
        ≡ some (msg_of greeting.frames, set_rw queue.store 5 s))
    × PassesOn pipe_io (record queue { store = set_rw queue.store 5 s }) 5 (msg_of greeting.frames)
unfolding send_msg send_frames write_part is_closed check_io set_closed pipe_io put_uint32 update
    pipe_io-IsStream topic_of
publication_arrives_example =
    publication_arrives pipe_io-IsStream pipe_io-IsStream (net_error 1) (λ _. true) publisher
      topic_store (send_msg pipe_io 3 greeting topic_store).1 queue 3 1 5 (idle 4 1 ∷ []) []
      greeting greeting_bytes (7 ∷ []) refl (omega arith) topic_HasMatch refl refl refl refl refl
      (λ e. cc) (omega arith, (omega arith, (omega arith, tt)))

abbrev empty_history : History Pipe
empty_history = record { reader = queue; queued = []; returned = [] }

abbrev actions : List Action
actions =
    listens false 5 greeting ∷ listens false 6 (msg_of []) ∷ receives ∷ listens true 5 greeting ∷ []

abbrev start : Sizing
start = record { mark = pos 1000; size = λ _. 0; most = 0 }

new-Bounded : Bounded start new_pub_writer
unfolding new_pub_writer
new-Bounded = record { marked = refl; in_map = tt; outside = tt }

abbrev ops : List Op
ops =
    sets true (int_value (pos 1))
    ∷ adds 3
    ∷ writes false (net_error 1) (λ _. true) greeting
    ∷ pumps 0
    ∷ writes false (net_error 1) (λ _. true) greeting
    ∷ writes false (net_error 1) (λ _. true) greeting
    ∷ []

-- One message is on its way out, one is in the channel, and the third was dropped.
abbrev full_writer : PubWriter
full_writer = record {
  subscribers =
      some (record { conn = 3; cap = 1; buf = greeting ∷ []; sending = some greeting } ∷ []);
  detached = [];
  hwm = pos 1;
}

op_all-Bounded_example : Bounded (sizing_all ops start) full_writer
unfolding op_all op new_pub_writer topic_of subscribed matches has_prefix beq update write
    write_loop pump_at pump add_conn without channels_of hands_over set_option
op_all-Bounded_example =
    op_all-Bounded pipe_io ops start new_pub_writer full_writer topic_store topic_store new-Bounded
      refl
