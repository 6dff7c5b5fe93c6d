-- ===== src/Tests/Replies.antt =====
-- The REP socket on concrete requests.
use quicmq.Base.{suc, ◌≡◌, refl, false, none, some, List, [], ◌∷◌, ◌++◌, arith, length}
use quicmq.Base.Bytes.{Bytes}
use quicmq.Base.Conns.{count_conn}
use quicmq.Result.{rep_no_request}
use quicmq.Msg.{Msg, msg_of}
use quicmq.Conn.{send_msg, send_frames, write_part, is_closed, check_io, set_closed, update}
use quicmq.Conn.Stream.{Pipe, pipe_io, pipe_io-IsStream}
use quicmq.Wire.{put_uint32}
use quicmq.Tests.{holding, store_over, greeting, greeting_bytes}
use quicmq.Req.{ReqSocket, recv, new_state}
use quicmq.Rep.{
  RepMsg, RepSocket, Payload, send_payload, split_req, split_loop, build_reply_msg, run_step, send,
  send_to,
}
use quicmq.Rep
use quicmq.Rep.Routing.{reply_to, send-recv}
use quicmq.Exchange.Reply.{as_received, plain_reply, reply_arrives}

-- Two identity frames, the delimiter, a payload.
abbrev routed : Msg
routed = msg_of ((1 ∷ []) ∷ (2 ∷ []) ∷ [] ∷ (9 ∷ []) ∷ [])

abbrev route : List Bytes
route = (1 ∷ []) ∷ (2 ∷ []) ∷ [] ∷ []

abbrev waiting : RepSocket Pipe
waiting = record {
  state = record { conn = none; preamble = [] };
  reader_conns = 5 ∷ [];
  msg_ch = record { conn = 5; msg = routed } ∷ [];
  writer_conns = 5 ∷ [];
  running = none;
  store = store_over (holding []);
}

send-recv_example :
    (sk1 : RepSocket Pipe) × (sk2 : RepSocket Pipe) × (Rep.recv none waiting
      ≡ some ((msg_of ((9 ∷ []) ∷ []), none), sk1))
    × (send none greeting sk1 ≡ some (none, sk2))
    × (sk2.running ≡ some (reply_to (record { conn = 5; msg = routed }) route greeting))
    × (sk2.msg_ch ≡ [])
    × (send none routed sk2 ≡ some (some rep_no_request, sk2))
unfolding split_req split_loop
send-recv_example =
    send-recv waiting (record { conn = 5; msg = routed }) [] route (msg_of ((9 ∷ []) ∷ [])) greeting
      routed none refl refl refl refl

abbrev replying : RepSocket Pipe
replying = record waiting { running = some (plain_reply 5 greeting) }

abbrev reply_bytes : Bytes
reply_bytes = 1 ∷ 0 ∷ 0 ∷ 0 ∷ 0 ∷ greeting_bytes

abbrev requester : ReqSocket Pipe
requester = record {
  state = record { last_conn = some 3; ready_to_req = false };
  writer = record { conns = 3 ∷ []; next_conn = 0 };
  store = store_over (holding reply_bytes);
}

reply_arrives_example :
    (sk2 : ReqSocket Pipe) × (recv pipe_io (suc (length (reply_bytes ++ []))) requester
      ≡ some ((msg_of (as_received greeting.frames), none), sk2))
    × (sk2.state ≡ new_state)
unfolding run_step send_payload send_to build_reply_msg count_conn send_msg send_frames write_part
    is_closed check_io set_closed pipe_io put_uint32 update pipe_io-IsStream
reply_arrives_example =
    reply_arrives pipe_io-IsStream pipe_io-IsStream replying requester 3 5 greeting
      (send_msg pipe_io 5 (build_reply_msg (plain_reply 5 greeting)) replying.store).1 reply_bytes
      [] refl (omega arith) refl refl refl refl (omega arith, (omega arith, (omega arith, tt)))
