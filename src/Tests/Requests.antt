-- ===== src/Tests/Requests.antt =====
-- The REQ socket on concrete calls.
use quicmq.Base.{
  ℕ, suc, ◌+◌, ◌≤◌, ◌≡◌, refl, true, false, none, some, List, [], ◌∷◌, ◌++◌, arith, length,
}
use quicmq.Base.Bytes.{Bytes}
use quicmq.Result.{req_pending}
use quicmq.Msg.{Msg, msg_of}
use quicmq.Conn.{
  set_rw, read, send_msg, send_frames, write_part, is_closed, check_io, set_closed, update,
}
use quicmq.Conn.Stream.{Pipe, pipe_io, pipe_io-IsStream}
use quicmq.Wire.{put_uint32}
use quicmq.Tests.{holding, store_over, greeting, greeting_bytes}
use quicmq.Req.{
  ReqSocket, send, write, write_to, write_loop, begin_request, set, add_conn, rm_conn, reset,
}
use quicmq.Req.Fsm.{step-Trans, run-alternates, sent_count, ended_count}
use quicmq.Req.Fsm.Machine.{
  Call, Event, sends, adds, removes, send_ends, conn_added, conn_removed, step, run, Trans,
}
use quicmq.Rep
use quicmq.Rep.{RepSocket, listen_step, enqueue}
use quicmq.Exchange.Request.{request_arrives}

abbrev pub fresh : List ℕ → ReqSocket Pipe
fresh cs = record {
  state = record { last_conn = none; ready_to_req = true };
  writer = record { conns = cs; next_conn = 0 };
  store = store_over (holding []);
}

abbrev sent_once : ReqSocket Pipe
sent_once = (send pipe_io greeting (fresh (3 ∷ []))).1

step-Trans_example : Trans true (send_ends none) false
unfolding step send write write_to write_loop begin_request set send_msg send_frames write_part
    is_closed check_io set_closed pipe_io put_uint32 update
step-Trans_example =
    step-Trans pipe_io (sends greeting) (fresh (3 ∷ [])) sent_once (send_ends none) refl

-- A message with no frame: only the delimiter goes out.
abbrev ping : Msg
ping = msg_of []

abbrev session : List Call
session = adds 4 ∷ sends ping ∷ sends ping ∷ removes 4 ∷ []

abbrev trace : List Event
trace = conn_added ∷ send_ends none ∷ send_ends (some req_pending) ∷ conn_removed ∷ []

abbrev after_session : ReqSocket Pipe
after_session = rm_conn (send pipe_io ping (add_conn (fresh []) 4)).1 4

run-alternates_example : 1 ≤ 1 + 1
unfolding step run send write write_to write_loop begin_request set reset add_conn rm_conn
    sent_count ended_count send_msg send_frames write_part is_closed check_io set_closed pipe_io
    put_uint32 update
run-alternates_example = run-alternates pipe_io session (fresh []) after_session trace refl

-- The replier, with the request's bytes in its pipe.
abbrev pub request_bytes : Bytes
request_bytes = 1 ∷ 0 ∷ 0 ∷ 0 ∷ 0 ∷ greeting_bytes

abbrev pub replier : RepSocket Pipe
replier = record {
  state = record { conn = none; preamble = [] };
  reader_conns = 5 ∷ [];
  msg_ch = [];
  writer_conns = 5 ∷ [];
  running = none;
  store = store_over (holding request_bytes);
}

request_arrives_example :
    (m : Msg) × (s : Pipe) × (rep1 : RepSocket Pipe) × (rep2 : RepSocket Pipe) × (read pipe_io
        (suc (length (request_bytes ++ [])))
        5
        replier.store
      ≡ some (m, set_rw replier.store 5 s))
    × (listen_step pipe_io (record replier { store = set_rw replier.store 5 s }) 5 m
        ≡ some (true, rep1))
    × (Rep.recv none rep1 ≡ some ((msg_of greeting.frames, none), rep2))
    × (rep2.state ≡ record { conn = some 5; preamble = [] ∷ [] })
    × (sent_once.state ≡ record { last_conn = some 3; ready_to_req = false })
unfolding send write write_to write_loop begin_request set send_msg send_frames write_part is_closed
    check_io set_closed pipe_io put_uint32 update pipe_io-IsStream
request_arrives_example =
    request_arrives pipe_io-IsStream pipe_io-IsStream (fresh (3 ∷ [])) sent_once replier 3 5
      greeting request_bytes [] refl refl refl refl refl
      (omega arith, (omega arith, (omega arith, tt)))
