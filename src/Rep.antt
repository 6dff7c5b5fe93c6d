-- ===== src/Rep.antt =====
-- rep.go: the REP socket. Its reader fans requests in, its state remembers whom to answer, and its
-- writer hands each reply to the goroutine that sends it.
pub mod Closing
pub mod Envelope
pub mod Routing
use quicmq.Base.{
  ℕ, zero, suc, ◌+◌, Bool, true, false, Option, none, some, List, [], ◌∷◌, ◌++◌, length, ltb, take,
  drop, ◌==◌, if◌then◌else◌,
}
use quicmq.Base.Conns.{remove_conn}
use quicmq.Base.Bytes.{Bytes}
use quicmq.Result.{Error, rep_invalid_request, rep_no_request}
use quicmq.Msg.{Msg, msg_of}
use quicmq.Sub.{close_loop}
use quicmq.Conn.{NetConn, Store, send_msg, read, close_conn}

pub record RepMsg : Type 0 where
  pub conn : ℕ
  pub msg : Msg

-- The last requester and the envelope of its request, delimiter included.
pub record RepState : Type 0 where
  pub conn : Option ℕ
  pub preamble : List Bytes

pub record Payload : Type 0 where
  pub conn : ℕ
  pub preamble : List Bytes
  pub msg : Msg

-- `msg_ch` holds qsize = 10 messages at most. `running` is the payload that the writer's goroutine
-- has taken off the unbuffered `sendCh` and not sent yet.
pub record RepSocket (S : Type 0) : Type 0 where
  pub state : RepState
  pub reader_conns : List ℕ
  pub msg_ch : List RepMsg
  pub writer_conns : List ℕ
  pub running : Option Payload
  pub store : Store S

abbrev pub qsize : ℕ
qsize = 10

unfoldable pub new_state : RepState
new_state = record { conn = none; preamble = [] }

unfoldable pub set : RepState → ℕ → List Bytes → RepState
set r c pre = record { conn = some c; preamble = pre }

unfoldable pub clear : RepState → RepState
clear r = record { conn = none; preamble = [] }

-- The loop of `splitReq` from frame i on; `all` is `envelope.Frames`. `none` is a nil preamble.
unfoldable pub split_loop : List Bytes → ℕ → List Bytes → Option (List Bytes × Msg)
split_loop whole i [] = none
split_loop whole i ([] ∷ rest) = some (
  take (i + 1) whole,
  if ltb (i + 1) (length whole) then msg_of (drop (i + 1) whole) else msg_of [],
)
split_loop whole i ((b ∷ bs) ∷ rest) = split_loop whole (i + 1) rest

unfoldable pub split_req : Msg → Option (List Bytes × Msg)
unfolding split_loop
split_req m = split_loop m.frames 0 m.frames

unfoldable pub build_reply_msg : Payload → Msg
build_reply_msg p = msg_of (p.preamble ++ p.msg.frames)

module _ {S : Type 0} where
  unfoldable pub add_reader_conn : RepSocket S → ℕ → RepSocket S
  add_reader_conn sk c = record sk { reader_conns = sk.reader_conns ++ c ∷ [] }

  unfoldable pub rm_reader_conn : RepSocket S → ℕ → RepSocket S
  rm_reader_conn sk c = record sk { reader_conns = remove_conn c sk.reader_conns }

  unfoldable pub add_writer_conn : RepSocket S → ℕ → RepSocket S
  add_writer_conn sk c = record sk { writer_conns = sk.writer_conns ++ c ∷ [] }

  unfoldable pub rm_writer_conn : RepSocket S → ℕ → RepSocket S
  rm_writer_conn sk c = record sk { writer_conns = remove_conn c sk.writer_conns }

  abbrev pub accept_request :
      RepSocket S → RepMsg → Option (List Bytes × Msg) → (Msg × Option Error) × RepSocket S
  accept_request sk rm none = ((msg_of [], some rep_invalid_request), sk)
  accept_request sk rm (some (pre, inner)) =
      ((inner, none), record sk { state = set sk.state rm.conn pre })

  abbrev pub take_request : RepSocket S → RepMsg → Option Error → (Msg × Option Error) × RepSocket S
  take_request sk rm (some e) = ((msg_of [], some e), sk)
  take_request sk rm none = accept_request sk rm (split_req rm.msg)

  -- `repSocket.Recv`. With both cases of its `select` ready Go takes either: `cancelled` is the
  -- error of the context where that case is taken. `none`: it waits for a request.
  unfoldable pub recv_from : RepSocket S → List RepMsg → Option ((Msg × Option Error) × RepSocket S)
  unfolding set
  recv_from sk [] = none
  recv_from sk (rm ∷ rest) = some (take_request (record sk { msg_ch = rest }) rm rm.msg.err)

  unfoldable pub recv : Option Error → RepSocket S → Option ((Msg × Option Error) × RepSocket S)
  unfolding recv_from
  recv (some e) sk = some ((msg_of [], some e), sk)
  recv none sk = recv_from sk sk.msg_ch

  -- `repWriter.write` after `state.get`: the hand-over needs the goroutine at its receive.
  unfoldable pub hand_over :
      RepSocket S → ℕ → Msg → Option Payload → Option (Option Error × RepSocket S)
  hand_over sk c msg (some busy) = none
  hand_over sk c msg none = some (
    none,
    record sk {
      running = some (record { conn = c; preamble = sk.state.preamble; msg = msg });
      state = clear sk.state;
    },
  )

  unfoldable pub write_to :
      Option Error → RepSocket S → Msg → Option ℕ → Option (Option Error × RepSocket S)
  unfolding hand_over clear
  write_to cancelled sk msg none = some (some rep_no_request, sk)
  write_to (some e) sk msg (some c) = some (some e, sk)
  write_to none sk msg (some c) = hand_over sk c msg sk.running

  -- `repSocket.Send`. `none`: it waits for the goroutine.
  unfoldable pub send : Option Error → Msg → RepSocket S → Option (Option Error × RepSocket S)
  unfolding write_to
  send cancelled msg sk = write_to cancelled sk msg sk.state.conn

  unfoldable pub send_multi : Option Error → Msg → RepSocket S → Option (Option Error × RepSocket S)
  unfolding send
  send_multi cancelled msg sk = send cancelled (record msg { multipart = true }) sk

  module _ (io : NetConn S) where
    -- The loop of `sendPayload` over the registered connections.
    unfoldable pub send_to : Payload → List ℕ → Store S → Store S
    unfolding build_reply_msg
    send_to p [] st = st
    send_to p (c ∷ cs) st =
        let rest = send_to p cs st in
        if c == p.conn then (send_msg io c (build_reply_msg p) st).1 else rest

    unfoldable pub send_payload : RepSocket S → Option Payload → RepSocket S
    unfolding send_to
    send_payload sk none = sk
    send_payload sk (some p) = record sk {
      running = none;
      store = send_to p sk.writer_conns sk.store;
    }

    -- One round of `run` on a payload that it has received.
    unfoldable pub run_step : RepSocket S → RepSocket S
    unfolding send_payload
    run_step sk = send_payload sk sk.running

    -- `repReader.Close`.
    unfoldable pub close_reader : RepSocket S → Option Error × RepSocket S
    unfolding close_loop
    close_reader sk =
        let (e, st) = close_loop io sk.reader_conns none sk.store in
        (e, record sk { reader_conns = []; store = st })

    -- What `listen` does with a message that `conn.read` returned, while the context is not done:
    -- an error ends the goroutine, which closes and forgets the connection. `none`: it waits for
    -- room in `msgCh`.
    unfoldable pub enqueue : RepSocket S → ℕ → Msg → Option Error → Option (Bool × RepSocket S)
    unfolding close_conn rm_reader_conn
    enqueue sk c msg (some e) =
        let (_, st) = close_conn io c sk.store in
        some (false, rm_reader_conn (record sk { store = st }) c)
    enqueue sk c msg none =
        if ltb (length sk.msg_ch) qsize
        then some (true, record sk { msg_ch = sk.msg_ch ++ record { conn = c; msg = msg } ∷ [] })
        else none

    unfoldable pub listen_step : RepSocket S → ℕ → Msg → Option (Bool × RepSocket S)
    unfolding enqueue
    listen_step sk c msg = enqueue sk c msg msg.err
