-- ===== src/Tests/Opening.antt =====
-- Dial, reconnect, the options and the endpoints on concrete inputs.
use quicmq.Base.{ℕ, zero, suc, ◌<◌, ◌≡◌, refl, true, false, Option, none, some, [], ◌∷◌, arith}
use quicmq.Base.Bytes.{Bytes}
use quicmq.Base.Conns.{count_conn}
use quicmq.Result.{ok, net_error, send_flag, Result}
use quicmq.Msg.{sub_type}
use quicmq.Conn.{Store, send_msg, send_frames, write_part, is_closed, check_io, set_closed, update}
use quicmq.Conn.Stream.{Pipe, pipe_io, pipe_io-IsStream}
use quicmq.Tests.{holding, cut_pipe, store_over, greeting}
use quicmq.Tests.Sockets.{pool, growing}
use quicmq.Sub.{MWriter, on_conn_added}
use quicmq.Reader
use quicmq.Reader.{QReader}
use quicmq.Options.{default_config}
use quicmq.Socket.{Pool, BaseSocket, reap}
use quicmq.Socket.Pools.{InStep, mwriter_pool, mwriter_pool-IsPool}
use quicmq.Socket.Dialing.{Attempt, slept}
use quicmq.Socket.Opening
use quicmq.Socket.Opening.{Socket}
use quicmq.Socket.Opening.Outcome.{Outcome}
use quicmq.Socket.Failure.{Removed, reconnects_after, failed_conn_leaves}
use quicmq.Socket.Reconnecting.{
  Round, connected, reconnect, growing_waits, FailsDial, reconnect_growing,
}
use quicmq.Transport.Contexts.{Contexts, IsContexts, CtxKey, CtxValue, same_key}
use quicmq.Base.{if◌then◌else◌}
use quicmq.Options.{Config}
use quicmq.Transport.{split_addr}
use quicmq.Transport.Endpoint.{FirstSplit, split_addr_lem}

abbrev base : BaseSocket Pipe MWriter MWriter
base = record { conns = 3 ∷ 4 ∷ 5 ∷ []; r = pool; w = pool; store = store_over cut_pipe }

abbrev dials_on : Attempt Pipe
dials_on = record {
  dialed = ok (some (holding []));
  budget_over = false;
  socket_over = false;
  pause = slept;
}

abbrev endpoint : Bytes
endpoint = 117 ∷ 58 ∷ 47 ∷ 47 ∷ 97 ∷ []

base-InStep : InStep mwriter_pool-IsPool mwriter_pool-IsPool base
unfolding mwriter_pool-IsPool
base-InStep = record { reading = refl; writing = refl }

-- A SUB socket with one topic, over its queue and its writer, that dials through transport 1, whatever
-- the scheme.
abbrev queue_pool : Pool (QReader Pipe)
queue_pool = record { add_conn = Reader.add_conn; rm_conn = Reader.rm_conn }

abbrev announces : ℕ → Store Pipe → Store Pipe
announces c st = on_conn_added pipe_io c ((97 ∷ []) ∷ []) st

abbrev sub_base : BaseSocket Pipe (QReader Pipe) MWriter
sub_base = record {
  conns = base.conns;
  r = record { rs = base.conns; ch = []; sem = record { ready = true }; store = base.store };
  w = pool;
  store = base.store;
}

abbrev sub_socket : Socket Pipe (QReader Pipe) MWriter
sub_socket = record {
  settings = record {
    typ = sub_type;
    config = record (default_config 0) { dial_transport = some 1 };
    drivers = [];
  };
  base = sub_base;
  ep = [];
  fresh = 6;
  listener = none;
  closed_listeners = [];
  reaper_started = false;
  cancelled = false;
}

failed_conn_leaves_example :
    Removed mwriter_pool-IsPool mwriter_pool-IsPool 4 (reconnects_after base.store.reaper) (
      reap mwriter_pool mwriter_pool
        (record base { store = (send_msg pipe_io 4 greeting base.store).1 }))
unfolding send_msg send_frames write_part is_closed check_io set_closed pipe_io update count_conn
failed_conn_leaves_example =
    failed_conn_leaves mwriter_pool-IsPool mwriter_pool-IsPool pipe_io-IsStream 4 greeting base
      (send_msg pipe_io 4 greeting base.store).1 (send_flag (net_error 1)) base-InStep refl refl
      refl refl

abbrev fails_round : Round
fails_round = record {
  over_at_start = false;
  drawn = 0;
  over_waiting = false;
  over_after = false;
  dial_error = some (net_error 1);
}

abbrev dials_round : Round
dials_round = record fails_round { dial_error = none }

third_time : ℕ → Round
third_time zero = fails_round
third_time (suc zero) = fails_round
third_time (suc (suc n)) = dials_round

twice_FailsDial : (j : ℕ) → j < 2 → FailsDial (third_time j)
unfolding third_time
twice_FailsDial zero h = (net_error 1, (refl, refl, refl, refl))
twice_FailsDial (suc zero) h = (net_error 1, (refl, refl, refl, refl))
twice_FailsDial (suc (suc j)) h = absurd (omega arith)

reconnect_growing_example :
    reconnect growing third_time 3 ≡ some (connected, growing_waits growing 3 0)
unfolding third_time
reconnect_growing_example =
    reconnect_growing growing third_time 2 (omega arith) (omega arith) (omega arith) twice_FailsDial
      (refl, refl, refl, refl)

split_addr_lem_example : FirstSplit endpoint (split_addr endpoint)
split_addr_lem_example = split_addr_lem endpoint

-- Contexts as functions from keys.
abbrev pub functions : Contexts (CtxKey → Option CtxValue)
functions = record {
  with_value = λ c k v j. if same_key k j then some v else c j;
  value = λ c j. c j;
  with_timeout = λ c d. c;
}

pub functions-IsContexts : IsContexts functions
functions-IsContexts = record { stored = λ c k j v. refl; timed = λ c d j. refl }

abbrev pub traced_config : Config
traced_config = record (default_config 4) { qlog_dir = 47 ∷ []; dial_timeout = 9 }
