-- ===== src/Tests/Conns.antt =====
-- The framed connection on concrete messages.
use quicmq.Base.{suc, ◌≡◌, refl, true, false, some, [], ◌∷◌, ◌++◌, arith, length, ◌⊎◌}
use quicmq.Msg.{msg_of}
use quicmq.Tests.{holding, cut_pipe, store_over, greeting, greeting_bytes}
use quicmq.Result.{closed_conn, net_error, send_flag}
use quicmq.Wire.{put_uint32}
use quicmq.Conn.{
  Store, set_rw, send_msg, send_frames, write_part, is_closed, check_io, set_closed, update, read,
}
use quicmq.Conn.Stream.{Pipe, pipe_io, pipe_io-IsStream}
use quicmq.Conn.Send.{send_msg_failed}
use quicmq.Conn.Read.{Agrees, read-Agrees}
use quicmq.Conn.Transfer.{read-send_msg}
use quicmq.Conn.Closing.{after_close}
use quicmq.Datagram.Codec.{deserialize}

abbrev start : Store Pipe
start = store_over (holding [])

abbrev broken : Store Pipe
broken = store_over cut_pipe

abbrev arrived : Store Pipe
arrived = store_over (holding (greeting_bytes ++ 7 ∷ []))

read-send_msg_example :
    (s : Pipe) × (read pipe_io (suc (length (greeting_bytes ++ 7 ∷ []))) 5 arrived
      ≡ some (msg_of greeting.frames, set_rw arrived 5 s))
    × (s.inbox ≡ 7 ∷ [])
unfolding send_msg send_frames write_part is_closed check_io set_closed pipe_io put_uint32 update
    pipe_io-IsStream
read-send_msg_example =
    read-send_msg pipe_io-IsStream pipe_io-IsStream 3 5 greeting start
      (send_msg pipe_io 3 greeting start).1 arrived greeting_bytes (7 ∷ []) refl refl refl (λ e. cc)
      (omega arith, (omega arith, (omega arith, tt)))

send_msg_failed_example :
    (((broken.conns 3).closed ≡ true)
      × (send_flag (net_error 1) ≡ closed_conn)
      × ((send_msg pipe_io 3 greeting broken).1 ≡ broken))
    ⊎ (((broken.conns 3).closed ≡ false)
        × (s : Pipe) × ((send_msg pipe_io 3 greeting broken).1 ≡ after_close (set_rw broken 3 s) 3))
unfolding send_msg send_frames write_part is_closed check_io set_closed pipe_io put_uint32 update
send_msg_failed_example =
    send_msg_failed pipe_io-IsStream 3 greeting broken (send_msg pipe_io 3 greeting broken).1
      (send_flag (net_error 1)) refl

read-Agrees_example :
    Agrees pipe_io-IsStream 5 arrived
      (deserialize (greeting_bytes ++ 7 ∷ []))
      (read pipe_io (suc (length (greeting_bytes ++ 7 ∷ []))) 5 arrived)
unfolding pipe_io-IsStream
read-Agrees_example = read-Agrees pipe_io-IsStream 5 arrived
