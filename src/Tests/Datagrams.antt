-- ===== src/Tests/Datagrams.antt =====
-- The packed form and the subscription commands on concrete bytes.
use quicmq.Base.{◌≡◌, refl, none, some, List, [], ◌∷◌, ◌++◌, arith}
use quicmq.Base.Bytes.{Bytes}
use quicmq.Msg.{new_msg}
use quicmq.Tests.{greeting}
use quicmq.Result.{Error}
use quicmq.Wire.{put_uint32}
use quicmq.Datagram.Codec.{serialize_msg_datagram, deserialize}
use quicmq.Datagram.Codec.RoundTrip.{deserialize-serialize}
use quicmq.Datagram.Codec.Robust.{deserialize_truncated}

deserialize-serialize_example :
    deserialize (serialize_msg_datagram greeting ++ 7 ∷ []) ≡ some (greeting.frames, 7 ∷ [], none)
deserialize-serialize_example =
    deserialize-serialize greeting (7 ∷ []) (λ e. cc)
      (omega arith, (omega arith, (omega arith, tt)))

deserialize_truncated_example :
    (fs : List Bytes) × (rest : Bytes) × (e : Error) × (deserialize (0 ∷ 0 ∷ 0 ∷ 0 ∷ 2 ∷ 9 ∷ [])
      ≡ some (fs, rest, some e))
unfolding serialize_msg_datagram put_uint32
deserialize_truncated_example =
    deserialize_truncated (new_msg (9 ∷ 8 ∷ [])) (0 ∷ 0 ∷ 0 ∷ 0 ∷ 2 ∷ 9 ∷ []) [] 8 (λ e. cc)
      (omega arith, tt) refl
