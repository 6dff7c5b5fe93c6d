-- ===== src/Tests/Links.antt =====
-- Two pipes as the ends of one connection.
use quicmq.Base.{
  ℕ, ◌≡◌, refl, true, false, none, some, List, [], ◌∷◌, ◌++◌, arith, Bool-cases, inl, inr, All,
}
use quicmq.Msg.{Msg, msg_of}
use quicmq.Conn.{Store, subscribed}
use quicmq.Conn.Stream.{Pipe, pipe_io, pipe_io-IsStream}
use quicmq.Base.Bytes.{beq}
use quicmq.Conn.TopicSet.{last_for, subscribe_all, topic_set, last_commands_count}
use quicmq.Conn.Link.{pipe_link, arrive, new_bytes}
use quicmq.Conn.Link.Ends.{AtEnd}
use quicmq.Conn.Link.Messages.{send_all, read_all, as_read, Readable, messages_arrive}
use quicmq.Base.Conns.{count_conn}
use quicmq.Base.Bytes.{Bytes}
use quicmq.Wire.Format.{wire_format}
use quicmq.Sub.{MWriter, lock_passes}
use quicmq.Sub.Broadcast.{copies, IsReady, sent_on}
use quicmq.Pub.{Subscriber}
use quicmq.Pub.Stream.{pump_all, emptied, channel_arrives}
use quicmq.Socket.{BaseSocket}
use quicmq.Socket.Traffic.{send, mwriter_writes, send-copies}
use quicmq.Tests.{greeting, store_over, holding}

abbrev quiet : Store Pipe
quiet = store_over (holding [])

quiet-AtEnd : (c : ℕ) → AtEnd pipe_link c [] [] quiet
unfolding pipe_link pipe_io-IsStream
quiet-AtEnd c = record { is_open = refl; working = refl; waits = refl; wrote = refl }

abbrev two : List Msg
two = greeting ∷ msg_of ([] ∷ []) ∷ []

two-Readable : All Readable two
two-Readable = (
  ((λ e. cc), (omega arith, (omega arith, (omega arith, tt)))),
  (((λ e. cc), (omega arith, tt)), tt),
)

messages_arrive_example :
    (st1 : Store Pipe) × (to1 : Store Pipe) × (send_all pipe_io 3 two quiet ≡ (none, st1))
    × (read_all pipe_link 5 2
          (arrive pipe_link 5 (new_bytes pipe_link (quiet.conns 3).rw (st1.conns 3).rw) quiet)
        ≡ some (as_read two, to1))
    × AtEnd pipe_link 5 [] [] to1
messages_arrive_example =
    messages_arrive pipe_link pipe_link 3 5 two [] [] [] quiet quiet two-Readable (quiet-AtEnd 3)
      (quiet-AtEnd 5)

-- A socket with connections 3 and 4.
abbrev spreading : BaseSocket Pipe Bytes MWriter
spreading = record {
  conns = 3 ∷ 4 ∷ [];
  r = [];
  w = record { ws = 3 ∷ 4 ∷ []; sem = record { ready = true } };
  store = quiet;
}

quiet-IsReady : (c : ℕ) → IsReady pipe_link quiet c
unfolding pipe_link
quiet-IsReady c = record { is_open = refl; working = refl }

send-copies_example :
    (st : Store Pipe) × (send (mwriter_writes pipe_io) false greeting spreading
      ≡ some (none, record spreading { store = st }))
    × ((c : ℕ)
        → sent_on pipe_link st c
          ≡ sent_on pipe_link quiet c
            ++ copies (count_conn c (3 ∷ 4 ∷ [])) (wire_format greeting.frames))
unfolding lock_passes
send-copies_example =
    send-copies pipe_link false greeting spreading refl refl
      (quiet-IsReady 3, (quiet-IsReady 4, tt))

-- A subscriber that holds a message, with another in its channel.
abbrev behind : Subscriber
behind = record { conn = 3; cap = 2; buf = msg_of ([] ∷ []) ∷ []; sending = some greeting }

channel_arrives_example :
    (st1 : Store Pipe) × (to1 : Store Pipe) × (pump_all pipe_io 3 behind quiet
      ≡ (emptied behind, st1))
    × (read_all pipe_link 5 2
          (arrive pipe_link 5 (new_bytes pipe_link (quiet.conns 3).rw (st1.conns 3).rw) quiet)
        ≡ some (as_read two, to1))
    × AtEnd pipe_link 5 [] [] to1
channel_arrives_example =
    channel_arrives pipe_link pipe_link behind 5 [] [] [] quiet quiet two-Readable (quiet-AtEnd 3)
      (quiet-AtEnd 5)

-- A topic that is given up and taken again.
taken_again :
    (j : Bytes)
    → last_for j ((false, 97 ∷ []) ∷ (true, 97 ∷ []) ∷ []) ≡ last_for j ((true, 97 ∷ []) ∷ [])
unfolding last_for
taken_again j = elim (Bool-cases (beq (97 ∷ []) j)) [ inl e ↦ rw e refl | inr e ↦ rw e (rw e refl) ]

last_commands_count_example :
    (st1 : Store Pipe) × (st2 : Store Pipe) × (subscribe_all 3
        ((false, 97 ∷ []) ∷ (true, 97 ∷ []) ∷ [])
        quiet
      ≡ some st1)
    × (subscribe_all 3 ((true, 97 ∷ []) ∷ []) quiet ≡ some st2)
    × (topic_set (st1.conns 3).topics ≡ topic_set (st2.conns 3).topics)
    × ((topic : Bytes) → subscribed st1 3 topic ≡ subscribed st2 3 topic)
last_commands_count_example =
    last_commands_count 3 ((false, 97 ∷ []) ∷ (true, 97 ∷ []) ∷ []) ((true, 97 ∷ []) ∷ []) quiet
      taken_again
