-- ===== src/Tests/Queues.antt =====
-- One subscriber's channel of two messages, over offers and steps of its goroutine.
use quicmq.Base.{refl, false, List, [], ◌∷◌, arith}
use mathlib.Core.List.Sublist as Sublists
use quicmq.Msg.{msg_of}
use quicmq.Conn.Stream.{Pipe, pipe_io}
use quicmq.Exchange.Publication.{idle}
use quicmq.Pub.Order.{Life, Turn, offers, pumps, turns, InOrder, send_each, turns-InOrder}
use quicmq.Tests.{greeting}
use quicmq.Tests.Publishing.{topic_store}

abbrev fresh_life : Life Pipe
fresh_life = record { sub = idle 3 2; store = topic_store; offered = []; taken = []; passed = [] }

-- Three offers before the goroutine runs: the third is dropped.
abbrev busy_turns : List Turn
busy_turns =
    offers false false greeting
    ∷ offers false false (msg_of [])
    ∷ offers false false greeting
    ∷ pumps
    ∷ pumps
    ∷ pumps
    ∷ []

turns-InOrder_example : InOrder pipe_io 3 topic_store (turns pipe_io busy_turns fresh_life)
unfolding send_each
turns-InOrder_example = turns-InOrder pipe_io 3 topic_store busy_turns fresh_life (record {
  of_conn = refl;
  went_out = refl;
  complete = refl;
  offered_so = Sublists.refl [];
  within = omega arith;
})
