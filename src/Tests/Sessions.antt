-- ===== src/Tests/Sessions.antt =====
-- A session over two pipes.
use quicmq.Base.{◌≡◌, refl, some, [], ◌∷◌, arith, map}
use quicmq.Base.Conns.{count_conn}
use quicmq.Msg.{Msg, msg_of}
use quicmq.Conn.Stream.{Pipe, pipe_io-IsStream}
use quicmq.Conn.Link.{pipe_link}
use quicmq.Exchange.Session.{System, calls}
use quicmq.Exchange.Session.Rounds.{IsQuiet, exchanged, calls_answered}
use quicmq.Tests.{greeting, store_over, holding}
use quicmq.Tests.Requests.{fresh, replier}

-- A requester whose connection is 3, and a replier whose connection is 5.
abbrev system : System Pipe Pipe
system = record { req = fresh (3 ∷ []); rep = record replier { store = store_over (holding []) } }

system-IsQuiet : IsQuiet pipe_link pipe_link 3 5 [] [] system
unfolding pipe_link pipe_io-IsStream count_conn
system-IsQuiet = record {
  one = refl;
  ready = refl;
  req_end = record { is_open = refl; working = refl; waits = refl; wrote = refl };
  rep_end = record { is_open = refl; working = refl; waits = refl; wrote = refl };
  idle = record { no_queue = refl; free = refl; known = omega arith };
}

-- The replier's program sends the frames of a request back behind one of its own.
abbrev echo : Msg → Msg
echo m = msg_of ((33 ∷ []) ∷ m.frames)

calls_answered_example :
    (sys1 : System Pipe Pipe) × (calls pipe_link pipe_link 3 5 echo
        (greeting ∷ msg_of [] ∷ [])
        system
      ≡ some (map (exchanged echo) (greeting ∷ msg_of [] ∷ []), sys1))
calls_answered_example =
    calls_answered pipe_link pipe_link 3 5 echo (greeting ∷ msg_of [] ∷ []) system [] []
      system-IsQuiet (omega arith)
