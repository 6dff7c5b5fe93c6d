-- ===== src/Tests/Transports.antt =====
-- Dialing over QUIC and the connection pool on concrete answers of net and quic-go.
use quicmq.Base.{ℕ, ◌+◌, ◌≤◌, ◌≡◌, refl, true, false, none, List, [], ◌∷◌, arith, length, ◌==◌}
use quicmq.Base.Conns.{count_conn, remove_conn}
use quicmq.Result.{ok, err, net_error}
use quicmq.Quic
use quicmq.Quic.{
  Os, StreamConn, DialAnswers, close_stream, with_stream, with_next, first_stream, after_handshake,
  with_conn, with_socket, resolved,
}
use quicmq.Quic.Dialing.{Settled, dial-Settled, dial_close_leaks}
use quicmq.Quic.Listener.{
  Listener, Event, arrives, hands_over, gives_up, accepts, closes, step, run, arrivals, places,
  accept_size, run-Conserves,
}
use quicmq.ConnectionPool
use quicmq.ConnectionPool.{Pool, PoolAnswers, get_entry, close_loop}
use quicmq.ConnectionPool.Ownership.{Owns, sockets, dial-Owns, close_lem}
use quicmq.Datagram.Sockets.{SubAnswers, Restored, unconnected, dial-close}
use quicmq.Datagram.Sockets

-- Socket 1 is open already.
abbrev process : Os
process = record { open_udp = 1 ∷ []; closed_conns = []; closed_streams = [] }

-- A Dial with socket 2, whose 0-RTT attempt is rejected and whose fallback succeeds.
abbrev answers : DialAnswers
answers = record {
  resolve = none;
  udp = ok 2;
  early = ok 7;
  handshake = none;
  stream = err (net_error 1);
  rejected = λ _. true;
  next = ok 8;
  stream_again = ok 9;
}

abbrev fallen_back : StreamConn
fallen_back = record { stream = 9; qconn = 8; udp = 2 }

abbrev dialed : Os
dialed = record process { open_udp = 2 ∷ 1 ∷ [] }

dial_close_leaks_example :
    count_conn 2 (close_stream fallen_back dialed).open_udp ≡ count_conn 2 (1 ∷ []) + 1
unfolding Quic.dial resolved with_socket with_conn after_handshake first_stream with_next
    with_stream
dial_close_leaks_example = dial_close_leaks answers process dialed fallen_back refl

dial-Settled_example : Settled process (Quic.dial answers process)
dial-Settled_example = dial-Settled answers process

abbrev waiting : Listener
waiting = record {
  accept_ch = [];
  closed = false;
  offering = [];
  accepted = [];
  closed_streams = [];
}

abbrev events : List Event
events = arrives 4 ∷ arrives 5 ∷ hands_over 4 ∷ accepts ∷ closes ∷ gives_up 5 ∷ []

abbrev finished : Listener
finished = record {
  accept_ch = [];
  closed = true;
  offering = [];
  accepted = 4 ∷ [];
  closed_streams = 5 ∷ [];
}

run-Conserves_example :
    ((s : ℕ) → places s finished ≡ places s waiting + arrivals s events)
    × (length finished.accept_ch ≤ accept_size)
unfolding run step count_conn remove_conn
run-Conserves_example = run-Conserves events waiting finished (omega arith) refl

-- One entry, for "a", on socket 1 over connection 7; socket 5 is another's.
abbrev pool : Pool
pool = record {
  entries = (97 ∷ [], record { qconn = 7; udp = 1 }) ∷ [];
  os = record { open_udp = 5 ∷ 1 ∷ []; closed_conns = []; closed_streams = [] };
}

pool-Owns : Owns (5 ∷ []) pool
unfolding get_entry sockets count_conn
pool-Owns = record { distinct = (refl, tt); balanced = λ d. ground arith }

-- The entry's connection is dead, and the new one, over socket 2, gets no stream.
abbrev pool_answers : PoolAnswers
pool_answers = record {
  alive = λ q. q == 8;
  resolve = none;
  udp = ok 2;
  early = ok 8;
  handshake = none;
  stream = ok 9;
}

dial-Owns_example : Owns (5 ∷ []) (ConnectionPool.dial pool_answers (97 ∷ []) pool).1
dial-Owns_example = dial-Owns (5 ∷ []) pool_answers (97 ∷ []) pool pool-Owns

close_lem_example :
    ((ConnectionPool.close pool).entries ≡ [])
    × ((d : ℕ) → count_conn d (ConnectionPool.close pool).os.open_udp ≡ count_conn d (5 ∷ []))
close_lem_example = close_lem (5 ∷ []) pool pool-Owns

abbrev shared : StreamConn
shared = record { stream = 9; qconn = 8; udp = 2 }

-- A datagram Dial whose connection has no datagrams.
abbrev no_support : SubAnswers
no_support = record {
  resolve = λ _. none;
  udp = ok 2;
  conn = ok 7;
  supports = false;
  stream = ok 9;
}

only_one : (u : ℕ) → no_support.udp ≡ ok u → count_conn u (1 ∷ []) ≡ 0
unfolding count_conn
only_one u e = ground arith

dial-close_example :
    Restored process (Sockets.dial no_support (117 ∷ 58 ∷ 47 ∷ 47 ∷ 97 ∷ []) unconnected process)
dial-close_example = dial-close no_support (117 ∷ 58 ∷ 47 ∷ 47 ∷ 97 ∷ []) process only_one
