-- ===== src/Tests/Sockets.antt =====
-- The base socket on concrete connections and dialing attempts.
use quicmq.Base.{ℕ, true, false, [], ◌∷◌}
use quicmq.Result.{err, net_error}
use quicmq.Conn.Stream.{Pipe}
use quicmq.Sub.{MWriter}
use quicmq.Socket.{BaseSocket}
use quicmq.Socket.Backoff.{Backoff}
use quicmq.Socket.Dialing.{Attempt, slept}
use quicmq.Tests.{holding, store_over}

abbrev pub pool : MWriter
pool = record { ws = 3 ∷ 4 ∷ 5 ∷ []; sem = record { ready = true } }

abbrev socket : BaseSocket Pipe MWriter MWriter
socket = record {
  conns = 3 ∷ 4 ∷ 5 ∷ [];
  r = pool;
  w = pool;
  store = record (store_over (holding [])) {
    reaper = record {
      closed_conns = 4 ∷ 4 ∷ [];
      reconnects = 0;
      auto_reconnect = true;
      is_dialer = true;
    };
  };
}

-- 100 ms up to 30 s.
abbrev pub growing : Backoff
growing = record { reconnect_ivl = 100000000; reconnect_ivl_max = 30000000000 }

abbrev pub refused : Attempt ℕ
refused = record {
  dialed = err (net_error 1);
  budget_over = false;
  socket_over = false;
  pause = slept;
}
