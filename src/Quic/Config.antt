-- ===== src/Quic/Config.antt =====
-- transport_quic.go, pool.go and datagram.go: the QUIC configurations, and what a socket's settings do
-- to them.
use quicmq.Base.{ℕ, ◌*◌, ◌^◌, ◌<◌, ◌≤◌, Bool, true, false, [], ◌∷◌}
use quicmq.Base.Bytes.{Bytes}
use quicmq.Transport.Contexts.{Contexts, qlog_dir_from}

-- `Tracer`: `qlog.DefaultConnectionTracer`, or `makeQlogTracer` of a directory.
pub data Tracer : Type 0 where
  default_tracer : Tracer
  tracer_into : Bytes → Tracer

-- The fields of `quic.Config` that are set; times are in nanoseconds.
pub record QuicConfig : Type 0 where
  pub initial_stream_window : ℕ
  pub max_stream_window : ℕ
  pub initial_conn_window : ℕ
  pub max_conn_window : ℕ
  pub keep_alive_period : ℕ
  pub max_idle_timeout : ℕ
  pub tracer : Tracer
  pub allow_0rtt : Bool
  pub enable_datagrams : Bool

abbrev pub second : ℕ
second = 1000000000

abbrev pub default_initial_stream_window : ℕ
default_initial_stream_window = 8 * 2 ^ 20

abbrev pub default_max_stream_window : ℕ
default_max_stream_window = 16 * 2 ^ 20

abbrev pub default_initial_conn_window : ℕ
default_initial_conn_window = 16 * 2 ^ 20

abbrev pub default_max_conn_window : ℕ
default_max_conn_window = 32 * 2 ^ 20

abbrev pub default_keep_alive_period : ℕ
default_keep_alive_period = 5 * second

abbrev pub default_max_idle_timeout : ℕ
default_max_idle_timeout = 15 * second

unfoldable pub default_quic_config : QuicConfig
default_quic_config = record {
  initial_stream_window = default_initial_stream_window;
  max_stream_window = default_max_stream_window;
  initial_conn_window = default_initial_conn_window;
  max_conn_window = default_max_conn_window;
  keep_alive_period = default_keep_alive_period;
  max_idle_timeout = default_max_idle_timeout;
  tracer = default_tracer;
  allow_0rtt = false;
  enable_datagrams = false;
}

unfoldable pub default_server_quic_config : QuicConfig
unfolding default_quic_config
default_server_quic_config = record default_quic_config { allow_0rtt = true }

unfoldable pub datagram_server_quic_config : QuicConfig
unfolding default_server_quic_config
datagram_server_quic_config = record default_server_quic_config { enable_datagrams = true }

unfoldable pub datagram_client_quic_config : QuicConfig
unfolding default_quic_config
datagram_client_quic_config = record default_quic_config { enable_datagrams = true }

-- `dir != ""` in the transport's Dial and Listen and in the pool's Dial.
unfoldable pub traced : Bytes → QuicConfig → QuicConfig
traced [] qcfg = qcfg
traced (b ∷ bs) qcfg = record qcfg { tracer = tracer_into (b ∷ bs) }

module _ {C : Type 0} (cx : Contexts C) where
  -- `qcfg` of `quicTransport.Dial` and of `ConnectionPool.Dial`.
  unfoldable pub dial_config : C → QuicConfig
  unfolding traced default_quic_config qlog_dir_from
  dial_config c = traced (qlog_dir_from cx c) default_quic_config

  unfoldable pub listen_config : C → QuicConfig
  unfolding traced default_server_quic_config qlog_dir_from
  listen_config c = traced (qlog_dir_from cx c) default_server_quic_config

-- A connection is kept alive before it counts as idle, and no window starts above its limit.
pub record Sane (qcfg : QuicConfig) : Type 0 where
  pub kept_alive : qcfg.keep_alive_period < qcfg.max_idle_timeout
  pub stream_window : qcfg.initial_stream_window ≤ qcfg.max_stream_window
  pub conn_window : qcfg.initial_conn_window ≤ qcfg.max_conn_window
