-- ===== src/Options.antt =====
-- options.go and the constructors of socket.go: how options make a socket's configuration.
pub mod Override
use quicmq.Base.{ℕ, zero, suc, Bool, true, false, Option, none, some, List, [], ◌∷◌}
use quicmq.Base.Bytes.{Bytes}
use quicmq.Base.Int.{ℤ, pos}

-- The configuration fields of `socket`. Durations are int64 nanoseconds as 64-bit patterns; a logger, a
-- TLS configuration and a connection pool are known by numbers, and `none` is nil.
pub record Config : Type 0 where
  pub timeout : ℕ
  pub retry : ℕ
  pub max_retries : ℤ
  pub dial_timeout : ℕ
  pub log : Option ℕ
  pub tls_cfg : Option ℕ
  pub client_tls_cfg : Option ℕ
  pub auto_reconnect : Bool
  pub reconnect_ivl : ℕ
  pub reconnect_ivl_max : ℕ
  pub dial_transport : Option ℕ
  pub qlog_dir : Bytes

-- The constructors of `Option`.
pub data Setting : Type 0 where
  with_timeout with_dialer_retry with_dial_timeout : ℕ → Setting
  with_dialer_max_retries : ℤ → Setting
  with_logger with_listen_tls with_dial_tls : Option ℕ → Setting
  with_automatic_reconnect : Bool → Setting
  with_reconnect_interval with_reconnect_interval_max : ℕ → Setting
  with_connection_pool : Option ℕ → Setting
  with_qlog_dir : Bytes → Setting

-- What each of them does to a socket.
unfoldable pub apply_setting : Setting → Config → Config
apply_setting (with_timeout d) c = record c { timeout = d }
apply_setting (with_dialer_retry d) c = record c { retry = d }
apply_setting (with_dial_timeout d) c = record c { dial_timeout = d }
apply_setting (with_dialer_max_retries n) c = record c { max_retries = n }
apply_setting (with_logger l) c = record c { log = l }
apply_setting (with_listen_tls t) c = record c { tls_cfg = t }
apply_setting (with_dial_tls t) c = record c { client_tls_cfg = t }
apply_setting (with_automatic_reconnect b) c = record c { auto_reconnect = b }
apply_setting (with_reconnect_interval d) c = record c { reconnect_ivl = d }
apply_setting (with_reconnect_interval_max d) c = record c { reconnect_ivl_max = d }
apply_setting (with_connection_pool p) c = record c { dial_transport = p }
apply_setting (with_qlog_dir d) c = record c { qlog_dir = d }

-- `newDefaultSocket`; `insecure` is the TLS configuration that InsecureClientTLSConfig makes.
unfoldable pub default_config : ℕ → Config
default_config insecure = record {
  timeout = 300000000000;
  retry = 250000000;
  max_retries = pos 10;
  dial_timeout = 0;
  log = none;
  tls_cfg = none;
  client_tls_cfg = some insecure;
  auto_reconnect = true;
  reconnect_ivl = 100000000;
  reconnect_ivl_max = 0;
  dial_transport = none;
  qlog_dir = [];
}

-- The loop of `newSocket` over its options.
unfoldable pub apply_all : List Setting → Config → Config
unfolding apply_setting
apply_all [] c = c
apply_all (s ∷ ss) c = apply_all ss (apply_setting s c)

-- The logger that `newSocket` makes if none was given.
unfoldable pub or_default_log : ℕ → Option ℕ → Option ℕ
or_default_log stderr none = some stderr
or_default_log stderr (some l) = some l

unfoldable pub new_config : ℕ → ℕ → List Setting → Config
unfolding apply_all default_config or_default_log
new_config insecure stderr opts =
    let c = apply_all opts (default_config insecure) in
    record c { log = or_default_log stderr c.log }
