-- ===== src/Options/Override.antt =====
-- Each field of a configuration is what the last option for it says.
use quicmq.Base.{ℕ, ◌≡◌, refl, ap, ◌∙◌, Bool, Option, none, some, List, [], ◌∷◌, arith}
use quicmq.Base.Bytes.{Bytes}
use quicmq.Base.Int.{ℤ}
use quicmq.Options.{
  Config, Setting, with_timeout, with_dialer_retry, with_dial_timeout, with_dialer_max_retries,
  with_logger, with_listen_tls, with_dial_tls, with_automatic_reconnect, with_reconnect_interval,
  with_reconnect_interval_max, with_connection_pool, with_qlog_dir, apply_setting, apply_all,
}

module _ {A : Type 0} where
  abbrev or_old : Option A → A → A
  or_old none old = old
  or_old (some new) old = new

  -- The last option that says something of a field, or the default.
  unfoldable pub last_of : (Setting → Option A) → List Setting → A → A
  last_of says [] old = old
  last_of says (s ∷ ss) old = last_of says ss (or_old (says s) old)

  -- A field that every single option sets as `says` says is set by all of them as the last one says.
  field_last :
      (field : Config → A) (says : Setting → Option A)
      → ((s : Setting) (c : Config) → field (apply_setting s c) ≡ or_old (says s) (field c))
      → (ss : List Setting) (c : Config) → field (apply_all ss c) ≡ last_of says ss (field c)
  unfolding apply_all last_of
  field_last field says one [] c = refl
  field_last field says one (s ∷ ss) c =
      field_last field says one ss (apply_setting s c) ∙ ap (last_of says ss) (one s c)

-- What an option says of each field.
unfoldable pub says_timeout : Setting → Option ℕ
says_timeout (with_timeout x) = some x
says_timeout _ = none

unfoldable pub says_retry : Setting → Option ℕ
says_retry (with_dialer_retry x) = some x
says_retry _ = none

unfoldable pub says_max_retries : Setting → Option ℤ
says_max_retries (with_dialer_max_retries x) = some x
says_max_retries _ = none

unfoldable pub says_dial_timeout : Setting → Option ℕ
says_dial_timeout (with_dial_timeout x) = some x
says_dial_timeout _ = none

unfoldable pub says_log : Setting → Option (Option ℕ)
says_log (with_logger x) = some x
says_log _ = none

unfoldable pub says_tls_cfg : Setting → Option (Option ℕ)
says_tls_cfg (with_listen_tls x) = some x
says_tls_cfg _ = none

unfoldable pub says_client_tls_cfg : Setting → Option (Option ℕ)
says_client_tls_cfg (with_dial_tls x) = some x
says_client_tls_cfg _ = none

unfoldable pub says_auto_reconnect : Setting → Option Bool
says_auto_reconnect (with_automatic_reconnect x) = some x
says_auto_reconnect _ = none

unfoldable pub says_reconnect_ivl : Setting → Option ℕ
says_reconnect_ivl (with_reconnect_interval x) = some x
says_reconnect_ivl _ = none

unfoldable pub says_reconnect_ivl_max : Setting → Option ℕ
says_reconnect_ivl_max (with_reconnect_interval_max x) = some x
says_reconnect_ivl_max _ = none

unfoldable pub says_dial_transport : Setting → Option (Option ℕ)
says_dial_transport (with_connection_pool x) = some x
says_dial_transport _ = none

unfoldable pub says_qlog_dir : Setting → Option Bytes
says_qlog_dir (with_qlog_dir x) = some x
says_qlog_dir _ = none

-- The configuration that results from options, field by field.
pub record Overrides (ss : List Setting) (old new : Config) : Type 0 where
  pub timeout : new.timeout ≡ last_of says_timeout ss old.timeout
  pub retry : new.retry ≡ last_of says_retry ss old.retry
  pub max_retries : new.max_retries ≡ last_of says_max_retries ss old.max_retries
  pub dial_timeout : new.dial_timeout ≡ last_of says_dial_timeout ss old.dial_timeout
  pub log : new.log ≡ last_of says_log ss old.log
  pub tls_cfg : new.tls_cfg ≡ last_of says_tls_cfg ss old.tls_cfg
  pub client_tls_cfg : new.client_tls_cfg ≡ last_of says_client_tls_cfg ss old.client_tls_cfg
  pub auto_reconnect : new.auto_reconnect ≡ last_of says_auto_reconnect ss old.auto_reconnect
  pub reconnect_ivl : new.reconnect_ivl ≡ last_of says_reconnect_ivl ss old.reconnect_ivl
  pub reconnect_ivl_max :
      new.reconnect_ivl_max ≡ last_of says_reconnect_ivl_max ss old.reconnect_ivl_max
  pub dial_transport : new.dial_transport ≡ last_of says_dial_transport ss old.dial_transport
  pub qlog_dir : new.qlog_dir ≡ last_of says_qlog_dir ss old.qlog_dir

timeout_set :
    (s : Setting) (c : Config) → (apply_setting s c).timeout ≡ or_old (says_timeout s) c.timeout
unfolding apply_setting says_timeout
timeout_set s c = ground arith

retry_set : (s : Setting) (c : Config) → (apply_setting s c).retry ≡ or_old (says_retry s) c.retry
unfolding apply_setting says_retry
retry_set s c = ground arith

max_retries_set :
    (s : Setting) (c : Config)
    → (apply_setting s c).max_retries ≡ or_old (says_max_retries s) c.max_retries
unfolding apply_setting says_max_retries
max_retries_set s c = ground arith

dial_timeout_set :
    (s : Setting) (c : Config)
    → (apply_setting s c).dial_timeout ≡ or_old (says_dial_timeout s) c.dial_timeout
unfolding apply_setting says_dial_timeout
dial_timeout_set s c = ground arith

log_set : (s : Setting) (c : Config) → (apply_setting s c).log ≡ or_old (says_log s) c.log
unfolding apply_setting says_log
log_set s c = ground arith

tls_cfg_set :
    (s : Setting) (c : Config) → (apply_setting s c).tls_cfg ≡ or_old (says_tls_cfg s) c.tls_cfg
unfolding apply_setting says_tls_cfg
tls_cfg_set s c = ground arith

client_tls_cfg_set :
    (s : Setting) (c : Config)
    → (apply_setting s c).client_tls_cfg ≡ or_old (says_client_tls_cfg s) c.client_tls_cfg
unfolding apply_setting says_client_tls_cfg
client_tls_cfg_set s c = ground arith

auto_reconnect_set :
    (s : Setting) (c : Config)
    → (apply_setting s c).auto_reconnect ≡ or_old (says_auto_reconnect s) c.auto_reconnect
unfolding apply_setting says_auto_reconnect
auto_reconnect_set s c = ground arith

reconnect_ivl_set :
    (s : Setting) (c : Config)
    → (apply_setting s c).reconnect_ivl ≡ or_old (says_reconnect_ivl s) c.reconnect_ivl
unfolding apply_setting says_reconnect_ivl
reconnect_ivl_set s c = ground arith

reconnect_ivl_max_set :
    (s : Setting) (c : Config)
    → (apply_setting s c).reconnect_ivl_max ≡ or_old (says_reconnect_ivl_max s) c.reconnect_ivl_max
unfolding apply_setting says_reconnect_ivl_max
reconnect_ivl_max_set s c = ground arith

dial_transport_set :
    (s : Setting) (c : Config)
    → (apply_setting s c).dial_transport ≡ or_old (says_dial_transport s) c.dial_transport
unfolding apply_setting says_dial_transport
dial_transport_set s c = ground arith

qlog_dir_set :
    (s : Setting) (c : Config) → (apply_setting s c).qlog_dir ≡ or_old (says_qlog_dir s) c.qlog_dir
unfolding apply_setting says_qlog_dir
qlog_dir_set s c = ground arith

-- Options are independent and the last one wins: after any list of options every field of the
-- configuration is what the last option for that field says, or what it was if there is none.
pub apply_all-Overrides : (ss : List Setting) (c : Config) → Overrides ss c (apply_all ss c)
apply_all-Overrides ss c = record {
  timeout = field_last (λ (k : Config). k.timeout) says_timeout timeout_set ss c;
  retry = field_last (λ (k : Config). k.retry) says_retry retry_set ss c;
  max_retries = field_last (λ (k : Config). k.max_retries) says_max_retries max_retries_set ss c;
  dial_timeout =
      field_last (λ (k : Config). k.dial_timeout) says_dial_timeout dial_timeout_set ss c;
  log = field_last (λ (k : Config). k.log) says_log log_set ss c;
  tls_cfg = field_last (λ (k : Config). k.tls_cfg) says_tls_cfg tls_cfg_set ss c;
  client_tls_cfg =
      field_last (λ (k : Config). k.client_tls_cfg) says_client_tls_cfg client_tls_cfg_set ss c;
  auto_reconnect =
      field_last (λ (k : Config). k.auto_reconnect) says_auto_reconnect auto_reconnect_set ss c;
  reconnect_ivl =
      field_last (λ (k : Config). k.reconnect_ivl) says_reconnect_ivl reconnect_ivl_set ss c;
  reconnect_ivl_max =
      field_last (λ (k : Config). k.reconnect_ivl_max) says_reconnect_ivl_max reconnect_ivl_max_set
        ss c;
  dial_transport =
      field_last (λ (k : Config). k.dial_transport) says_dial_transport dial_transport_set ss c;
  qlog_dir = field_last (λ (k : Config). k.qlog_dir) says_qlog_dir qlog_dir_set ss c;
}
