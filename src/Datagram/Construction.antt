-- ===== src/Datagram/Construction.antt =====
-- datagram.go: the constructors, and the configurations that Listen and Dial use.
use quicmq.Base.{ℕ, ◌≡◌, refl, sym, Bool, true, false, Option, List, [], ◌∷◌, if◌then◌else◌}
use quicmq.Options.{
  Config, Setting, with_timeout, with_dialer_retry, with_dial_timeout, with_dialer_max_retries,
  with_logger, with_listen_tls, with_dial_tls, with_automatic_reconnect, with_reconnect_interval,
  with_reconnect_interval_max, with_connection_pool, with_qlog_dir, apply_setting, apply_all,
  default_config, new_config, or_default_log,
}
use quicmq.Tls.{Crypto, TlsConfig, Generated, generate_tls_config, insecure_client_tls_config}
use quicmq.Quic.Config.{QuicConfig, datagram_server_quic_config, datagram_client_quic_config}

-- What a datagram socket takes of its options.
pub record DatagramConfig : Type 0 where
  pub log : Option ℕ
  pub timeout : ℕ

module _ (insecure stderr : ℕ) where
  -- `NewDatagramPub` takes the logger of a temporary socket.
  unfoldable pub pub_log : List Setting → Option ℕ
  unfolding new_config
  pub_log opts = (new_config insecure stderr opts).log

  -- `NewDatagramSub` takes the timeout also.
  unfoldable pub sub_config : List Setting → DatagramConfig
  unfolding new_config
  sub_config opts =
      let tmp = new_config insecure stderr opts in record { log = tmp.log; timeout = tmp.timeout }

-- The configurations of `DatagramPubSocket.Listen` and of `DatagramSubSocket.Dial`.
module _ {K U P : Type 0} (lib : Crypto K U P) where
  abbrev pub server_configs : Generated K P × QuicConfig
  server_configs = (generate_tls_config lib, datagram_server_quic_config)

  abbrev pub client_configs : TlsConfig K P × QuicConfig
  client_configs = (insecure_client_tls_config lib, datagram_client_quic_config)

-- An option for the logger or for the timeout.
abbrev pub is_used : Setting → Bool
is_used (with_timeout d) = true
is_used (with_logger l) = true
is_used _ = false

abbrev pub used : List Setting → List Setting
used [] = []
used (s ∷ ss) = let rest = used ss in if is_used s then s ∷ rest else rest

-- Configurations with one logger and one timeout.
record SameUse (c d : Config) : Type 0 where
  same_log : c.log ≡ d.log
  same_timeout : c.timeout ≡ d.timeout

used-SameUse :
    (ss : List Setting) (c d : Config)
    → SameUse c d
    → SameUse (apply_all (used ss) c) (apply_all ss d)
unfolding apply_all apply_setting
used-SameUse [] c d v = v
used-SameUse (with_timeout t ∷ ss) c d v =
    used-SameUse ss _ _ (record { same_log = v.same_log; same_timeout = refl })
used-SameUse (with_logger l ∷ ss) c d v =
    used-SameUse ss _ _ (record { same_log = refl; same_timeout = v.same_timeout })
used-SameUse (with_dialer_retry t ∷ ss) c d v =
    used-SameUse ss c _ (record { same_log = v.same_log; same_timeout = v.same_timeout })
used-SameUse (with_dial_timeout t ∷ ss) c d v =
    used-SameUse ss c _ (record { same_log = v.same_log; same_timeout = v.same_timeout })
used-SameUse (with_dialer_max_retries n ∷ ss) c d v =
    used-SameUse ss c _ (record { same_log = v.same_log; same_timeout = v.same_timeout })
used-SameUse (with_listen_tls t ∷ ss) c d v =
    used-SameUse ss c _ (record { same_log = v.same_log; same_timeout = v.same_timeout })
used-SameUse (with_dial_tls t ∷ ss) c d v =
    used-SameUse ss c _ (record { same_log = v.same_log; same_timeout = v.same_timeout })
used-SameUse (with_automatic_reconnect b ∷ ss) c d v =
    used-SameUse ss c _ (record { same_log = v.same_log; same_timeout = v.same_timeout })
used-SameUse (with_reconnect_interval t ∷ ss) c d v =
    used-SameUse ss c _ (record { same_log = v.same_log; same_timeout = v.same_timeout })
used-SameUse (with_reconnect_interval_max t ∷ ss) c d v =
    used-SameUse ss c _ (record { same_log = v.same_log; same_timeout = v.same_timeout })
used-SameUse (with_connection_pool p ∷ ss) c d v =
    used-SameUse ss c _ (record { same_log = v.same_log; same_timeout = v.same_timeout })
used-SameUse (with_qlog_dir t ∷ ss) c d v =
    used-SameUse ss c _ (record { same_log = v.same_log; same_timeout = v.same_timeout })

-- Of the options of `NewDatagramSub` only those for the logger and for the timeout have an effect: without
-- the others, among them WithListenTLS, WithDialTLS and WithQlogDir, the socket is the same.
pub sub_config-used :
    (insecure stderr : ℕ) (opts : List Setting)
    → sub_config insecure stderr opts ≡ sub_config insecure stderr (used opts)
unfolding sub_config new_config
sub_config-used insecure stderr opts =
    let v =
      used-SameUse opts (default_config insecure) (default_config insecure)
        (record { same_log = refl; same_timeout = refl }) in
    λ i. record { log = or_default_log stderr (sym v.same_log i); timeout = sym v.same_timeout i }
