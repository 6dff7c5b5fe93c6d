-- ===== src/Tls.antt =====
-- tls.go: the TLS configurations, over what crypto, os and encoding/pem answer.
pub mod Roles
use quicmq.Base.{ℕ, ◌+◌, ◌*◌, Bool, true, false, Option, none, some, List, [], ◌∷◌, if◌then◌else◌}
use quicmq.Base.Bytes.{Bytes}
use quicmq.Result.{Error, Result, ok, err, read_cert, read_key, parse_key_pair, read_ca, parse_ca}

-- `tls.Certificate`: its chain and its private key.
pub record Certificate (K : Type 0) : Type 0 where
  pub chain : List Bytes
  pub private_key : K

-- The part of `x509.Certificate` that is filled in; times are in nanoseconds.
pub record Template : Type 0 where
  pub serial_number : ℕ
  pub not_before : ℕ
  pub not_after : ℕ

-- The fields of `tls.Config` that are set here; a session cache is known by its capacity.
pub record TlsConfig (K P : Type 0) : Type 0 where
  pub certificates : List (Certificate K)
  pub insecure_skip_verify : Bool
  pub root_cas : Option P
  pub next_protos : List Bytes
  pub client_session_cache : Option ℕ

-- `pem.Block`, its contents.
pub record Block : Type 0 where
  pub bytes : Bytes

-- What is called of other packages. K, U and P are keys, public keys and pools of certificates.
pub record Crypto (K U P : Type 0) : Type 0 where
  pub generate_key : Result K
  pub public : K → U
  pub now : ℕ
  pub later : ℕ
  pub create_certificate : Template → Template → U → K → Result Bytes
  pub read_file : Bytes → Result Bytes
  pub x509_key_pair : Bytes → Bytes → Result (Certificate K)
  pub new_cert_pool : P
  pub append_certs : P → Bytes → Bool × P
  pub pem_decode : Bytes → Option Block × Bytes

-- "quicmq".
abbrev pub quic_protocol : Bytes
quic_protocol = 113 ∷ 117 ∷ 105 ∷ 99 ∷ 109 ∷ 113 ∷ []

-- 24 * time.Hour.
abbrev pub day : ℕ
day = 24 * 3600000000000

abbrev pub session_cache_size : ℕ
session_cache_size = 128

-- How `GenerateTLSConfig` ends: its failures are panics.
pub data Generated (K P : Type 0) : Type 0 where
  panics : Error → Generated K P
  generates : TlsConfig K P → Generated K P

module _ {K U P : Type 0} (lib : Crypto K U P) where
  -- The two calls of `time.Now`.
  unfoldable pub template : Template
  template = record { serial_number = 1; not_before = lib.now; not_after = lib.later + day }

  unfoldable pub server_config : Certificate K → TlsConfig K P
  server_config cert = record {
    certificates = cert ∷ [];
    insecure_skip_verify = false;
    root_cas = none;
    next_protos = quic_protocol ∷ [];
    client_session_cache = none;
  }

  unfoldable pub self_signed : K → Result Bytes → Generated K P
  unfolding server_config
  self_signed key (err e) = panics e
  self_signed key (ok der) =
      generates (server_config (record { chain = der ∷ []; private_key = key }))

  unfoldable pub with_key : Result K → Generated K P
  unfolding template self_signed
  with_key (err e) = panics e
  with_key (ok key) =
      self_signed key (lib.create_certificate template template (lib.public key) key)

  unfoldable pub generate_tls_config : Generated K P
  unfolding with_key
  generate_tls_config = with_key lib.generate_key

  unfoldable pub insecure_client_tls_config : TlsConfig K P
  insecure_client_tls_config = record {
    certificates = [];
    insecure_skip_verify = true;
    root_cas = none;
    next_protos = quic_protocol ∷ [];
    client_session_cache = some session_cache_size;
  }

  unfoldable pub with_pair : Result (Certificate K) → Result (TlsConfig K P)
  unfolding server_config
  with_pair (err e) = err (parse_key_pair e)
  with_pair (ok cert) = ok (server_config cert)

  unfoldable pub with_key_file : Bytes → Result Bytes → Result (TlsConfig K P)
  unfolding with_pair
  with_key_file cert_pem (err e) = err (read_key e)
  with_key_file cert_pem (ok key_pem) = with_pair (lib.x509_key_pair cert_pem key_pem)

  unfoldable pub with_cert_file : Bytes → Result Bytes → Result (TlsConfig K P)
  unfolding with_key_file
  with_cert_file key_file (err e) = err (read_cert e)
  with_cert_file key_file (ok cert_pem) = with_key_file cert_pem (lib.read_file key_file)

  unfoldable pub new_tls_config : Bytes → Bytes → Result (TlsConfig K P)
  unfolding with_cert_file
  new_tls_config cert_file key_file = with_cert_file key_file (lib.read_file cert_file)

  unfoldable pub client_config : Option P → TlsConfig K P
  client_config pool = record {
    certificates = [];
    insecure_skip_verify = false;
    root_cas = pool;
    next_protos = quic_protocol ∷ [];
    client_session_cache = some session_cache_size;
  }

  unfoldable pub with_pool : Bytes → Bool × P → Result (TlsConfig K P)
  unfolding client_config
  with_pool ca_file (false, pool) = err (parse_ca ca_file)
  with_pool ca_file (true, pool) = ok (client_config (some pool))

  unfoldable pub with_ca_file : Bytes → Result Bytes → Result (TlsConfig K P)
  unfolding with_pool
  with_ca_file ca_file (err e) = err (read_ca e)
  with_ca_file ca_file (ok ca_pem) = with_pool ca_file (lib.append_certs lib.new_cert_pool ca_pem)

  -- An empty name stands for the pool of the system, a nil `RootCAs`.
  unfoldable pub new_client_tls_config : Bytes → Result (TlsConfig K P)
  unfolding client_config with_ca_file
  new_client_tls_config [] = ok (client_config none)
  new_client_tls_config (b ∷ bs) = with_ca_file (b ∷ bs) (lib.read_file (b ∷ bs))

  -- `mustParsePEM`; `none` is a nil slice.
  unfoldable pub must_parse_pem : Bytes → Option Bytes
  must_parse_pem text = elim (lib.pem_decode text).0 [ none ↦ none | some b ↦ some b.bytes ]
