-- ===== src/Tls/Roles.antt =====
-- What servers and clients get from tls.go: the protocol, and whom a client trusts.
use quicmq.Base.{ℕ, ◌≡◌, refl, sym, ap, ◌∙◌, Bool, true, false, Option, none, some, [], ◌∷◌}
use mathlib.Core.Logic.{◌↔◌}
use mathlib.Core.Path.{subst}
use quicmq.Base.Bytes.{Bytes}
use quicmq.Result.{Result, ok, err}
use quicmq.Tls.{
  Crypto, TlsConfig, Certificate, Generated, panics, generates, quic_protocol, self_signed,
  with_key, generate_tls_config, server_config, with_pair, with_key_file, with_cert_file,
  new_tls_config, insecure_client_tls_config, client_config, with_pool, with_ca_file,
  new_client_tls_config,
}

-- The four functions, with their arguments.
pub data Origin : Type 0 where
  generated insecure : Origin
  loaded : Bytes → Bytes → Origin
  trusting : Bytes → Origin

-- The one whose clients do not verify the server.
abbrev pub is_insecure : Origin → Bool
is_insecure insecure = true
is_insecure _ = false

module _ {K U P : Type 0} (lib : Crypto K U P) where
  -- The configuration that a function returns, if it returns one.
  abbrev pub Returns : Origin → TlsConfig K P → Type 0
  Returns generated c = generate_tls_config lib ≡ generates c
  Returns insecure c = insecure_client_tls_config lib ≡ c
  Returns (loaded cert_file key_file) c = new_tls_config lib cert_file key_file ≡ ok c
  Returns (trusting ca_file) c = new_client_tls_config lib ca_file ≡ ok c

  -- Whom the client of a CA file trusts: the system's pool for an empty name, and otherwise the pool
  -- of the certificates in the file.
  pub data Roots : Bytes → Option P → Type 0 where
    system : Roots [] none
    in_file :
        {b : ℕ} {bs pem : Bytes} {pool : P}
        → lib.read_file (b ∷ bs) ≡ ok pem
        → lib.append_certs lib.new_cert_pool pem ≡ (true, pool)
        → Roots (b ∷ bs) (some pool)

  -- What holds of the configuration of a result, if it has one.
  abbrev OfOk : (TlsConfig K P → Type 0) → Result (TlsConfig K P) → Type 0
  OfOk Q (ok c) = Q c
  OfOk Q (err e) = Unit

  abbrev OfGenerated : (TlsConfig K P → Type 0) → Generated K P → Type 0
  OfGenerated Q (generates c) = Q c
  OfGenerated Q (panics e) = Unit

  -- A server's side: the protocol, verification not skipped, and no pool of its own.
  abbrev Sound : TlsConfig K P → Type 0
  Sound c =
      (c.next_protos ≡ quic_protocol ∷ []) × (c.insecure_skip_verify ≡ false) × (c.root_cas ≡ none)

  signed-Sound : (key : K) (r : Result Bytes) → OfGenerated Sound (self_signed lib key r)
  unfolding self_signed server_config
  signed-Sound key (ok der) = (refl, refl, refl)
  signed-Sound key (err e) = tt

  key-Sound : (r : Result K) → OfGenerated Sound (with_key lib r)
  unfolding with_key
  key-Sound (err e) = tt
  key-Sound (ok key) = signed-Sound key _

  pair-Sound : (r : Result (Certificate K)) → OfOk Sound (with_pair lib r)
  unfolding with_pair server_config
  pair-Sound (ok cert) = (refl, refl, refl)
  pair-Sound (err e) = tt

  key_file-Sound : (cert_pem : Bytes) (r : Result Bytes) → OfOk Sound (with_key_file lib cert_pem r)
  unfolding with_key_file
  key_file-Sound cert_pem (err e) = tt
  key_file-Sound cert_pem (ok key_pem) = pair-Sound _

  cert_file-Sound :
      (key_file : Bytes) (r : Result Bytes) → OfOk Sound (with_cert_file lib key_file r)
  unfolding with_cert_file
  cert_file-Sound key_file (err e) = tt
  cert_file-Sound key_file (ok cert_pem) = key_file-Sound cert_pem _

  -- A configuration for the pool that the name stands for.
  abbrev pub Trusting : Bytes → TlsConfig K P → Type 0
  Trusting name c = (pool : Option P) × Roots name pool × (c ≡ client_config lib pool)

  pool-Trusting :
      (b : ℕ) (bs pem : Bytes) (r : Bool × P)
      → lib.read_file (b ∷ bs) ≡ ok pem
      → lib.append_certs lib.new_cert_pool pem ≡ r
      → OfOk (Trusting (b ∷ bs)) (with_pool lib (b ∷ bs) r)
  unfolding with_pool
  pool-Trusting b bs pem (true, pool) e f = (some pool, in_file e f, refl)
  pool-Trusting b bs pem (false, pool) e f = tt

  ca_file-Trusting :
      (b : ℕ) (bs : Bytes) (r : Result Bytes)
      → lib.read_file (b ∷ bs) ≡ r
      → OfOk (Trusting (b ∷ bs)) (with_ca_file lib (b ∷ bs) r)
  unfolding with_ca_file
  ca_file-Trusting b bs (err x) e = tt
  ca_file-Trusting b bs (ok pem) e = pool-Trusting b bs pem _ e refl

  client-Trusting : (name : Bytes) → OfOk (Trusting name) (new_client_tls_config lib name)
  unfolding new_client_tls_config
  client-Trusting [] = (none, system, refl)
  client-Trusting (b ∷ bs) = ca_file-Trusting b bs _ refl

  client_of :
      (name : Bytes) (pool : Option P)
      → Roots name pool
      → new_client_tls_config lib name ≡ ok (client_config lib pool)
  unfolding new_client_tls_config with_ca_file with_pool
  client_of name pool system = refl
  client_of name pool (in_file e f) = rw (e, f) refl

  -- A client's configuration for a CA file is returned exactly if the certificates of that file make a
  -- pool, or if the name is empty, and then it trusts that pool, or the system's.
  pub new_client_tls_config_iff :
      (name : Bytes) (c : TlsConfig K P) → (new_client_tls_config lib name ≡ ok c) ↔ Trusting name c
  new_client_tls_config_iff name c = (
    λ e. subst (OfOk (Trusting name)) e (client-Trusting name),
    λ t. client_of name t.0 t.1 ∙ ap ok (sym t.2),
  )

  -- The pool that a configuration of each function trusts.
  abbrev pub Trusts : Origin → Option P → Type 0
  Trusts (trusting name) pool = Roots name pool
  Trusts _ pool = pool ≡ none

  -- Every configuration that a function of tls.go returns names the protocol "quicmq" and no other, so
  -- any server and any client of them agree on it; it skips the verification of the server if it comes
  -- from `InsecureClientTLSConfig` and does not skip it if it comes from any of the other three; and that
  -- of `NewClientTLSConfig` trusts the system's pool for an empty file name and the pool of the file's
  -- certificates for any other, while the others set no pool.
  pub Returns-Sound :
      (o : Origin) (c : TlsConfig K P)
      → Returns o c
      → (c.next_protos ≡ quic_protocol ∷ [])
        × (c.insecure_skip_verify ≡ is_insecure o)
        × Trusts o c.root_cas
  unfolding generate_tls_config new_tls_config insecure_client_tls_config client_config
  Returns-Sound generated c e = subst (OfGenerated Sound) e (key-Sound lib.generate_key)
  Returns-Sound insecure c e = (
    ap (λ d. d.next_protos) (sym e),
    ap (λ d. d.insecure_skip_verify) (sym e),
    ap (λ d. d.root_cas) (sym e),
  )
  Returns-Sound (loaded cert_file key_file) c e =
      subst (OfOk Sound) e (cert_file-Sound key_file (lib.read_file cert_file))
  Returns-Sound (trusting name) c e =
      let (pool, roots, same) = (new_client_tls_config_iff name c).0 e in
      (
        ap (λ d. d.next_protos) same,
        ap (λ d. d.insecure_skip_verify) same,
        subst (Roots name) (sym (ap (λ d. d.root_cas) same)) roots,
      )
