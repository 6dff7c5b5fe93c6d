-- ===== src/Transport/Contexts.antt =====
-- transport.go, with its callers in socket.go and transport_quic.go: the settings that go from a socket
-- to its transport in a context.
use quicmq.Base.{
  ℕ, ◌≡◌, refl, ap, ◌∙◌, Bool, false, Option, none, some, [], ◌∷◌, ◌==◌, ltb, ◌&&◌, ◌^◌, Bool-cases,
  inl, inr, if◌then◌else◌,
}
use quicmq.Base.Bytes.{Bytes}
use quicmq.Options.{Config}

-- `ctxKey`.
pub data CtxKey : Type 0 where
  server_tls client_tls quic_config qlog_dir : CtxKey

-- The values that are stored: a TLS configuration, by its number, or a directory.
pub data CtxValue : Type 0 where
  tls : ℕ → CtxValue
  dir : Bytes → CtxValue

key_number : CtxKey → ℕ
key_number server_tls = 0
key_number client_tls = 1
key_number quic_config = 2
key_number qlog_dir = 3

unfoldable pub same_key : CtxKey → CtxKey → Bool
unfolding key_number
same_key k j = key_number k == key_number j

-- What is used of package context: `WithValue`, `Value`, and `WithTimeout`.
pub record Contexts (C : Type 0) : Type 0 where
  pub with_value : C → CtxKey → CtxValue → C
  pub value : C → CtxKey → Option CtxValue
  pub with_timeout : C → ℕ → C

-- Its documentation: a derived context has the value stored in it, and otherwise those of its parent.
pub record IsContexts {C : Type 0} (cx : Contexts C) : Type 0 where
  pub stored :
      (c : C) (k j : CtxKey) (v : CtxValue)
      → cx.value (cx.with_value c k v) j ≡ (if same_key k j then some v else cx.value c j)
  pub timed : (c : C) (d : ℕ) (j : CtxKey) → cx.value (cx.with_timeout c d) j ≡ cx.value c j

-- The type assertions `.(*tls.Config)` and `.(string)`.
abbrev pub as_tls : Option CtxValue → Option ℕ
as_tls (some (tls t)) = some t
as_tls _ = none

abbrev pub as_dir : Option CtxValue → Bytes
as_dir (some (dir d)) = d
as_dir _ = []

-- `tlsCfg == nil` in the transport's Dial and Listen.
unfoldable pub or_default : ℕ → Option ℕ → ℕ
or_default fallback none = fallback
or_default fallback (some t) = t

module _ {C : Type 0} (cx : Contexts C) where
  unfoldable pub with_server_tls : C → Option ℕ → C
  with_server_tls c none = c
  with_server_tls c (some t) = cx.with_value c server_tls (tls t)

  unfoldable pub with_client_tls : C → Option ℕ → C
  with_client_tls c none = c
  with_client_tls c (some t) = cx.with_value c client_tls (tls t)

  unfoldable pub with_qlog_dir : C → Bytes → C
  with_qlog_dir c [] = c
  with_qlog_dir c (b ∷ bs) = cx.with_value c qlog_dir (dir (b ∷ bs))

  unfoldable pub server_tls_from : C → Option ℕ
  server_tls_from c = as_tls (cx.value c server_tls)

  unfoldable pub client_tls_from : C → Option ℕ
  client_tls_from c = as_tls (cx.value c client_tls)

  unfoldable pub qlog_dir_from : C → Bytes
  qlog_dir_from c = as_dir (cx.value c qlog_dir)

  -- The contexts that `socket.Listen` and `socket.Dial` give to the transport.
  unfoldable pub listen_ctx : C → Config → C
  unfolding with_server_tls with_qlog_dir
  listen_ctx c config = with_qlog_dir (with_server_tls c config.tls_cfg) config.qlog_dir

  -- `dialTimeout > 0` on an int64 as a 64-bit pattern.
  abbrev pub timed_ctx : C → ℕ → C
  timed_ctx c d = if ltb 0 d && ltb d (2 ^ 63) then cx.with_timeout c d else c

  unfoldable pub dial_ctx : C → Config → C
  unfolding with_client_tls with_qlog_dir
  dial_ctx c config =
      timed_ctx (with_qlog_dir (with_client_tls c config.client_tls_cfg) config.qlog_dir)
        config.dial_timeout

  -- The configurations that the QUIC transport's Dial and Listen use.
  unfoldable pub dial_tls : ℕ → C → ℕ
  unfolding client_tls_from or_default
  dial_tls insecure c = or_default insecure (client_tls_from c)

  unfoldable pub listen_tls : ℕ → C → ℕ
  unfolding server_tls_from or_default
  listen_tls generated c = or_default generated (server_tls_from c)

module _ {C : Type 0} {cx : Contexts C} (laws : IsContexts cx) where
  timed_value : (c : C) (d : ℕ) (j : CtxKey) → cx.value (timed_ctx cx c d) j ≡ cx.value c j
  timed_value c d j = elim (Bool-cases (ltb 0 d && ltb d (2 ^ 63))) [
    | inl positive ↦ rw (positive) (laws.timed c d j)
    | inr unbounded ↦ rw (unbounded) refl
  ]

  -- A directory is found again, and hides no TLS configuration.
  found_dir :
      (c : C) (d : Bytes) → cx.value c qlog_dir ≡ none → qlog_dir_from cx (with_qlog_dir cx c d) ≡ d
  unfolding with_qlog_dir qlog_dir_from same_key key_number
  found_dir c [] empty = ap as_dir empty
  found_dir c (b ∷ bs) empty = ap as_dir (laws.stored c qlog_dir qlog_dir (dir (b ∷ bs)))

  past_dir :
      (c : C) (d : Bytes) (j : CtxKey)
      → same_key qlog_dir j ≡ false
      → cx.value (with_qlog_dir cx c d) j ≡ cx.value c j
  unfolding with_qlog_dir
  past_dir c [] j other = refl
  past_dir c (b ∷ bs) j other =
      laws.stored c qlog_dir j (dir (b ∷ bs))
      ∙ ap (λ k. if k then some (dir (b ∷ bs)) else cx.value c j) other

  found_client :
      (c : C) (t : Option ℕ)
      → cx.value c client_tls ≡ none
      → as_tls (cx.value (with_client_tls cx c t) client_tls) ≡ t
  unfolding with_client_tls same_key key_number
  found_client c none empty = ap as_tls empty
  found_client c (some t) empty = ap as_tls (laws.stored c client_tls client_tls (tls t))

  found_server :
      (c : C) (t : Option ℕ)
      → cx.value c server_tls ≡ none
      → as_tls (cx.value (with_server_tls cx c t) server_tls) ≡ t
  unfolding with_server_tls same_key key_number
  found_server c none empty = ap as_tls empty
  found_server c (some t) empty = ap as_tls (laws.stored c server_tls server_tls (tls t))

  past_client :
      (c : C) (t : Option ℕ) → cx.value (with_client_tls cx c t) qlog_dir ≡ cx.value c qlog_dir
  unfolding with_client_tls same_key key_number
  past_client c none = refl
  past_client c (some t) = laws.stored c client_tls qlog_dir (tls t)

  past_server :
      (c : C) (t : Option ℕ) → cx.value (with_server_tls cx c t) qlog_dir ≡ cx.value c qlog_dir
  unfolding with_server_tls same_key key_number
  past_server c none = refl
  past_server c (some t) = laws.stored c server_tls qlog_dir (tls t)

  -- The settings of a socket arrive at its transport: in a context that stored none of them before,
  -- with or without a timeout, Dial uses the socket's client configuration and Listen its server
  -- configuration, or the default where that is nil, and both find the socket's directory.
  pub settings_arrive :
      (c : C) (config : Config) (insecure generated : ℕ)
      → ((j : CtxKey) → cx.value c j ≡ none)
      → (dial_tls cx insecure (dial_ctx cx c config) ≡ or_default insecure config.client_tls_cfg)
        × (qlog_dir_from cx (dial_ctx cx c config) ≡ config.qlog_dir)
        × (listen_tls cx generated (listen_ctx cx c config) ≡ or_default generated config.tls_cfg)
        × (qlog_dir_from cx (listen_ctx cx c config) ≡ config.qlog_dir)
  unfolding dial_tls listen_tls dial_ctx listen_ctx client_tls_from server_tls_from qlog_dir_from
      same_key
  settings_arrive c config insecure generated empty =
      let client = with_client_tls cx c config.client_tls_cfg in
      let server = with_server_tls cx c config.tls_cfg in
      let full = with_qlog_dir cx client config.qlog_dir in
      (
        ap (λ v. or_default insecure (as_tls v))
              (timed_value full config.dial_timeout client_tls
                ∙ past_dir client config.qlog_dir client_tls refl)
            ∙ ap (or_default insecure) (found_client c config.client_tls_cfg (empty client_tls)),
        ap as_dir (timed_value full config.dial_timeout qlog_dir)
            ∙ found_dir client config.qlog_dir
                (past_client c config.client_tls_cfg ∙ empty qlog_dir),
        ap (λ v. or_default generated (as_tls v)) (past_dir server config.qlog_dir server_tls refl)
            ∙ ap (or_default generated) (found_server c config.tls_cfg (empty server_tls)),
        found_dir server config.qlog_dir (past_server c config.tls_cfg ∙ empty qlog_dir),
      )
