-- ===== src/Result.antt =====
-- Go's error values and the `(value, error)` pairs of the functions that fail.
use quicmq.Base.{ℕ, ◌≡◌, refl, ◌⊎◌, List, inl, inr}

-- An error of the underlying connection or of a context is known by a number; an error that wraps
-- another by `%w` holds it.
pub data Error : Type 0 where
  net_error : ℕ → Error
  ctx_error : ℕ → Error
  eof unexpected_eof : Error
  closed_conn nil_conn bad_property : Error
  send_flag send_length : Error → Error
  send_frame : ℕ → ℕ → Error → Error
  empty_sub_cmd : Error
  pub_cannot_recv : Error
  req_pending req_not_pending req_no_conn req_no_connections : Error
  req_all_failed : Error → Error
  rep_invalid_request rep_no_request : Error
  dial_budget dial_cancelled dial_failed : Error → Error
  resolve_addr listen_udp quic_dial quic_handshake quic_fallback open_stream : Error → Error
  invalid_address unknown_transport : Error
  listen_failed quic_listen : Error → Error
  read_cert read_key parse_key_pair read_ca : Error → Error
  parse_ca : List ℕ → Error
  no_datagrams dpub_cannot dsub_cannot not_connected : Error

pub data Result {ℓ} (A : Type ℓ) : Type ℓ where
  ok : A → Result A
  err : Error → Result A

pub Result-cases {ℓ} :
    {A : Type ℓ} (r : Result A) → ((a : A) × (r ≡ ok a)) ⊎ ((e : Error) × (r ≡ err e))
Result-cases (ok a) = inl (a, refl)
Result-cases (err e) = inr (e, refl)
