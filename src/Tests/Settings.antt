-- ===== src/Tests/Settings.antt =====
-- The settings of both ends: TLS and QUIC configurations and trace files.
use quicmq.Base.{◌≡◌, refl, some, Bool, true, false, none, [], ◌∷◌, ◌++◌}
use quicmq.Base.Bytes.{Bytes}
use quicmq.Result.{ok}
use mathlib.Core.Logic.{◌↔◌}
use quicmq.Tls.{
  Crypto, quic_protocol, client_config, new_client_tls_config, with_ca_file, with_pool,
}
use quicmq.Tls.Roles.{trusting, Trusts, Returns-Sound}
use quicmq.Qlog.{trace_path}
use quicmq.Qlog.Paths.{trace_path-injective}
use quicmq.Options.{with_dial_tls, with_timeout}
use quicmq.Datagram.Construction.{sub_config, sub_config-used}

-- A file whose contents are its name, and a pool that takes what is not empty.
abbrev accepts : Bytes → Bool
accepts [] = false
accepts (b ∷ bs) = true

abbrev library : Crypto Bytes Bytes Bytes
library = record {
  generate_key = ok (1 ∷ []);
  public = λ k. k;
  now = 5;
  later = 6;
  create_certificate = λ t parent u k. ok (2 ∷ []);
  read_file = λ name. ok name;
  x509_key_pair = λ cert key. ok (record { chain = cert ∷ []; private_key = key });
  new_cert_pool = [];
  append_certs = λ pool pem. (accepts pem, pool ++ pem);
  pem_decode = λ text. (none, text);
}

abbrev ca_file : Bytes
ca_file = 7 ∷ []

Returns-Sound_example :
    ((client_config library (some ca_file)).next_protos ≡ quic_protocol ∷ [])
    × ((client_config library (some ca_file)).insecure_skip_verify ≡ false)
    × Trusts library (trusting ca_file) (client_config library (some ca_file)).root_cas
unfolding new_client_tls_config with_ca_file with_pool
Returns-Sound_example =
    Returns-Sound library (trusting ca_file) (client_config library (some ca_file)) refl

-- The text of a connection's ID.
abbrev conn_id : Bytes
conn_id = 97 ∷ []

trace_path-injective_example :
    (trace_path (116 ∷ 47 ∷ []) true conn_id ≡ trace_path (116 ∷ 47 ∷ []) false conn_id)
    ↔ ((true ≡ false) × (conn_id ≡ conn_id))
trace_path-injective_example = trace_path-injective (116 ∷ 47 ∷ []) true false conn_id conn_id

sub_config-used_example :
    sub_config 4 1 (with_dial_tls (some 9) ∷ with_timeout 5 ∷ [])
    ≡ sub_config 4 1 (with_timeout 5 ∷ [])
sub_config-used_example = sub_config-used 4 1 (with_dial_tls (some 9) ∷ with_timeout 5 ∷ [])
