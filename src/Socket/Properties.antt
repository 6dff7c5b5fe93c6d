-- ===== src/Socket/Properties.antt =====
-- socket.go and datagram.go: the table of properties behind GetOption and SetOption.
use quicmq.Base.{◌≡◌, refl, List, [], ◌∷◌, arith, if◌then◌else◌}
use quicmq.Base.Bytes.{Bytes, beq, beq_iff}
use quicmq.Result.{Result, ok, err, bad_property}

module _ {V : Type 0} where
  -- On `sck.props`, a value of type any being one of V.
  unfoldable pub get_option : Bytes → List (Bytes × V) → Result V
  get_option name [] = err bad_property
  get_option name ((n, v) ∷ ps) = let rest = get_option name ps in if beq n name then ok v else rest

  -- `sck.props[name] = value`: in its place, or new.
  unfoldable pub set_option : Bytes → V → List (Bytes × V) → List (Bytes × V)
  set_option name v [] = (name, v) ∷ []
  set_option name v ((n, w) ∷ ps) =
      let rest = set_option name v ps in if beq n name then (n, v) ∷ ps else (n, w) ∷ rest

  -- GetOption returns what SetOption has stored last under the name, and any other name as before.
  pub get-set :
      (k name : Bytes) (v : V) (ps : List (Bytes × V))
      → get_option k (set_option name v ps) ≡ (if beq name k then ok v else get_option k ps)
  unfolding get_option set_option
  get-set k name v [] = refl
  get-set k name v ((n, w) ∷ ps) =
      ground (arith, get-set k name v ps, beq_iff n name, beq_iff name k, beq_iff n k)
