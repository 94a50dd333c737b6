-- ===== src/Utils/CreateJwk.antt =====
-- createJwk of cmd/utils/main.go.
use altinn_k8s_operator.Base.{
  ◌+◌, ◌*◌, String, ◌==◌, Option, none, List, [], ◌∷◌, Result, ok, crash, message, formatted,
  wrapped, if◌then◌else◌,
}
use altinn_k8s_operator.Base.Exec.{Exec, pure, lift, ◌>>=◌}
use altinn_k8s_operator.Base.Int.{pos}
use altinn_k8s_operator.Base.Text.Decimal.{format_int}
use altinn_k8s_operator.Time.{Time, hour}
use altinn_k8s_operator.OperatorContext.{discover}
use altinn_k8s_operator.Crypto.Types.{External}
use altinn_k8s_operator.Crypto.Algorithms.{
  default_signature_algorithm_name, default_x509_signature_algo, default_key_size_bits,
}
use altinn_k8s_operator.Crypto.Jwks.{Jwk, public}
use altinn_k8s_operator.Crypto.Service.{new_default_service, create_jwks, now}
use altinn_k8s_operator.Maskinporten.Http.{pointer}
use altinn_k8s_operator.Utils.{
  Terminal, ToolCalls, failed, flags, string_flag, bool_flag, print_line, report, or_exit, on_env,
}

abbrev first_jwk : List (Option Jwk) → Result (Option Jwk)
first_jwk [] = crash "index out of range"
first_jwk (jwk ∷ keys) = ok jwk

module _ {W : Type 0} (tool : ToolCalls) (x : External) where
  -- The time of the flag, or a year from now.
  unfoldable pub not_after_of : String → Exec (Terminal W) Time
  not_after_of text =
      if text == ""
      then on_env (now x) >>= (λ t. pure (t + 365 * 24 * hour))
      else or_exit
          (λ e.
            wrapped "Failed to parse not-after time" e
            ∷ message "Expected RFC3339 format, e.g., 2024-12-31T23:59:59Z"
            ∷ [])
          (lift (tool.parse_time text))

  -- The constants, if the run is verbose.
  unfoldable pub tell_crypto : String → Time → Exec (Terminal W) (Unit {0})
  tell_crypto common_name not_after = do
    algorithm ← lift default_signature_algorithm_name
    report (
        message "Crypto configuration:"
        ∷ formatted "Signature Algorithm" algorithm
        ∷ formatted "X.509 Signature Algorithm" (tool.format_algorithm default_x509_signature_algo)
        ∷ formatted "Key Size (bits)" (format_int (pos default_key_size_bits))
        ∷ formatted "Certificate Common Name" common_name
        ∷ formatted "Certificate Not After" (tool.format_time not_after)
        ∷ message "---"
        ∷ [])

  unfoldable pub create_jwk : List String → Exec (Terminal W) (Unit {0})
  create_jwk args = do
    set ← flags tool ("cert-common-name" ∷ "not-after" ∷ "verbose" ∷ "pretty" ∷ []) args
    let common_name = string_flag "cert-common-name" "default-cert" set
    let pretty = bool_flag "pretty" set
    not_after ← not_after_of (string_flag "not-after" "" set)
    context ←
        or_exit (failed "Failed to discover operator context") (lift (discover none tool.uuid))
    told ← if bool_flag "verbose" set then tell_crypto common_name not_after else pure tt
    crypto ← lift (new_default_service context)
    jwks ←
        or_exit (failed "Failed to create JWKS")
          (on_env (create_jwks x crypto common_name not_after))
    first ← lift (first_jwk jwks.keys)
    jwk ← lift (pointer first)
    let public_jwk = public x jwk
    text ← or_exit (failed "Failed to marshal JWK to JSON") (lift (tool.marshal_jwk pretty jwk))
    public_text ←
        or_exit (failed "Failed to marshal public JWK to JSON")
          (lift (tool.marshal_jwk pretty public_jwk))
    printed ← print_line text
    separated ← print_line "---"
    print_line public_text
