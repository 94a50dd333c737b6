-- ===== src/Crypto/Jwt/NewJwt.antt =====
-- NewJWT of internal/crypto/jwt.go. The clock and the generator of token IDs are calls on a world.
use altinn_k8s_operator.Base.{String, Option, List, message, fail_if}
use altinn_k8s_operator.Base.Exec.{Exec, lift, ◌>>=◌}
use altinn_k8s_operator.Time.{Time}
use altinn_k8s_operator.Crypto.Types.{External}
use altinn_k8s_operator.Crypto.Jwks.{Jwk, is_public}
use altinn_k8s_operator.Crypto.Jwt.{Jose, public_claims, sign}

module _ (jose : Jose) (x : External) {W : Type 0} (now : Exec W Time)
    (new_id : Exec W String) where
  unfoldable pub new_jwt : Option Jwk → List String → String → String → Time → Exec W String
  unfolding public_claims
  new_jwt jwk audience issuer scope expiry = do
    public ← lift (is_public x jwk)
    checked ← lift (fail_if public (message "cannot sign JWT with public key"))
    issued ← now
    id ← new_id
    lift (sign jose jwk (public_claims jose audience issuer issued expiry id) scope)
