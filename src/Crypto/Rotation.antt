-- ===== src/Crypto/Rotation.antt =====
-- RotateIfNeeded of internal/crypto/crypto.go, from the selected key on.
pub mod NewKey
pub mod Schedule
use altinn_k8s_operator.Base.{
  ℕ, ◌+◌, ◌*◌, String, Option, none, some, List, [], ◌∷◌, ◌++◌, err, message, if◌then◌else◌,
}
use altinn_k8s_operator.Base.Exec.{Exec, pure, lift, ◌>>=◌}
use altinn_k8s_operator.Base.Text.Decimal.{successor}
use altinn_k8s_operator.Time.{Time, hour, is_after}
use altinn_k8s_operator.Crypto.Types.{Certificate, Env, External}
use altinn_k8s_operator.Crypto.Jwks.{Jwk, Jwks, key_id}
use altinn_k8s_operator.Crypto.ActiveKey.{select, first_certificate, index_of}
use altinn_k8s_operator.Crypto.Service.{
  CryptoService, now, wrapped_exec, create_cert, create_jwks_at,
}

-- A key is replaced when its certificate ends within a week.
abbrev pub rotation_margin : ℕ
rotation_margin = 24 * 7 * hour

module _ (x : External) (s : CryptoService) (common_name : String) (not_after : Time) where
  -- The new key comes first, and the active one stays behind it.
  unfoldable pub rotate : Option Jwk → Exec Env (Option Jwks)
  rotate active = do
    id ← lift (key_id active)
    index ← lift (index_of id)
    created ← wrapped_exec "error creating JWKS cert" (create_cert x s common_name not_after)
    fresh ← create_jwks_at x s created.0 created.1 (successor index)
    pure (some (record { keys = fresh.keys ++ (active ∷ []) }))

  unfoldable pub rotate_if_due : Option Jwk → Time → Certificate → Exec Env (Option Jwks)
  rotate_if_due active now_utc cert =
      if is_after cert.not_after (now_utc + rotation_margin) then pure none else rotate active

  unfoldable pub rotate_if_needed : Option Jwks → Exec Env (Option Jwks)
  rotate_if_needed none = lift (err (message "cant rotate cert for JWKS, JWKS was null"))
  rotate_if_needed (some jwks) = do
    active ← lift (select none jwks.keys)
    now_utc ← now x
    cert ← lift (first_certificate active)
    rotate_if_due active now_utc cert
