-- ===== src/Crypto/Jwks.antt =====
-- internal/crypto/jwks.go. A set holds pointers to keys, of which any may be nil (`none`), as in
-- a document that was read from JSON; a method that reads through a nil pointer panics.
pub mod Public
use altinn_k8s_operator.Base.{
  String, Bool, true, false, Option, none, some, List, [], ◌∷◌, ◌++◌, Result, ok, err, crash,
  message, fail_if, ◌>>=◌, ◌>>◌, if◌then◌else◌,
}
use altinn_k8s_operator.Crypto.Types.{
  Certificate, RsaPrivateKey, Key, rsa_private, JsonWebKey, External,
}

pub record Jwk : Type 0 where
  pub inner : JsonWebKey

pub record Jwks : Type 0 where
  pub keys : List (Option Jwk)

unfoldable pub new_jwks : List (Option Jwk) → Jwks
new_jwks keys = record { keys = keys }

unfoldable pub new_jwk : List Certificate → RsaPrivateKey → String → String → String → Jwk
new_jwk certificates key id usage algorithm = record {
  inner = record {
    certificates = certificates;
    key = rsa_private key;
    key_id = id;
    key_use = usage;
    algorithm = algorithm;
  };
}

abbrev pub nil_pointer {ℓ} : {A : Type ℓ} → Result A
nil_pointer = crash "invalid memory address or nil pointer dereference"

abbrev pub key_id : Option Jwk → Result String
key_id none = nil_pointer
key_id (some j) = ok j.inner.key_id

abbrev pub certificates : Option Jwk → List Certificate
certificates none = []
certificates (some j) = j.inner.certificates

module _ (x : External) where
  abbrev pub is_public : Option Jwk → Result Bool
  is_public none = nil_pointer
  is_public (some j) = ok (x.is_public j.inner)

  -- The certificates are dropped from a new public key.
  unfoldable pub public : Jwk → Jwk
  public j =
      if x.is_public j.inner
      then j
      else record { inner = record (x.public j.inner) { certificates = [] } }

  -- The loop of ToPublic.
  unfoldable pub public_keys : List (Option Jwk) → Result (List (Option Jwk))
  public_keys [] = ok []
  public_keys (none ∷ keys) = nil_pointer
  public_keys (some j ∷ keys) =
      let rest = public_keys keys in
      if x.is_public j.inner
      then err (message "keys in client info must be based on private/public key pairs")
      else (do more ← rest; ok (some (public j) ∷ more))

  unfoldable pub to_public : Option Jwks → Result Jwks
  to_public none = err (message "can't create public keyset from JWKS when it is not initialized")
  to_public (some s) = do keys ← public_keys s.keys; ok (record { keys = keys })
