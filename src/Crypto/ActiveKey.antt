-- ===== src/Crypto/ActiveKey.antt =====
-- The loop of RotateIfNeeded (internal/crypto/crypto.go) that selects the active key of a set.
pub mod Latest
pub mod Index
use altinn_k8s_operator.Base.{
  String, Bool, true, false, Option, none, some, List, [], ◌∷◌, Result, ok, err, crash, formatted,
  ◌>>=◌, ◌>>◌, if◌then◌else◌,
}
use altinn_k8s_operator.Base.Int.{ℤ}
use altinn_k8s_operator.Base.Text.Split.{split_on, last?}
use altinn_k8s_operator.Base.Text.Decimal.{atoi}
use altinn_k8s_operator.Time.{is_after}
use altinn_k8s_operator.Crypto.Types.{Certificate}
use altinn_k8s_operator.Crypto.Jwks.{Jwk, key_id, certificates}

abbrev single : Option Jwk → List Certificate → Result Certificate
single k (c ∷ []) = ok c
single k _ = do id ← key_id k; err (formatted "unexpected number of certificates for key" id)

-- The certificate of a key that must have one. The error names the key, through its pointer.
unfoldable pub one_certificate : Option Jwk → Result Certificate
one_certificate k = single k (certificates k)

-- Certificates()[0]
unfoldable pub first_certificate : Option Jwk → Result Certificate
first_certificate k = elim (certificates k) [ [] ↦ crash "index out of range" | c ∷ _ ↦ ok c ]

abbrev pub later : Option Jwk → Certificate → Option Jwk → Certificate → Option Jwk
later active active_cert k cert =
    if is_after cert.not_after active_cert.not_after then k else active

-- The loop, from the active key so far; it is nil before the first round.
unfoldable pub select : Option Jwk → List (Option Jwk) → Result (Option Jwk)
select active [] = ok active
select none (k ∷ keys) = do cert ← one_certificate k; select k keys
select (some a) (k ∷ keys) = do
  cert ← one_certificate k
  active_cert ← first_certificate (some a)
  select (later (some a) active_cert k cert) keys

abbrev parsed_index : String → Option ℤ → Result ℤ
parsed_index id none = err (formatted "invalid key format" id)
parsed_index id (some n) = ok n

abbrev last_index : String → Option String → Result ℤ
last_index id none = crash "index out of range"
last_index id (some part) = parsed_index id (atoi part)

-- The number after the last dot of a key ID.
unfoldable pub index_of : String → Result ℤ
index_of id = last_index id (last? (split_on b'.' id))
