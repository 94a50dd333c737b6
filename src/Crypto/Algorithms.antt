-- ===== src/Crypto/Algorithms.antt =====
-- The signature algorithms of internal/crypto/crypto.go and internal/crypto/jwt.go.
use altinn_k8s_operator.Base.{ℕ, String, Option, none, some, Result, ok, crash}
use altinn_k8s_operator.Crypto.Types.{
  SignatureAlgorithm, sha256_with_rsa, sha384_with_rsa, sha512_with_rsa, sha256_with_rsapss,
  sha384_with_rsapss, sha512_with_rsapss,
}

abbrev pub default_x509_signature_algo : SignatureAlgorithm
default_x509_signature_algo = sha512_with_rsa

abbrev pub default_key_size_bits : ℕ
default_key_size_bits = 4096

-- The JOSE name of an X.509 algorithm, if it has one.
unfoldable pub signature_algorithm_from_x509 : SignatureAlgorithm → Option String
signature_algorithm_from_x509 sha256_with_rsa = some "RS256"
signature_algorithm_from_x509 sha384_with_rsa = some "RS384"
signature_algorithm_from_x509 sha512_with_rsa = some "RS512"
signature_algorithm_from_x509 sha256_with_rsapss = some "PS256"
signature_algorithm_from_x509 sha384_with_rsapss = some "PS384"
signature_algorithm_from_x509 sha512_with_rsapss = some "PS512"
signature_algorithm_from_x509 _ = none

unfoldable pub default_signature_algorithm_name : Result String
unfolding signature_algorithm_from_x509
default_signature_algorithm_name =
    elim (signature_algorithm_from_x509 default_x509_signature_algo) [
      | none ↦ crash "default x509 signature algorithm must map to a JOSE signature algorithm"
      | some name ↦ ok name
    ]
