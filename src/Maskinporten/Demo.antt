-- ===== src/Maskinporten/Demo.antt =====
-- An encoding of one content, for concrete runs: every other content is refused.
use altinn_k8s_operator.Base.{
  ℕ, ◌≡◌, refl, ap, Bool, true, false, none, some, List, [], ◌∷◌, ok, err, message, Result,
}
use altinn_k8s_operator.Base.Same.{Same, ◌>>=◌, same_nat, same_text, same_list, same_option}
use altinn_k8s_operator.Crypto.Types.{
  SignatureAlgorithm, sha512_with_rsa, Name, Certificate, Key, rsa_private,
}
use altinn_k8s_operator.Crypto.Jwks.{Jwk, Jwks}
use altinn_k8s_operator.Maskinporten.Secret.{SecretStateContent, Codec, Decodes}

abbrev same_bool : (a b : Bool) → Same a b
same_bool true true = some refl
same_bool false false = some refl
same_bool _ _ = none

abbrev same_algorithm : (a b : SignatureAlgorithm) → Same a b
same_algorithm sha512_with_rsa sha512_with_rsa = some refl
same_algorithm _ _ = none

abbrev same_name : (a b : Name) → Same a b
same_name a b = do
  p ← same_list same_text a.organization b.organization
  q ← same_text a.common_name b.common_name
  some (λ i. record { organization = p i; common_name = q i })

abbrev same_certificate : (a b : Certificate) → Same a b
same_certificate a b = do
  p₁ ← same_nat a.serial_number b.serial_number
  p₂ ← same_name a.subject b.subject
  p₃ ← same_name a.issuer b.issuer
  p₄ ← same_nat a.not_before b.not_before
  p₅ ← same_nat a.not_after b.not_after
  p₆ ← same_nat a.key_usage b.key_usage
  p₇ ← same_list same_nat a.ext_key_usage b.ext_key_usage
  p₈ ← same_bool a.basic_constraints_valid b.basic_constraints_valid
  p₉ ← same_algorithm a.signature_algorithm b.signature_algorithm
  some (λ i. record {
    serial_number = p₁ i;
    subject = p₂ i;
    issuer = p₃ i;
    not_before = p₄ i;
    not_after = p₅ i;
    key_usage = p₆ i;
    ext_key_usage = p₇ i;
    basic_constraints_valid = p₈ i;
    signature_algorithm = p₉ i;
  })

abbrev same_key : (a b : Key) → Same a b
same_key (rsa_private a) (rsa_private b) = do
  p ← same_nat a.modulus b.modulus
  q ← same_nat a.private_exponent b.private_exponent
  some (λ i. rsa_private (record { modulus = p i; private_exponent = q i }))
same_key _ _ = none

abbrev same_jwk : (a b : Jwk) → Same a b
same_jwk a b = do
  p₁ ← same_list same_certificate a.inner.certificates b.inner.certificates
  p₂ ← same_key a.inner.key b.inner.key
  p₃ ← same_text a.inner.key_id b.inner.key_id
  p₄ ← same_text a.inner.key_use b.inner.key_use
  p₅ ← same_text a.inner.algorithm b.inner.algorithm
  some (λ i. record {
    inner = record {
      certificates = p₁ i;
      key = p₂ i;
      key_id = p₃ i;
      key_use = p₄ i;
      algorithm = p₅ i;
    };
  })

abbrev same_jwks : (a b : Jwks) → Same a b
same_jwks a b = do
  p ← same_list (same_option same_jwk) a.keys b.keys
  some (λ i. record { keys = p i })

abbrev same_content : (a b : SecretStateContent) → Same a b
same_content a b = do
  p₁ ← same_text a.client_id b.client_id
  p₂ ← same_text a.authority b.authority
  p₃ ← same_option same_jwks a.jwks b.jwks
  p₄ ← same_option same_jwk a.jwk b.jwk
  some (λ i. record { client_id = p₁ i; authority = p₂ i; jwks = p₃ i; jwk = p₄ i })

abbrev encoded : (a b : SecretStateContent) → Same a b → Result (List ℕ)
encoded a b none = err (message "unsupported")
encoded a b (some p) = ok (1 ∷ [])

abbrev pub codec_for : SecretStateContent → Codec
codec_for k = record { marshal = λ c. encoded k c (same_content k c); unmarshal = λ b. ok k }

encoded-path :
    (a b : SecretStateContent) (o : Same a b) (bytes : List ℕ) → encoded a b o ≡ ok bytes → a ≡ b
encoded-path a b none bytes e = absurd (refused bytes e)
  where
    refused : (bytes : List ℕ) → err (message "unsupported") ≡ ok bytes → ⊥
    refused bytes e = cc
encoded-path a b (some p) bytes e = p

pub codec_for-Decodes : (k : SecretStateContent) → Decodes (codec_for k)
codec_for-Decodes k = record {
  unmarshal-marshal = λ c b e. ap ok (encoded-path k c (same_content k c) b e);
}
