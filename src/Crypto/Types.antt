-- ===== src/Crypto/Types.antt =====
-- The data that internal/crypto takes from crypto/x509, crypto/rsa and go-jose, and the calls of
-- them and of the uuid package, which are parameters of the model.
use altinn_k8s_operator.Base.{ℕ, ◌-◌, ◌%◌, ◌≡◌, String, Bool, true, false, List, Result, ok}
use altinn_k8s_operator.Time.{Time, second}

-- x509.SignatureAlgorithm
pub data SignatureAlgorithm : Type 0 where
  unknown_signature_algorithm md2_with_rsa md5_with_rsa sha1_with_rsa : SignatureAlgorithm
  sha256_with_rsa sha384_with_rsa sha512_with_rsa : SignatureAlgorithm
  dsa_with_sha1 dsa_with_sha256 : SignatureAlgorithm
  ecdsa_with_sha1 ecdsa_with_sha256 ecdsa_with_sha384 ecdsa_with_sha512 : SignatureAlgorithm
  sha256_with_rsapss sha384_with_rsapss sha512_with_rsapss pure_ed25519 : SignatureAlgorithm

-- pkix.Name
pub record Name : Type 0 where
  pub organization : List String
  pub common_name : String

-- x509.Certificate, the fields that the program sets or reads.
pub record Certificate : Type 0 where
  pub serial_number : ℕ
  pub subject : Name
  pub issuer : Name
  pub not_before : Time
  pub not_after : Time
  pub key_usage : ℕ
  pub ext_key_usage : List ℕ
  pub basic_constraints_valid : Bool
  pub signature_algorithm : SignatureAlgorithm

pub record RsaPrivateKey : Type 0 where
  pub modulus : ℕ
  pub private_exponent : ℕ

-- The dynamic value in the field `Key` of a jose.JSONWebKey.
pub data Key : Type 0 where
  rsa_private : RsaPrivateKey → Key
  rsa_public : ℕ → Key
  other_key : ℕ → Key

-- jose.JSONWebKey
pub record JsonWebKey : Type 0 where
  pub certificates : List Certificate
  pub key : Key
  pub key_id : String
  pub key_use : String
  pub algorithm : String

-- What the random reader still holds, and how often the clock was read.
pub record Env : Type 0 where
  pub random : List ℕ
  pub readings : ℕ

pub record External : Type 0 where
  -- The instant that the clock gives at its n-th reading.
  pub clock : ℕ → Time
  -- The methods of jose.JSONWebKey.
  pub is_public : JsonWebKey → Bool
  pub public : JsonWebKey → JsonWebKey
  -- rsa.GenerateKey for a number of bits, uuid.NewRandomFromReader, and x509.CreateCertificate
  -- (self-signed, by the key), each on the random reader.
  pub generate_key : ℕ → List ℕ → Result RsaPrivateKey × List ℕ
  pub new_uuid : List ℕ → Result String × List ℕ
  pub create_certificate : Certificate → RsaPrivateKey → List ℕ → Result (List ℕ) × List ℕ
  pub parse_certificate : List ℕ → Result Certificate

-- What go-jose documents of RSA keys: `IsPublic` tells the two kinds apart, and `Public` puts the
-- public key of the pair in the place of the private key.
pub record KnowsRsa (x : External) : Type 0 where
  pub public_key : (j : JsonWebKey) (n : ℕ) → j.key ≡ rsa_public n → x.is_public j ≡ true
  pub private_key :
      (j : JsonWebKey) (r : RsaPrivateKey) → j.key ≡ rsa_private r → x.is_public j ≡ false
  pub key-public :
      (j : JsonWebKey) (r : RsaPrivateKey)
      → j.key ≡ rsa_private r
      → ((x.public j).key ≡ rsa_public r.modulus) × ((x.public j).key_id ≡ j.key_id)

-- What crypto/x509 documents of validity: a created certificate, parsed, ends at the second in
-- which its template ends.
pub record KeepsValidity (x : External) : Type 0 where
  pub not_after-parse :
      (t : Certificate) (k : RsaPrivateKey) (random der rest : List ℕ) (c : Certificate)
      → x.create_certificate t k random ≡ (ok der, rest)
      → x.parse_certificate der ≡ ok c
      → c.not_after ≡ t.not_after - t.not_after % second
