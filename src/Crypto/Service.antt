-- ===== src/Crypto/Service.antt =====
-- internal/crypto/crypto.go: the service, its certificates and new key sets. The random reader
-- and the clock are the state of each call (`Env`).
pub mod Certificates
use altinn_k8s_operator.Base.{
  ℕ, zero, ◌+◌, ◌*◌, String, ◌<>◌, Bool, true, false, ◌||◌, Option, none, some, List, [], ◌∷◌,
  Error, Result, ok, err, crash, message, wrap, length, take, drop, nat_eq, ltb, leb, if◌then◌else◌,
}
use altinn_k8s_operator.Base.Exec.{Exec, pure, lift, ◌>>=◌}
use altinn_k8s_operator.Base.Int.{ℤ, pos}
use altinn_k8s_operator.Base.Text.Decimal.{format_int}
use altinn_k8s_operator.OperatorContext.{Context}
use altinn_k8s_operator.Time.{Time, is_after}
use altinn_k8s_operator.Crypto.Types.{
  SignatureAlgorithm, unknown_signature_algorithm, Name, Certificate, RsaPrivateKey, Env, External,
}
use altinn_k8s_operator.Crypto.Algorithms.{
  signature_algorithm_from_x509, default_x509_signature_algo, default_key_size_bits,
}
use altinn_k8s_operator.Crypto.Jwks.{Jwk, Jwks, new_jwk, new_jwks}

pub record CryptoService : Type 0 where
  pub ctx : Context
  pub signature_algo : String
  pub x509_signature_algo : SignatureAlgorithm
  pub key_size_bits : ℕ

-- The assertions end the process.
unfoldable pub new_service : Context → SignatureAlgorithm → ℕ → Result CryptoService
new_service ctx unknown_signature_algorithm bits = crash "x509 signature algorithm must be provided"
new_service ctx algo zero = crash "key size in bits must be positive"
new_service ctx algo bits = elim (signature_algorithm_from_x509 algo) [
  | none ↦ crash "unsupported x509 signature algorithm"
  | some name ↦ ok (record {
    ctx = ctx;
    signature_algo = name;
    x509_signature_algo = algo;
    key_size_bits = bits;
  })
]

unfoldable pub new_default_service : Context → Result CryptoService
unfolding new_service
new_default_service ctx = new_service ctx default_x509_signature_algo default_key_size_bits

-- s.clock.Now()
unfoldable pub now : External → Exec Env Time
now x s = (ok (x.clock s.readings), record s { readings = s.readings + 1 })

-- A call that reads from the random reader.
abbrev pub with_random {ℓ} : {A : Type ℓ} → (List ℕ → Result A × List ℕ) → Env → Result A × Env
with_random f s = let (r, rest) = f s.random in (r, record s { random = rest })

-- io.ReadFull for n bytes: it fills the slice, or fails when the reader ends.
unfoldable pub read_full : ℕ → List ℕ → Result (List ℕ) × List ℕ
read_full n bytes =
    if leb n (length bytes)
    then (ok (take n bytes), drop n bytes)
    else (err (message "unexpected EOF"), [])

-- big.Int.SetBytes: the bytes are the digits to base 256, the most significant first.
unfoldable pub set_bytes : ℕ → List ℕ → ℕ
set_bytes n [] = n
set_bytes n (b ∷ bytes) = set_bytes (n * 256 + b) bytes

unfoldable pub check_serial : List ℕ → Result ℕ
check_serial bytes =
    if nat_eq (length bytes) 16
    then ok (set_bytes 0 bytes)
    else crash "Read should always fill slice when err is nil"

unfoldable pub generate_cert_serial_number : Exec Env ℕ
generate_cert_serial_number = do bytes ← with_random (read_full 16); lift (check_serial bytes)

abbrev pub wrapped_exec : {A : Type 0} → String → Exec Env A → Exec Env A
wrapped_exec m f s = let (r, s') = f s in (wrap m r, s')

abbrev pub issuer : Name
issuer = record { organization = "Digdir" ∷ []; common_name = "Altinn Operator" }

module _ (x : External) (s : CryptoService) where
  -- The key usages are KeyEncipherment and DigitalSignature, and the extended one ServerAuth.
  unfoldable pub template : String → Time → Time → ℕ → Certificate
  template common_name now_utc not_after serial = record {
    serial_number = serial;
    subject = record { organization = s.ctx.service_owner_name ∷ []; common_name = common_name };
    issuer = issuer;
    not_before = now_utc;
    not_after = not_after;
    key_usage = 4 + 1;
    ext_key_usage = 1 ∷ [];
    basic_constraints_valid = true;
    signature_algorithm = s.x509_signature_algo;
  }

  unfoldable pub check_not_after : Time → Time → Result (Unit {0})
  check_not_after now_utc not_after =
      if nat_eq now_utc not_after || is_after now_utc not_after
      then err (message "notAfter must be after current time")
      else ok tt

  unfoldable pub create_cert : String → Time → Exec Env (Certificate × RsaPrivateKey)
  create_cert common_name not_after = do
    key ←
        wrapped_exec "error generating RSA key for jwks"
          (with_random (x.generate_key s.key_size_bits))
    serial ← wrapped_exec "error generating serial number for jwks" generate_cert_serial_number
    now_utc ← now x
    checked ← lift (check_not_after now_utc not_after)
    der ←
        wrapped_exec "error generating cert for jwks"
          (with_random (x.create_certificate (template common_name now_utc not_after serial) key))
    cert ← lift (wrap "error parsing generated cert for jwks" (x.parse_certificate der))
    pure (cert, key)

  -- createJWKS: a set of one key, whose ID is a new UUID and an index.
  unfoldable pub create_jwks_at : Certificate → RsaPrivateKey → ℤ → Exec Env Jwks
  create_jwks_at cert key index = do
    id ← with_random x.new_uuid
    pure (
        new_jwks (
          some (new_jwk (cert ∷ []) key (id <> ("." <> format_int index)) "sig" s.signature_algo)
          ∷ []))

  -- CreateJwks
  unfoldable pub create_jwks : String → Time → Exec Env Jwks
  create_jwks common_name not_after = do
    created ← wrapped_exec "error creating JWKS cert" (create_cert common_name not_after)
    create_jwks_at created.0 created.1 (pos 0)
