-- ===== src/Crypto/Jwt/RoundTrip.antt =====
-- internal/crypto/jwt.go: a token that NewJWT signs is one that ParseJWT and DecodeClaims read.
use altinn_k8s_operator.Base.{
  ◌-◌, ◌%◌, ◌<◌, ◌≡◌, refl, String, Bool, true, false, none, some, List, [], ◌∷◌, ok, message,
  fail_if, arith, inl, inr, Bool-cases, ok_injective, zero, suc, >>=-eq-ok,
}
use altinn_k8s_operator.Base.Exec.{Exec}
use altinn_k8s_operator.Base.Exec.Ensures.{Ensures-bind, Ensures-lift, Ensures-self, Ensures-weaken}
use altinn_k8s_operator.Base.Int.{ℤ}
use altinn_k8s_operator.Base.Map.{Map, lookup}
use altinn_k8s_operator.Time.{Time, second}
use altinn_k8s_operator.Crypto.Types.{JsonWebKey, External}
use altinn_k8s_operator.Crypto.Jwks.{Jwk, is_public, public}
use altinn_k8s_operator.Crypto.Jwt.{
  Jose, JoseClaims, SigningKey, Token, ClaimValue, text, Claims, Jwt, contains, sign, signing_key,
  public_claims, parse_jwt, key_id, decode_claims, signature_algorithms, time_or_zero,
}
use altinn_k8s_operator.Crypto.Jwt.NewJwt.{new_jwt}

abbrev pub to_second : Time → Time
to_second t = t - t % second

-- The token has one header, for the key, and the other half of the key verifies the claims.
pub record IsSigned (jose : Jose) (x : External) (k : SigningKey) (c : JoseClaims) (scope : String)
    (token : Token) : Type 0 where
  pub one_header : token.headers ≡ k.kid ∷ []
  pub verified : (v : JsonWebKey) → v.key ≡ (x.public k.key).key → jose.claims token v ≡ ok c
  pub verified_scope :
      (v : JsonWebKey)
      → v.key ≡ (x.public k.key).key
      → (m : Map ClaimValue) × (jose.private_claims token v ≡ ok m)
        × (lookup "scope" m ≡ some (text scope))

-- What go-jose documents: what is signed with an allowed algorithm can be parsed and verified, and
-- a date counts the seconds of a time, with none for the zero time.
pub record Verifies (jose : Jose) (x : External) : Type 0 where
  pub parse-serialize :
      (k : SigningKey) (s : jose.Signer) (c : JoseClaims) (scope signed : String)
      (algorithms : List String)
      → jose.new_signer k ≡ ok s
      → jose.serialize s c scope ≡ ok signed
      → contains algorithms k.algorithm ≡ true
      → (token : Token) × (jose.parse_signed signed algorithms ≡ ok token)
        × IsSigned jose x k c scope token
  pub zero_date : jose.new_numeric_date 0 ≡ none
  pub date_time-new :
      (t : Time)
      → 0 < t
      → (d : ℤ) × (jose.new_numeric_date t ≡ some d) × (jose.date_time d ≡ to_second t)

-- The claims that a reader of the token gets.
abbrev pub claims_of : List String → String → String → Time → Time → String → Claims
claims_of audience issuer scope issued expiry id = record {
  audience = audience;
  issuer = issuer;
  subject = "";
  issued_at = to_second issued;
  not_before = to_second issued;
  expiry = to_second expiry;
  id = id;
  scope = scope;
}

-- The text is parsed into a token of this key, which decodes to these claims with the other half
-- of the key.
pub record IsReadable (jose : Jose) (x : External) (j : Jwk) (signed : String) (c : Claims)
    : Type 0 where
  pub parsed : Jwt
  pub parse : parse_jwt jose signed ≡ ok parsed
  pub key : key_id parsed ≡ ok j.inner.key_id
  pub decode : decode_claims jose parsed (some (public x j)) ≡ ok c

module _ (jose : Jose) (x : External) (law : Verifies jose x) where
  time_of_date : (t : Time) → time_or_zero jose (jose.new_numeric_date t) ≡ to_second t
  time_of_date zero = rw law.zero_date refl
  time_of_date (suc t) = let (d, new, time) = law.date_time-new (suc t) (omega arith) in rw new time

  parse_of_IsSigned :
      (k : SigningKey) (c : JoseClaims) (scope signed : String) (token : Token)
      → jose.parse_signed signed signature_algorithms ≡ ok token
      → IsSigned jose x k c scope token
      → parse_jwt jose signed ≡ ok (record { token = token })
  unfolding parse_jwt
  parse_of_IsSigned k c scope signed token e h = rw (e, h.one_header) refl

  public-key :
      (j : Jwk) → is_public x (some j) ≡ ok false → (public x j).inner.key ≡ (x.public j.inner).key
  unfolding public
  public-key j e = rw (ok_injective e) refl

  -- A signature is made with an allowed algorithm, by a signer for the key.
  sign_parts :
      (j : Jwk) (c : JoseClaims) (scope signed : String)
      → sign jose (some j) c scope ≡ ok signed
      → (s : jose.Signer) × (contains signature_algorithms j.inner.algorithm ≡ true)
        × (jose.new_signer (signing_key jose j) ≡ ok s)
        × (jose.serialize s c scope ≡ ok signed)
  unfolding sign
  sign_parts j c scope signed e =
      elim (Bool-cases (contains signature_algorithms j.inner.algorithm)) [
        | inl allowed ↦
            let (s, new, serialized) =
              >>=-eq-ok (jose.new_signer (signing_key jose j)) _ (rw allowed at e) in
            (s, allowed, new, serialized)
        | inr refused ↦ (let absurd_equation = rw refused at e in cc)
      ]

  private_of :
      (j : Jwk) (public : Bool)
      → is_public x (some j) ≡ ok public
      → fail_if public (message "cannot sign JWT with public key") ≡ ok tt
      → is_public x (some j) ≡ ok false
  private_of j true e h = cc
  private_of j false e h = e

  sign-IsReadable :
      (j : Jwk) (audience : List String) (issuer scope id signed : String) (issued expiry : Time)
      → is_public x (some j) ≡ ok false
      → sign jose (some j) (public_claims jose audience issuer issued expiry id) scope ≡ ok signed
      → IsReadable jose x j signed (claims_of audience issuer scope issued expiry id)
  unfolding decode_claims key_id public_claims
  sign-IsReadable j audience issuer scope id signed issued expiry private e =
      let c = public_claims jose audience issuer issued expiry id in
      let (s, allowed, new, serialized) = sign_parts j c scope signed e in
      let (token, parsed, h) =
        law.parse-serialize (signing_key jose j) s c scope signed signature_algorithms new
          serialized allowed in
      let (m, private_claims, found) = h.verified_scope (public x j).inner (public-key j private) in
      record {
        parsed = record { token = token };
        parse = parse_of_IsSigned (signing_key jose j) c scope signed token parsed h;
        key = rw h.one_header refl;
        decode =
            rw
              (
                h.verified (public x j).inner (public-key j private),
                private_claims,
                found,
                time_of_date issued,
                time_of_date expiry,
              )
              refl;
      }

  module _ {W : Type 0} (now : Exec W Time) (new_id : Exec W String) where
    -- The token is readable, with the time of the clock and an ID that was made after it was read.
    abbrev pub IsIssued : Jwk → List String → String → String → Time → W → String → W → Type 0
    IsIssued j audience issuer scope expiry w signed w' =
        (issued : Time) × (id : String) × (w₁ : W) × (now w ≡ (ok issued, w₁))
        × (new_id w₁ ≡ (ok id, w'))
        × IsReadable jose x j signed (claims_of audience issuer scope issued expiry id)

    -- If go-jose verifies what it signs, a token that NewJWT returns is one that ParseJWT accepts,
    -- under the key ID of the key. With the public half of the key, DecodeClaims reads the audience,
    -- the issuer and the scope back, the clock's time as the time of issue and the one from which
    -- the token is valid, and the expiry, each time cut to seconds.
    pub new_jwt-IsReadable :
        (j : Jwk) (audience : List String) (issuer scope : String) (expiry : Time) (w w' : W)
        (signed : String)
        → new_jwt jose x now new_id (some j) audience issuer scope expiry w ≡ (ok signed, w')
        → IsIssued j audience issuer scope expiry w signed w'
    unfolding new_jwt
    new_jwt-IsReadable j audience issuer scope expiry w w' signed e =
        (Ensures-bind _ _ w {Q = IsIssued j audience issuer scope expiry w} (Ensures-lift _ w)
            λ public s (private, same).
              Ensures-bind _ _ s (Ensures-lift _ s) λ checked s₀ (passed, same₀).
                Ensures-bind now _ s₀ (Ensures-self now s₀) λ issued s₁ read.
                  Ensures-bind new_id _ s₁ (Ensures-self new_id s₁) λ id s₂ made.
                    Ensures-weaken _ s₂ (Ensures-lift _ s₂) λ signed s₃ (is_signed, same₃). (
                      issued,
                      id,
                      s₁,
                      cc,
                      cc,
                      sign-IsReadable j audience issuer scope id signed issued expiry
                          (private_of j public private passed) is_signed,
                    )).returns
          signed w' e
