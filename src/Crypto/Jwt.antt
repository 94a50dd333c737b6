-- ===== src/Crypto/Jwt.antt =====
-- internal/crypto/jwt.go: signed tokens. go-jose is the parameter `Jose`.
pub mod NewJwt
pub mod RoundTrip
pub mod Examples
use altinn_k8s_operator.Base.{
  String, ◌==◌, Bool, true, false, Option, none, some, List, [], ◌∷◌, Result, ok, err, message,
  crash, fail_if, not, ◌||◌, length, nat_eq, ◌>>=◌, ◌>>◌,
}
use altinn_k8s_operator.Base.Int.{ℤ}
use altinn_k8s_operator.Base.Map.{Map, lookup}
use altinn_k8s_operator.Time.{Time}
use altinn_k8s_operator.Crypto.Types.{JsonWebKey}
use altinn_k8s_operator.Crypto.Jwks.{Jwk, nil_pointer}

-- jwt.Claims; a jwt.NumericDate is an integer of 64 bits, and nil if it is missing.
pub record JoseClaims : Type 0 where
  pub issuer : String
  pub subject : String
  pub audience : List String
  pub expiry : Option ℤ
  pub not_before : Option ℤ
  pub issued_at : Option ℤ
  pub id : String

-- A value of a map[string]interface{} that was read from JSON.
pub data ClaimValue : Type 0 where
  text : String → ClaimValue
  other_value : ClaimValue

-- jwt.JSONWebToken, with the key IDs of its headers.
pub record Token : Type 0 where
  pub headers : List String
  pub serialized : String

-- jose.SigningKey with the options that the program sets.
pub record SigningKey : Type 0 where
  pub algorithm : String
  pub key : JsonWebKey
  pub type : String
  pub kid : String

pub record Jose : Type 1 where
  pub Signer : Type 0
  pub new_signer : SigningKey → Result Signer
  -- jwt.Signed(signer).Claims(claims).Claims(scope).Serialize()
  pub serialize : Signer → JoseClaims → String → Result String
  -- jwt.ParseSigned, with the algorithms that are allowed
  pub parse_signed : String → List String → Result Token
  -- token.Claims for the key, into a jwt.Claims and into a map
  pub claims : Token → JsonWebKey → Result JoseClaims
  pub private_claims : Token → JsonWebKey → Result (Map ClaimValue)
  -- jwt.NewNumericDate, and the method Time
  pub new_numeric_date : Time → Option ℤ
  pub date_time : ℤ → Time

abbrev pub signature_algorithms : List String
signature_algorithms = "RS256" ∷ "RS384" ∷ "RS512" ∷ []

pub record Claims : Type 0 where
  pub audience : List String
  pub issuer : String
  pub subject : String
  pub issued_at : Time
  pub not_before : Time
  pub expiry : Time
  pub id : String
  pub scope : String

pub record Jwt : Type 0 where
  pub token : Token

-- slices.Contains
unfoldable pub contains : List String → String → Bool
contains [] a = false
contains (x ∷ xs) a = x == a || contains xs a

abbrev pub algorithm : Option Jwk → Result String
algorithm none = nil_pointer
algorithm (some j) = ok j.inner.algorithm

abbrev pub key_id_of_headers : List String → Result String
key_id_of_headers (id ∷ []) = ok id
key_id_of_headers _ = crash "unexpected number of headers in JWT"

unfoldable pub key_id : Jwt → Result String
key_id j = key_id_of_headers j.token.headers

-- The time of a date that may be missing, with the zero time in its place.
abbrev pub time_or_zero : Jose → Option ℤ → Time
time_or_zero jose none = 0
time_or_zero jose (some d) = jose.date_time d

-- The scope, if the private claims could be read and hold a text under that name.
abbrev pub scope_of_value : Option ClaimValue → String
scope_of_value (some (text s)) = s
scope_of_value _ = ""

abbrev pub scope_of : Result (Map ClaimValue) → String
scope_of (ok claims) = scope_of_value (lookup "scope" claims)
scope_of _ = ""

module _ (jose : Jose) where
  unfoldable pub parse_jwt : String → Result Jwt
  parse_jwt token_string = do
    token ← jose.parse_signed token_string signature_algorithms
    fail_if (not (nat_eq (length token.headers) 1)) (message "unexpected number of headers in JWT")
    ok (record { token = token })

  unfoldable pub decode_claims : Jwt → Option Jwk → Result Claims
  decode_claims j none = err (message "JWK cannot be nil")
  decode_claims j (some jwk) = do
    c ← jose.claims j.token jwk.inner
    ok (record {
      audience = c.audience;
      issuer = c.issuer;
      subject = c.subject;
      issued_at = time_or_zero jose c.issued_at;
      not_before = time_or_zero jose c.not_before;
      expiry = time_or_zero jose c.expiry;
      id = c.id;
      scope = scope_of (jose.private_claims j.token jwk.inner);
    })

  unfoldable pub public_claims : List String → String → Time → Time → String → JoseClaims
  public_claims audience issuer issued expiry id = record {
    issuer = issuer;
    subject = "";
    audience = audience;
    expiry = jose.new_numeric_date expiry;
    not_before = jose.new_numeric_date issued;
    issued_at = jose.new_numeric_date issued;
    id = id;
  }

  abbrev signing_key : Jwk → SigningKey
  signing_key j = record {
    algorithm = j.inner.algorithm;
    key = j.inner;
    type = "JWT";
    kid = j.inner.key_id;
  }

  -- The token of a private key, for claims that are complete.
  unfoldable pub sign : Option Jwk → JoseClaims → String → Result String
  unfolding contains
  sign none claims scope = nil_pointer
  sign (some j) claims scope = do
    fail_if (not (contains signature_algorithms j.inner.algorithm))
        (message "unsupported signing algorithm")
    signer ← jose.new_signer (signing_key j)
    jose.serialize signer claims scope
