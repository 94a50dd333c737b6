-- ===== src/Crypto/Jwt/Examples.antt =====
-- Tokens at concrete data: go-jose as it signs and verifies one set of claims.
use altinn_k8s_operator.Base.{
  ℕ, ◌+◌, ◌*◌, ◌/◌, ◌≡◌, refl, String, Option, none, some, [], ◌∷◌, Result, ok, err, message,
  ok_injective, ◌<◌, arith, zero, suc,
}
use altinn_k8s_operator.Base.Same.{Same, ◌>>=◌, same_text, same_list, same_nat, same_option}
use altinn_k8s_operator.Base.Exec.{Exec, ◌>>=◌ as ◌>>=ₑ◌}
use altinn_k8s_operator.Base.Int.{ℤ, pos, negsuc}
use altinn_k8s_operator.Base.Map.{Map, lookup}
use altinn_k8s_operator.Time.{Time, second}
use altinn_k8s_operator.Crypto.Types.{rsa_private}
use altinn_k8s_operator.Crypto.Jwks.{Jwk}
use altinn_k8s_operator.Crypto.Demo.{demo, today, pair_of}
use altinn_k8s_operator.Crypto.Jwt.{
  Jose, JoseClaims, SigningKey, Token, ClaimValue, text, sign, contains, public_claims,
}
use altinn_k8s_operator.Crypto.Jwt.NewJwt.{new_jwt}
use altinn_k8s_operator.Crypto.Jwt.RoundTrip.{
  Verifies, IsSigned, IsIssued, to_second, new_jwt-IsReadable,
}

abbrev date_of : Time → Option ℤ
date_of zero = none
date_of (suc t) = some (pos (suc t / second))

abbrev time_of : ℤ → Time
time_of (pos d) = d * second
time_of (negsuc d) = 0

abbrev pub demo_claims : JoseClaims
demo_claims = record {
  issuer = "operator";
  subject = "";
  audience = "https://maskinporten.dev/" ∷ [];
  expiry = date_of (today + 60 * second);
  not_before = date_of today;
  issued_at = date_of today;
  id = "5e1f";
}

abbrev same_int : (a b : ℤ) → Same a b
same_int (pos m) (pos n) = do p ← same_nat m n; some (λ i. pos (p i))
same_int (negsuc m) (negsuc n) = do p ← same_nat m n; some (λ i. negsuc (p i))
same_int _ _ = none

abbrev same_claims : (a b : JoseClaims) → Same a b
same_claims a b = do
  p ← same_text a.issuer b.issuer
  q ← same_text a.subject b.subject
  r ← same_list same_text a.audience b.audience
  s ← same_option same_int a.expiry b.expiry
  t ← same_option same_int a.not_before b.not_before
  u ← same_option same_int a.issued_at b.issued_at
  v ← same_text a.id b.id
  some (λ i. record {
    issuer = p i;
    subject = q i;
    audience = r i;
    expiry = s i;
    not_before = t i;
    issued_at = u i;
    id = v i;
  })

-- The claims, the scope and the key ID of the one token.
abbrev same_token :
    (c : JoseClaims) (scope kid : String)
    → Option ((c ≡ demo_claims) × (scope ≡ "altinn:maskinporten") × (kid ≡ "key-0"))
same_token c scope kid = do
  p ← same_claims c demo_claims
  q ← same_text scope "altinn:maskinporten"
  r ← same_text kid "key-0"
  some (p, q, r)

abbrev serialized_if : {A : Type 0} → Option A → Result String
serialized_if none = err (message "unknown claims")
serialized_if (some a) = ok "eyJ0"

abbrev pub the_token : Token
the_token = record { headers = "key-0" ∷ []; serialized = "eyJ0" }

abbrev the_scope : Map ClaimValue
the_scope = ("scope", text "altinn:maskinporten") ∷ []

abbrev pub demo_jose : Jose
demo_jose = record {
  Signer = SigningKey;
  new_signer = λ k. ok k;
  serialize = λ k c scope. serialized_if (same_token c scope k.kid);
  parse_signed = λ s algorithms. ok the_token;
  claims = λ token v. ok demo_claims;
  private_claims = λ token v. ok the_scope;
  new_numeric_date = date_of;
  date_time = time_of;
}

demo-IsSigned :
    (k : SigningKey) (c : JoseClaims) (scope signed : String)
    (known : Option ((c ≡ demo_claims) × (scope ≡ "altinn:maskinporten") × (k.kid ≡ "key-0")))
    → serialized_if known ≡ ok signed
    → IsSigned demo_jose demo k c scope the_token
demo-IsSigned k c scope signed none e = absurd (let stuck = e in cc)
demo-IsSigned k c scope signed (some (p, q, r)) e = record {
  one_header = cc;
  verified = λ v same. cc;
  verified_scope = λ v same. (the_scope, refl, unfold lookup in rw q refl);
}

later_date : (t : Time) → 0 < t → (d : ℤ) × (date_of t ≡ some d) × (time_of d ≡ to_second t)
later_date zero later = absurd (omega arith)
later_date (suc t) later = (pos (suc t / second), refl, omega arith)

pub demo-Verifies : Verifies demo_jose demo
demo-Verifies = record {
  parse-serialize = λ k s c scope signed algorithms new serialized allowed. (
    the_token,
    refl,
    demo-IsSigned k c scope signed (same_token c scope k.kid)
        (rw (← ok_injective new) at serialized),
  );
  zero_date = refl;
  date_time-new = later_date;
}

abbrev pub demo_jwk : Jwk
demo_jwk = record {
  inner = record {
    certificates = [];
    key = rsa_private (pair_of 77);
    key_id = "key-0";
    key_use = "sig";
    algorithm = "RS512";
  };
}

-- A clock that stands still, and one ID.
abbrev now : Exec ℕ Time
now n = (ok today, n + 1)

abbrev new_id : Exec ℕ String
new_id n = (ok "5e1f", n + 1)

signed_run :
    new_jwt demo_jose demo now new_id
      (some demo_jwk)
      ("https://maskinporten.dev/" ∷ [])
      "operator"
      "altinn:maskinporten"
      (today + 60 * second)
      0
    ≡ (ok "eyJ0", 2)
unfolding new_jwt sign contains public_claims ◌>>=ₑ◌
signed_run = refl

new_jwt-IsReadable_example :
    IsIssued demo_jose demo demo-Verifies now new_id demo_jwk
      ("https://maskinporten.dev/" ∷ [])
      "operator"
      "altinn:maskinporten"
      (today + 60 * second)
      0
      "eyJ0"
      2
new_jwt-IsReadable_example =
    new_jwt-IsReadable demo_jose demo demo-Verifies now new_id demo_jwk
      ("https://maskinporten.dev/" ∷ []) "operator" "altinn:maskinporten" (today + 60 * second) 0 2
      "eyJ0" signed_run
