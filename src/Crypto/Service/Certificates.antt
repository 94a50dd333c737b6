-- ===== src/Crypto/Service/Certificates.antt =====
-- What a created certificate and a created key set are (createCert, createJWKS and CreateJwks of
-- internal/crypto/crypto.go).
use altinn_k8s_operator.Base.{
  ℕ, ◌+◌, ◌-◌, ◌%◌, ◌<◌, ◌≡◌, refl, ◌∙◌, ap, sym, String, ◌<>◌, Option, some, List, [], ◌∷◌, Result,
  ok, err, crash, wrap, arith,
}
use altinn_k8s_operator.Base.Exec.{Exec}
use altinn_k8s_operator.Base.Exec.Ensures.{
  Ensures, Ensures-bind, Ensures-pure, Ensures-lift, Ensures-weaken,
}
use altinn_k8s_operator.Base.Int.{ℤ, pos}
use altinn_k8s_operator.Base.Text.Decimal.{format_int}
use altinn_k8s_operator.Time.{Time, second}
use altinn_k8s_operator.Crypto.Types.{
  Certificate, RsaPrivateKey, rsa_private, Env, External, KeepsValidity,
}
use altinn_k8s_operator.Crypto.Jwks.{Jwk, Jwks, new_jwk, new_jwks}
use altinn_k8s_operator.Crypto.Service.{
  CryptoService, now, with_random, wrapped_exec, generate_cert_serial_number, template,
  check_not_after, create_cert, create_jwks_at, create_jwks,
}

wrap-eq-ok : {A : Type 0} (m : String) (r : Result A) {a : A} → wrap m r ≡ ok a → r ≡ ok a
wrap-eq-ok m (ok b) h = h
wrap-eq-ok m (err e) h = cc
wrap-eq-ok m (crash c) h = cc

pub Ensures-wrapped :
    {A : Type 0} (m : String) (e : Exec Env A) (s : Env) (Q : A → Env → Type 0)
    → Ensures e s Q
    → Ensures (wrapped_exec m e) s Q
Ensures-wrapped m e s Q h = record {
  returns = λ a s' eq.
      let first : (e s).0 ≡ ok a = wrap-eq-ok m (e s).0 (ap (λ p. p.0) eq) in
      let second : (e s).1 ≡ s' = ap (λ p. p.1) eq in h.returns a s' (λ i. (first i, second i));
}

check_not_after-lt :
    (x : External) (s : CryptoService) (t u : Time) {v : Unit {0}}
    → check_not_after x s t u ≡ ok v
    → t < u
unfolding check_not_after
check_not_after-lt x s t u h = ground arith

-- A call that reads random bytes leaves the clock alone.
pub Ensures-with_random :
    {A : Type 0} (f : List ℕ → Result A × List ℕ) (s : Env)
    → Ensures
        (with_random f)
        s
        (λ a s'. (f s.random ≡ (ok a, s'.random)) × (s'.readings ≡ s.readings))
Ensures-with_random f s = record {
  returns = λ a s' e. (λ i. ((e i).0, ((e i).1).random), ap (λ p. (p.1).readings) (sym e));
}

pub Ensures-now :
    (x : External) (s : Env)
    → Ensures (now x) s (λ t s'. (t ≡ x.clock s.readings) × (s'.readings ≡ s.readings + 1))
unfolding now
Ensures-now x s = record { returns = λ a s' e. (ground arith, ground arith) }

serial-Ensures :
    (e : Env) → Ensures generate_cert_serial_number e (λ serial e'. e'.readings ≡ e.readings)
unfolding generate_cert_serial_number
serial-Ensures e =
    Ensures-bind _ _ e (Ensures-with_random _ e)
      λ bytes e₁ h. record { returns = λ n e' eq. ap (λ p. (p.1).readings) (sym eq) ∙ h.1 }

-- A new set has one key: it holds the certificate, which ends in the second that was asked for,
-- and its ID ends in the index.
pub record IsNewKey (not_after : Time) (index : ℤ) (k : Option Jwk) : Type 0 where
  pub jwk : Jwk
  pub points : k ≡ some jwk
  pub cert : Certificate
  pub pair : RsaPrivateKey
  pub uuid : String
  pub certificates : jwk.inner.certificates ≡ cert ∷ []
  pub private : jwk.inner.key ≡ rsa_private pair
  pub ends : cert.not_after ≡ not_after - not_after % second
  pub id : jwk.inner.key_id ≡ uuid <> ("." <> format_int index)

module _ (x : External) (laws : KeepsValidity x) (s : CryptoService) where
  -- A certificate is created only to end after the instant that the clock gives, and it ends in
  -- the second that was asked for.
  pub create_cert-Ensures :
      (name : String) (not_after : Time) (e : Env)
      → Ensures (create_cert x s name not_after) e (λ created e'.
        (x.clock e.readings < not_after)
        × ((created.0).not_after ≡ not_after - not_after % second)
        × (e'.readings ≡ e.readings + 1))
  unfolding create_cert template
  create_cert-Ensures name not_after e =
      Ensures-bind _ _ e (Ensures-wrapped _ _ e _ (Ensures-with_random _ e)) λ key e₁ h₁.
        Ensures-bind _ _ e₁ (Ensures-wrapped _ _ e₁ _ (serial-Ensures e₁)) λ serial e₃ h₃.
          Ensures-bind _ _ e₃ (Ensures-now x e₃) λ t e₄ h₄.
            Ensures-bind _ _ e₄ (Ensures-lift _ e₄) λ checked e₅ h₅.
              Ensures-bind _ _ e₅ (Ensures-wrapped _ _ e₅ _ (Ensures-with_random _ e₅)) λ der e₆ h₆.
                Ensures-bind _ _ e₆ (Ensures-lift _ e₆) λ cert e₇ h₇. Ensures-pure _ e₇ _ (
                  omega (
                    arith,
                    check_not_after-lt x s t not_after h₅.0,
                    h₄.0,
                    ap x.clock (h₃ ∙ h₁.1),
                  ),
                  laws.not_after-parse (template x s name t not_after serial) key e₅.random der
                      e₆.random cert h₆.0 (wrap-eq-ok _ (x.parse_certificate der) h₇.0),
                  (ap (λ (v : Env). v.readings) (h₇.1)
                      ∙ h₆.1
                      ∙ ap (λ (v : Env). v.readings) (h₅.1)
                      ∙ h₄.1
                      ∙ ap (λ (n : ℕ). n + 1) (h₃ ∙ h₁.1)),
                )

  pub create_jwks_at-Ensures :
      (c : Certificate) (k : RsaPrivateKey) (index : ℤ) (not_after : Time) (e : Env)
      → c.not_after ≡ not_after - not_after % second
      → Ensures (create_jwks_at x s c k index) e (λ jwks e'.
        (fresh : Option Jwk) × (jwks.keys ≡ fresh ∷ [])
        × IsNewKey not_after index fresh
        × (e'.readings ≡ e.readings))
  unfolding create_jwks_at new_jwks new_jwk
  create_jwks_at-Ensures c k index not_after e h =
      Ensures-bind _ _ e (Ensures-with_random _ e) λ id e₁ h₁. Ensures-pure _ e₁ _ (
        _,
        refl,
        record {
          jwk = _;
          points = refl;
          cert = c;
          pair = k;
          uuid = id;
          certificates = refl;
          private = refl;
          ends = h;
          id = refl;
        },
        h₁.1,
      )

  pub create_jwks-Ensures :
      (name : String) (not_after : Time) (e : Env)
      → Ensures (create_jwks x s name not_after) e (λ jwks e'.
        (x.clock e.readings < not_after)
        × (fresh : Option Jwk) × (jwks.keys ≡ fresh ∷ [])
        × IsNewKey not_after (pos 0) fresh)
  unfolding create_jwks
  create_jwks-Ensures name not_after e =
      Ensures-bind _ _ e (Ensures-wrapped _ _ e _ (create_cert-Ensures name not_after e))
        λ made e₁ h₁.
          Ensures-weaken _ e₁ (create_jwks_at-Ensures made.0 made.1 (pos 0) not_after e₁ h₁.1)
            λ jwks e₂ (fresh, keys, new, _). (h₁.0, fresh, keys, new)

  -- A set that CreateJwks returns has one key. Its certificate ends in the second that was asked
  -- for, which was after the instant that the clock gave, and its ID has the index 0.
  pub create_jwks-IsNewKey :
      (name : String) (not_after : Time) (e e' : Env) (jwks : Jwks)
      → create_jwks x s name not_after e ≡ (ok jwks, e')
      → (x.clock e.readings < not_after)
        × (fresh : Option Jwk) × (jwks.keys ≡ fresh ∷ [])
        × IsNewKey not_after (pos 0) fresh
  create_jwks-IsNewKey name not_after e e' jwks h =
      (create_jwks-Ensures name not_after e).returns jwks e' h
