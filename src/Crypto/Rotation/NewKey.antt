-- ===== src/Crypto/Rotation/NewKey.antt =====
-- What RotateIfNeeded returns when it rotates.
use altinn_k8s_operator.Base.{
  ◌+◌, ◌≤◌, ◌<◌, ◌≡◌, refl, ◌∙◌, ap, String, Option, none, some, List, [], ◌∷◌, ◌++◌, ok, arith,
  Bool-cases, ◌⊎◌, inl, inr, ◌>>=◌,
}
use altinn_k8s_operator.Base.Exec.Ensures.{
  Ensures, Ensures-bind, Ensures-pure, Ensures-lift, Ensures-weaken,
}
use altinn_k8s_operator.Base.Int.{ℤ}
use altinn_k8s_operator.Base.Text.Decimal.{successor}
use altinn_k8s_operator.Time.{Time, is_after}
use altinn_k8s_operator.Crypto.Types.{Certificate, Env, External, KeepsValidity}
use altinn_k8s_operator.Crypto.Jwks.{Jwk, Jwks, key_id}
use altinn_k8s_operator.Crypto.ActiveKey.{select, first_certificate, index_of}
use altinn_k8s_operator.Crypto.Service.{CryptoService}
use altinn_k8s_operator.Crypto.Service.Certificates.{
  IsNewKey, Ensures-now, Ensures-wrapped, create_cert-Ensures, create_jwks_at-Ensures,
}
use altinn_k8s_operator.Crypto.Rotation.{rotation_margin, rotate, rotate_if_due, rotate_if_needed}

-- A call that does not rotate has selected a key that ends more than a week later.
pub record IsNotDue (jwks : Jwks) (now_utc : Time) : Type 0 where
  pub active : Option Jwk
  pub cert : Certificate
  pub selected : select none jwks.keys ≡ ok active
  pub first : first_certificate active ≡ ok cert
  pub later : now_utc + rotation_margin < cert.not_after

-- A call that rotates has selected a key that ends by then, and returns a new key before it.
pub record IsRotation (not_after : Time) (jwks : Jwks) (now_utc : Time) (o : Option Jwks)
    : Type 0 where
  pub active : Option Jwk
  pub cert : Certificate
  pub fresh : Option Jwk
  pub index : ℤ
  pub selected : select none jwks.keys ≡ ok active
  pub first : first_certificate active ≡ ok cert
  pub due : cert.not_after ≤ now_utc + rotation_margin
  pub keys : o ≡ some (record { keys = fresh ∷ active ∷ [] })
  pub indexed : (key_id active >>= index_of) ≡ ok index
  pub new : IsNewKey not_after (successor index) fresh

module _ (x : External) (laws : KeepsValidity x) (s : CryptoService) (name : String)
    (not_after : Time) where
  rotate-Ensures :
      (active : Option Jwk) (e : Env)
      → Ensures (rotate x s name not_after active) e (λ o e'.
        (fresh : Option Jwk) × (index : ℤ) × (o ≡ some (record { keys = fresh ∷ active ∷ [] }))
        × (key_id active >>= index_of ≡ ok index)
        × IsNewKey not_after (successor index) fresh)
  unfolding rotate
  rotate-Ensures active e = Ensures-bind _ _ e (Ensures-lift _ e) λ id e₁ h₁.
      Ensures-bind _ _ e₁ (Ensures-lift _ e₁) λ index e₂ h₂.
        Ensures-bind _ _ e₂
          (Ensures-wrapped _ _ e₂ _ (create_cert-Ensures x laws s name not_after e₂))
          λ made e₃ h₃.
            Ensures-bind _ _ e₃
              (create_jwks_at-Ensures x laws s made.0 made.1 (successor index) not_after e₃ h₃.1)
              λ fresh e₄ h₄. Ensures-pure _ e₄ _ (
                h₄.0,
                index,
                ap (λ (keys : List (Option Jwk)). some (record { keys = keys ++ (active ∷ []) }))
                    h₄.1,
                rw h₁.0 h₂.0,
                h₄.2,
              )

  -- Either nothing is due, or a key is replaced.
  abbrev pub Outcome : Jwks → Time → Option Jwks → Type 0
  Outcome jwks t o = ((o ≡ none) × IsNotDue jwks t) ⊎ IsRotation not_after jwks t o

  rotate_if_due-Ensures :
      (jwks : Jwks) (active : Option Jwk) (cert : Certificate) (t : Time) (e : Env)
      → select none jwks.keys ≡ ok active
      → first_certificate active ≡ ok cert
      → Ensures (rotate_if_due x s name not_after active t cert) e (λ o e'. Outcome jwks t o)
  unfolding rotate_if_due
  rotate_if_due-Ensures jwks active cert t e selected first =
      elim (Bool-cases (is_after cert.not_after (t + rotation_margin))) [
        | inl fresh ↦ rw fresh (
            Ensures-pure none e _ (
              inl (
                refl,
                record {
                  active = active;
                  cert = cert;
                  selected = selected;
                  first = first;
                  later = ground arith;
                },
              )))
        | inr due ↦ rw due (
            Ensures-weaken _ e (rotate-Ensures active e) λ o e' (k, index, keys, indexed, new).
              inr (record {
                active = active;
                cert = cert;
                fresh = k;
                index = index;
                selected = selected;
                first = first;
                due = ground arith;
                keys = keys;
                indexed = indexed;
                new = new;
              }))
      ]

  pub rotate_if_needed-Ensures :
      (jwks : Jwks) (e : Env)
      → Ensures
          (rotate_if_needed x s name not_after (some jwks))
          e
          (λ o e'. Outcome jwks (x.clock e.readings) o)
  unfolding rotate_if_needed
  rotate_if_needed-Ensures jwks e = Ensures-bind _ _ e (Ensures-lift _ e) λ active e₁ h₁.
      Ensures-bind _ _ e₁ (Ensures-now x e₁) λ t e₂ h₂.
        Ensures-bind _ _ e₂ (Ensures-lift _ e₂) λ cert e₃ h₃.
          let read : t ≡ x.clock e.readings = h₂.0 ∙ ap (λ (v : Env). x.clock v.readings) h₁.1 in
          rw read (rotate_if_due-Ensures jwks active cert (x.clock e.readings) e₃ h₁.0 h₃.0)

  -- A call of RotateIfNeeded that succeeds has selected a key. Either its certificate ends more
  -- than a week after the instant that the clock gives, and nothing is returned; or it ends by
  -- then, and the new set holds a new key, with the next index, and the selected key behind it.
  pub rotate_if_needed-IsRotation :
      (jwks : Jwks) (o : Option Jwks) (e e' : Env)
      → rotate_if_needed x s name not_after (some jwks) e ≡ (ok o, e')
      → ((o ≡ none) × IsNotDue jwks (x.clock e.readings))
        ⊎ IsRotation not_after jwks (x.clock e.readings) o
  rotate_if_needed-IsRotation jwks o e e' h = (rotate_if_needed-Ensures jwks e).returns o e' h
