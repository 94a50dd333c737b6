-- ===== src/Crypto/Rotation/Schedule.antt =====
-- The life of a set over several calls of RotateIfNeeded.
use mathlib.Core.Path.{subst}
use altinn_k8s_operator.Base.{
  ok_injective, ◌+◌, ◌-◌, ◌%◌, ◌≤◌, ◌<◌, ◌≡◌, refl, ◌∙◌, ap, sym, String, Option, none, some, List,
  [], ◌∷◌, ok, crash, arith, inl, inr, ◌>>=◌ as ◌>>=ᵣ◌, >>=-eq-ok,
}
use altinn_k8s_operator.Base.Exec.{◌>>=◌}
use altinn_k8s_operator.Base.Int.{ℤ}
use altinn_k8s_operator.Base.Text.Decimal.{successor}
use altinn_k8s_operator.Base.Text.Decimal.RoundTrip.{IsInt, successor-IsInt}
use altinn_k8s_operator.Time.{Time, second}
use altinn_k8s_operator.Crypto.Types.{Certificate, Env, External, KeepsValidity}
use altinn_k8s_operator.Crypto.Jwks.{Jwk, Jwks, key_id}
use altinn_k8s_operator.Crypto.ActiveKey.{select, first_certificate, index_of}
use altinn_k8s_operator.Crypto.ActiveKey.Index.{index_of-format_int, index_of-IsInt}
use altinn_k8s_operator.Crypto.ActiveKey.Latest.{
  Holds, first_certificate_of_Holds, HasOne, select-IsLatest, select-HasOne,
}
use altinn_k8s_operator.Crypto.Service.{CryptoService, now}
use altinn_k8s_operator.Crypto.Service.Certificates.{IsNewKey}
use altinn_k8s_operator.Crypto.Rotation.{rotation_margin, rotate_if_due, rotate_if_needed}
use altinn_k8s_operator.Crypto.Rotation.NewKey.{IsRotation, rotate_if_needed-IsRotation}

some_injective : {A : Type 0} {a b : A} → some a ≡ some b → a ≡ b
some_injective e = cc

-- A new key has one certificate.
IsNewKey-Holds :
    (not_after : Time) (index : ℤ) (k : Option Jwk) (n : IsNewKey not_after index k)
    → Holds k n.cert
IsNewKey-Holds not_after index k n = rw n.points (record { there = λ e. cc; only = n.certificates })

-- The index of a new key's ID.
new_index :
    (not_after : Time) (index : ℤ) (k : Option Jwk) (n : IsNewKey not_after (successor index) k)
    → IsInt index
    → (key_id k >>=ᵣ index_of) ≡ ok (successor index)
new_index not_after index k n h =
    rw n.points (rw n.id (index_of-format_int n.uuid (successor index) (successor-IsInt index h)))

-- The key that a loop selects, and that has a certificate, has no other.
selected-HasOne :
    (keys : List (Option Jwk)) (active : Option Jwk) (c : Certificate)
    → select none keys ≡ ok active
    → first_certificate active ≡ ok c
    → HasOne active
selected-HasOne [] none c h f = unfold first_certificate in cc
selected-HasOne [] (some j) c h f = unfold select in cc
selected-HasOne (k ∷ keys) active c h f =
    let (b, cb, e, l) = select-IsLatest k keys (select-HasOne none (k ∷ keys) active h) in
    subst HasOne (ok_injective (sym e ∙ h)) (cb, l.holds)

Holds-unique : (k : Option Jwk) (c d : Certificate) → Holds k c → Holds k d → c ≡ d
Holds-unique k c d h g = cc (h.only, g.only)

module _ (x : External) (s : CryptoService) (name : String) (not_after : Time) where
  not_due :
      (jwks : Jwks) (active : Option Jwk) (c : Certificate) (e : Env)
      → select none jwks.keys ≡ ok active
      → first_certificate active ≡ ok c
      → x.clock e.readings + rotation_margin < c.not_after
      → rotate_if_needed x s name not_after (some jwks) e
        ≡ (ok none, record e { readings = e.readings + 1 })
  unfolding rotate_if_needed rotate_if_due now ◌>>=◌
  not_due jwks active c e h f lt = ground arith

module _ (x : External) (laws : KeepsValidity x) (s : CryptoService) (name : String)
    (not_after : Time) where
  IsRotation-of :
      (jwks new : Jwks) (e e' : Env)
      → rotate_if_needed x s name not_after (some jwks) e ≡ (ok (some new), e')
      → IsRotation not_after jwks (x.clock e.readings) (some new)
  IsRotation-of jwks new e e' h =
      elim (rotate_if_needed-IsRotation x laws s name not_after jwks (some new) e e' h) [
        | inl (absent, _) ↦ cc
        | inr r ↦ r
      ]

  new_keys :
      (jwks new : Jwks) (t : Time) (r : IsRotation not_after jwks t (some new))
      → new ≡ record { keys = r.fresh ∷ r.active ∷ [] }
  new_keys jwks new t r = some_injective r.keys

  -- The latest certificate of a new set ends no earlier than that of its new key.
  latest_of_new :
      (jwks : Jwks) (t : Time) (o : Option Jwks) (r : IsRotation not_after jwks t o)
      → (b : Option Jwk) × (c : Certificate) × (select none (r.fresh ∷ r.active ∷ []) ≡ ok b)
        × (first_certificate b ≡ ok c)
        × (not_after - not_after % second ≤ c.not_after)
  latest_of_new jwks t o r =
      let fresh : Holds r.fresh (r.new).cert = IsNewKey-Holds not_after _ r.fresh r.new in
      let old : HasOne r.active = selected-HasOne jwks.keys r.active r.cert r.selected r.first in
      let (b, c, e, l) =
        select-IsLatest r.fresh (r.active ∷ []) (((r.new).cert, fresh), (old, tt)) in
      let (c₀, h₀, le) = l.last.0 in
      (
        b,
        c,
        e,
        first_certificate_of_Holds b c l.holds,
        omega (
          arith,
          (r.new).ends,
          ap (λ (d : Certificate). d.not_after) (Holds-unique r.fresh c₀ (r.new).cert h₀ fresh),
          le,
        ),
      )

  -- After a rotation the new set is left alone for as long as the certificate of its new key ends
  -- more than a week later: a call at such a time returns nothing and creates no key.
  pub rotation_settles :
      (jwks new : Jwks) (e e' later : Env)
      → rotate_if_needed x s name not_after (some jwks) e ≡ (ok (some new), e')
      → x.clock later.readings + rotation_margin < not_after - not_after % second
      → rotate_if_needed x s name not_after (some new) later
        ≡ (ok none, record later { readings = later.readings + 1 })
  rotation_settles jwks new e e' later h lt =
      let r = IsRotation-of jwks new e e' h in
      let (b, c, selected, first, le) = latest_of_new jwks (x.clock e.readings) (some new) r in
      not_due x s name not_after new b c later
        (ap (λ (j : Jwks). select none j.keys) (new_keys jwks new (x.clock e.readings) r)
          ∙ selected)
        first (omega arith)

  -- The new key of a rotation comes first, the old one second, and the index at the end of the new
  -- key's ID is the one after the old key's.
  pub rotation-index :
      (jwks new : Jwks) (e e' : Env)
      → rotate_if_needed x s name not_after (some jwks) e ≡ (ok (some new), e')
      → (fresh active : Option Jwk) × (index : ℤ) × (new.keys ≡ fresh ∷ active ∷ [])
        × (select none jwks.keys ≡ ok active)
        × ((key_id active >>=ᵣ index_of) ≡ ok index)
        × ((key_id fresh >>=ᵣ index_of) ≡ ok (successor index))
  rotation-index jwks new e e' h =
      let r = IsRotation-of jwks new e e' h in
      let (id, there, indexed) = >>=-eq-ok (key_id r.active) _ r.indexed in
      (
        r.fresh,
        r.active,
        r.index,
        ap (λ (j : Jwks). j.keys) (new_keys jwks new (x.clock e.readings) r),
        r.selected,
        r.indexed,
        new_index not_after r.index r.fresh r.new (index_of-IsInt id r.index indexed),
      )

  -- A set without keys makes the call panic.
  pub rotate_empty :
      (e : Env)
      → (rotate_if_needed x s name not_after (some (record { keys = [] })) e).0
        ≡ crash "index out of range"
  unfolding rotate_if_needed select first_certificate now ◌>>=◌
  rotate_empty e = refl
