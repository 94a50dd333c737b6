-- ===== src/Crypto/Jwks/Public.antt =====
-- What a set that ToPublic returns holds.
use altinn_k8s_operator.Base.{
  ◌≡◌, refl, true, false, Option, none, some, List, [], ◌∷◌, ok, >>=-eq-ok, All, Forall₂, inl, inr,
  Bool-cases,
}
use altinn_k8s_operator.Crypto.Types.{RsaPrivateKey, rsa_private, rsa_public, External, KnowsRsa}
use altinn_k8s_operator.Crypto.Jwks.{Jwk, Jwks, public, public_keys, to_public}

-- A pointer to a key that holds an RSA key pair.
abbrev pub IsPair : Option Jwk → Type 0
IsPair none = ⊥
IsPair (some j) = (r : RsaPrivateKey) × (j.inner.key ≡ rsa_private r)

-- The second key is the public half of the first: same ID, same modulus, no certificate.
abbrev pub IsPublicHalf : External → Option Jwk → Option Jwk → Type 0
IsPublicHalf x (some j) (some p) =
    (r : RsaPrivateKey) × (j.inner.key ≡ rsa_private r)
    × (p.inner.key ≡ rsa_public r.modulus)
    × (p.inner.key_id ≡ j.inner.key_id)
    × (p.inner.certificates ≡ [])
    × (x.is_public p.inner ≡ true)
IsPublicHalf x _ _ = ⊥

-- A pointer to a key that does not count as public.
abbrev pub IsPrivate : External → Option Jwk → Type 0
IsPrivate x none = ⊥
IsPrivate x (some j) = x.is_public j.inner ≡ false

module _ (x : External) where
  public-IsPublicHalf :
      KnowsRsa x → (j : Jwk) → IsPair (some j) → IsPublicHalf x (some j) (some (public x j))
  unfolding public
  public-IsPublicHalf laws j (r, e) = rw (laws.private_key j.inner r e) (
      let (k, i) = laws.key-public j.inner r e in (r, e, k, i, refl, laws.public_key _ r.modulus k))

  public_keys_total :
      KnowsRsa x
      → (keys : List (Option Jwk)) → All IsPair keys
      → (halves : List (Option Jwk)) × (public_keys x keys ≡ ok halves)
        × Forall₂ (IsPublicHalf x) keys halves
  unfolding public_keys
  public_keys_total laws [] h = ([], refl, tt)
  public_keys_total laws (none ∷ keys) h = absurd h.0
  public_keys_total laws (some j ∷ keys) (p, h) =
      let (halves, e, all) = public_keys_total laws keys h in
      (
        some (public x j) ∷ halves,
        rw (e, laws.private_key j.inner p.0 p.1),
        (public-IsPublicHalf laws j p, all),
      )

  -- Of a set of RSA key pairs, ToPublic returns the public halves, in their order: with the same
  -- key IDs and moduli, without certificates, and each one public.
  pub to_public-IsPublicHalf :
      KnowsRsa x
      → (s : Jwks) → All IsPair s.keys
      → (halves : Jwks) × (to_public x (some s) ≡ ok halves)
        × Forall₂ (IsPublicHalf x) s.keys halves.keys
  unfolding to_public
  to_public-IsPublicHalf laws s h =
      let (halves, e, all) = public_keys_total laws s.keys h in
      (record { keys = halves }, rw e, all)

  public_keys-IsPrivate :
      (keys halves : List (Option Jwk)) → public_keys x keys ≡ ok halves → All (IsPrivate x) keys
  unfolding public_keys
  public_keys-IsPrivate [] halves h = tt
  public_keys-IsPrivate (none ∷ keys) halves h = cc
  public_keys-IsPrivate (some j ∷ keys) halves h = elim (Bool-cases (x.is_public j.inner)) [
    | inl yes_public ↦ cc (rw yes_public at h)
    | inr private ↦
        let (more, e, _) = >>=-eq-ok (public_keys x keys) _ (rw private at h) in
        (private, public_keys-IsPrivate keys more e)
  ]

  -- ToPublic fails unless every key is there and private.
  pub to_public-IsPrivate :
      (s halves : Jwks) → to_public x (some s) ≡ ok halves → All (IsPrivate x) s.keys
  unfolding to_public
  to_public-IsPrivate s halves h =
      let (keys, e, _) = >>=-eq-ok (public_keys x s.keys) _ h in public_keys-IsPrivate s.keys keys e
