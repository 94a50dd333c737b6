-- ===== src/Crypto/ActiveKey/Latest.antt =====
-- Which key the loop of RotateIfNeeded selects.
use altinn_k8s_operator.Base.{
  ◌≤◌, ◌≡◌, ◌≢◌, refl, true, false, inl, inr, Option, none, some, List, [], ◌∷◌, ok, >>=-eq-ok,
  arith, All, Member, Bool-cases,
}
use altinn_k8s_operator.Time.{Time, is_after}
use altinn_k8s_operator.Crypto.Types.{Certificate}
use altinn_k8s_operator.Crypto.Jwks.{Jwk, certificates}
use altinn_k8s_operator.Crypto.ActiveKey.{single, one_certificate, first_certificate, later, select}

-- The pointer leads to a key that has this certificate and no other.
pub record Holds (k : Option Jwk) (c : Certificate) : Type 0 where
  pub there : k ≢ none
  pub only : certificates k ≡ c ∷ []

abbrev pub HasOne : Option Jwk → Type 0
HasOne k = (c : Certificate) × Holds k c

one_certificate_of_Holds : (k : Option Jwk) (c : Certificate) → Holds k c → one_certificate k ≡ ok c
unfolding one_certificate
one_certificate_of_Holds k c h = rw (h.only, one_certificate) refl

pub first_certificate_of_Holds :
    (k : Option Jwk) (c : Certificate) → Holds k c → first_certificate k ≡ ok c
unfolding first_certificate
first_certificate_of_Holds k c h = rw (h.only, first_certificate) refl

-- The certificate of a key in the set ends no later than this instant.
abbrev pub EndsBy : Time → Option Jwk → Type 0
EndsBy t k = (c : Certificate) × Holds k c × (c.not_after ≤ t)

-- The loop ends with key `b`, whose certificate `c` ends last.
pub record IsLatest (keys : List (Option Jwk)) (b : Option Jwk) (c : Certificate) : Type 0 where
  pub member : Member b keys
  pub holds : Holds b c
  pub last : All (EndsBy c.not_after) keys

not_later : (t u : Time) → is_after t u ≡ false → t ≤ u
not_later t u h = ground arith

later_le : (t u : Time) → is_after t u ≡ true → u ≤ t
later_le t u h = ground arith

insert_second :
    (b a k : Option Jwk) (keys : List (Option Jwk)) → Member b (a ∷ keys) → Member b (a ∷ k ∷ keys)
insert_second b a k keys (inl e) = inl e
insert_second b a k keys (inr m) = inr (inr m)

select_from :
    (a : Option Jwk) (ca : Certificate) (keys : List (Option Jwk))
    → Holds a ca
    → All HasOne keys
    → (b : Option Jwk) × (c : Certificate) × (select a keys ≡ ok b)
      × IsLatest (a ∷ keys) b c
      × (ca.not_after ≤ c.not_after)
unfolding select
select_from a ca [] h all = (
  a,
  ca,
  refl,
  record { member = inl refl; holds = h; last = ((ca, h, omega arith), tt) },
  omega arith,
)
select_from none ca (k ∷ keys) h all = absurd (h.there refl)
select_from (some a) ca (k ∷ keys) h ((ck, hk), all) =
    elim (Bool-cases (is_after ck.not_after ca.not_after)) [
      | inl newer ↦
          let (b, c, e, l, le) = select_from k ck keys hk all in
          let up : ca.not_after ≤ c.not_after = omega (arith, later_le _ _ newer) in
          (
            b,
            c,
            rw (one_certificate_of_Holds k ck hk, first_certificate_of_Holds (some a) ca h, newer)
                e,
            record { member = inr l.member; holds = l.holds; last = ((ca, h, up), l.last) },
            up,
          )
      | inr older ↦
          let (b, c, e, l, le) = select_from (some a) ca keys h all in
          let low : ck.not_after ≤ c.not_after = omega (arith, not_later _ _ older) in
          (
            b,
            c,
            rw (one_certificate_of_Holds k ck hk, first_certificate_of_Holds (some a) ca h, older)
                e,
            record {
              member = insert_second b (some a) k keys l.member;
              holds = l.holds;
              last = (l.last.0, ((ck, hk, low), l.last.1));
            },
            le,
          )
    ]

-- In a set with at least one key, in which each key has exactly one certificate, the loop selects
-- a key of the set whose certificate ends last.
pub select-IsLatest :
    (k : Option Jwk) (keys : List (Option Jwk))
    → All HasOne (k ∷ keys)
    → (b : Option Jwk) × (c : Certificate) × (select none (k ∷ keys) ≡ ok b)
      × IsLatest (k ∷ keys) b c
unfolding select
select-IsLatest k keys ((ck, hk), all) =
    let (b, c, e, l, _) = select_from k ck keys hk all in
    (b, c, rw (one_certificate_of_Holds k ck hk) e, l)

HasOne-of_list :
    (j : Jwk) (c : Certificate) (l : List Certificate)
    → j.inner.certificates ≡ l
    → single (some j) l ≡ ok c
    → HasOne (some j)
HasOne-of_list j c [] e h = cc
HasOne-of_list j c (d ∷ []) e h = (d, record { there = λ n. cc; only = e })
HasOne-of_list j c (d ∷ d' ∷ ds) e h = cc

HasOne-of_single : (k : Option Jwk) (c : Certificate) → one_certificate k ≡ ok c → HasOne k
unfolding one_certificate
HasOne-of_single none c h = cc
HasOne-of_single (some j) c h = HasOne-of_list j c j.inner.certificates refl h

-- The loop succeeds only if each key has exactly one certificate.
pub select-HasOne :
    (a : Option Jwk) (keys : List (Option Jwk)) (b : Option Jwk)
    → select a keys ≡ ok b
    → All HasOne keys
unfolding select
select-HasOne a [] b h = tt
select-HasOne none (k ∷ keys) b h =
    let (c, one, rest) = >>=-eq-ok (one_certificate k) _ h in
    (HasOne-of_single k c one, select-HasOne k keys b rest)
select-HasOne (some a) (k ∷ keys) b h =
    let (c, one, rest) = >>=-eq-ok (one_certificate k) _ h in
    let (d, first, rest') = >>=-eq-ok (first_certificate (some a)) _ rest in
    (HasOne-of_single k c one, select-HasOne (later (some a) d k c) keys b rest')
