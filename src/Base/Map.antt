-- ===== src/Base/Map.antt =====
-- Go maps with string keys, as association lists in which the first entry of a key counts.
use Prim.Native.String.{String}
use mathlib.Core.Path.{◌≡◌, refl}
use mathlib.Core.Option.{Option, none, some}
use mathlib.Core.List.{List, [], ◌∷◌}
use native.Mathlib.Omega.{arith}
use text.Mathlib.Text.{◌==◌}
use text.Mathlib.TextEquality.{eq_iff}
use altinn_k8s_operator.Base.Tests.{if◌then◌else◌}

abbrev pub Map {ℓ} : Type ℓ → Type ℓ
Map V = List (String × V)

module _ {ℓ} {V : Type ℓ} where
  -- v, ok := m[key]
  unfoldable pub lookup : String → Map V → Option V
  lookup key [] = none
  lookup key ((other, value) ∷ rest) = if other == key then some value else lookup key rest

  -- delete(m, key)
  unfoldable pub erase : String → Map V → Map V
  erase key [] = []
  erase key ((other, value) ∷ rest) =
      let erased = erase key rest in if other == key then erased else (other, value) ∷ erased

  pub lookup-erase :
      (key asked : String) (m : Map V)
      → lookup asked (erase key m) ≡ (if key == asked then none else lookup asked m)
  unfolding erase lookup
  lookup-erase key asked [] = ground arith
  lookup-erase key asked ((other, value) ∷ rest) =
      ground
        (arith, eq_iff key asked, eq_iff other key, eq_iff other asked, lookup-erase key asked rest)

  -- m[key] = value, in the place of an old entry or at the end
  unfoldable pub insert : String → V → Map V → Map V
  insert key value [] = (key, value) ∷ []
  insert key value ((other, old) ∷ rest) =
      let added = insert key value rest in
      if other == key then (key, value) ∷ rest else (other, old) ∷ added

  pub lookup-insert :
      (key asked : String) (value : V) (m : Map V)
      → lookup asked (insert key value m) ≡ (if key == asked then some value else lookup asked m)
  unfolding insert lookup
  lookup-insert key asked value [] = refl
  lookup-insert key asked value ((other, old) ∷ rest) = ground (
    arith,
    eq_iff other asked,
    eq_iff other key,
    eq_iff key asked,
    lookup-insert key asked value rest,
  )
