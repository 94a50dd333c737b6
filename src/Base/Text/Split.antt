-- ===== src/Base/Text/Split.antt =====
-- strings.Split and strings.TrimPrefix.
use Prim.Native.Char.{Char, code}
use Prim.Native.Nat.{ℕ}
use Prim.Native.String.{String, ◌++◌ as ◌<>◌}
use mathlib.Core.Path.{◌≡◌, refl}
use mathlib.Core.Logic.{◌≢◌, inl, inr}
use mathlib.Core.Option.{Option, none, some}
use mathlib.Core.List.{List, [], ◌∷◌}
use native.Mathlib.Omega.{arith}
use text.Mathlib.TextEquality.{Char-path}
use text.Mathlib.TextLemmas.{nil-append, cons-append}
use altinn_k8s_operator.Base.Tests.{nat_eq, Bool-cases, if◌then◌else◌}

-- The text has no character of this code.
abbrev pub Lacks : ℕ → String → Type 0
Lacks d String.[] = Unit
Lacks d (String.◌∷◌ c s) = (code c ≢ d) × Lacks d s

-- Puts a character in front of the first part.
unfoldable pub push : Char → List String → List String
push c [] = String.◌∷◌ c "" ∷ []
push c (w ∷ ws) = String.◌∷◌ c w ∷ ws

-- strings.Split at a separator of one byte, given by its code.
unfoldable pub split_on : ℕ → String → List String
unfolding push
split_on d String.[] = String.[] ∷ []
split_on d (String.◌∷◌ c s) =
    let rest = split_on d s in if nat_eq (code c) d then String.[] ∷ rest else push c rest

-- parts[len(parts)-1]
unfoldable pub last? : List String → Option String
last? [] = none
last? (w ∷ []) = some w
last? (w ∷ v ∷ ws) = last? (v ∷ ws)

-- strings.TrimPrefix: the text without the prefix, or the text.
unfoldable pub strip? : String → String → Option String
strip? String.[] s = some s
strip? (String.◌∷◌ p ps) String.[] = none
strip? (String.◌∷◌ p ps) (String.◌∷◌ c s) =
    let rest = strip? ps s in if nat_eq (code p) (code c) then rest else none

test : split_on b'-' "local-my-app" ≡ "local" ∷ "my" ∷ "app" ∷ []
unfolding split_on
test = refl

split_on-ne-nil : (d : ℕ) (s : String) → split_on d s ≢ []
unfolding split_on
split_on-ne-nil d String.[] e = cc
split_on-ne-nil d (String.◌∷◌ c s) e = ground (arith, split_on-ne-nil d s)

-- A text without the separator is one part.
pub split_on_of_Lacks : (d : ℕ) (s : String) → Lacks d s → split_on d s ≡ s ∷ []
unfolding split_on
split_on_of_Lacks d String.[] h = refl
split_on_of_Lacks d (String.◌∷◌ c s) h = rw (split_on_of_Lacks d s h.1) (ground arith)

-- The parts of two texts around a separator are the parts of the one, then those of the other.
pub split_on-append :
    (d : ℕ) (s t : String) (c : Char)
    → code c ≡ d
    → Lacks d s
    → split_on d (s <> String.◌∷◌ c t) ≡ s ∷ split_on d t
unfolding split_on
split_on-append d String.[] t c e h = rw (nil-append (String.◌∷◌ c t)) (ground arith)
split_on-append d (String.◌∷◌ b s) t c e h =
    rw (cons-append b s (String.◌∷◌ c t), split_on-append d s t c e h.1) (ground arith)

last?-cons :
    (w : String) (ws : List String) (t : String) → last? ws ≡ some t → last? (w ∷ ws) ≡ some t
unfolding last?
last?-cons w [] t h = cc
last?-cons w (v ∷ ws) t h = h

-- The first part, and the others, which end in what follows the last separator.
split_on_parts :
    (d : ℕ) (s t : String) (c : Char)
    → code c ≡ d
    → Lacks d t
    → (w : String) × (ws : List String) × (split_on d (s <> String.◌∷◌ c t) ≡ w ∷ ws)
      × (last? ws ≡ some t)
unfolding split_on
split_on_parts d String.[] t c e h = (
  "",
  t ∷ [],
  rw (nil-append (String.◌∷◌ c t), split_on_of_Lacks d t h) (ground arith),
  unfold last? in refl,
)
split_on_parts d (String.◌∷◌ b s) t c e h =
    let (w, ws, parts, ends) = split_on_parts d s t c e h in
    elim (Bool-cases (nat_eq (code b) d)) [
      | inl sep ↦
          ("", w ∷ ws, rw (cons-append b s (String.◌∷◌ c t), parts, sep), last?-cons w ws t ends)
      | inr char ↦ (String.◌∷◌ b w, ws, rw (cons-append b s (String.◌∷◌ c t), parts, char), ends)
    ]

-- What follows the last separator is the last part.
pub last?-split_on :
    (d : ℕ) (s t : String) (c : Char)
    → code c ≡ d
    → Lacks d t
    → last? (split_on d (s <> String.◌∷◌ c t)) ≡ some t
last?-split_on d s t c e h =
    let (w, ws, parts, ends) = split_on_parts d s t c e h in rw parts (last?-cons w ws t ends)

pub strip?-append : (p s : String) → strip? p (p <> s) ≡ some s
unfolding strip?
strip?-append String.[] s = rw (nil-append s)
strip?-append (String.◌∷◌ c p) s = rw (cons-append c p s, strip?-append p s) (ground arith)

pub strip?_sound : (p s t : String) → strip? p s ≡ some t → s ≡ p <> t
unfolding strip?
strip?_sound String.[] s t h = rw (nil-append t) (ground arith)
strip?_sound (String.◌∷◌ c p) String.[] t h = cc
strip?_sound (String.◌∷◌ c p) (String.◌∷◌ b s) t h = elim (Bool-cases (nat_eq (code c) (code b))) [
  | inl same ↦
      rw (cons-append c p t) (cc (Char-path c b (ground arith), strip?_sound p s t (rw same at h)))
  | inr other ↦ ground arith
]
