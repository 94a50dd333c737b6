-- ===== src/Crypto/ActiveKey/Index.antt =====
-- The index at the end of a key ID.
use altinn_k8s_operator.Base.{◌≡◌, refl, String, ◌<>◌, Option, none, some, ok}
use altinn_k8s_operator.Base.Int.{ℤ}
use altinn_k8s_operator.Base.Text.Split.{split_on, last?, last?-split_on}
use altinn_k8s_operator.Base.Text.Decimal.{format_int, atoi}
use altinn_k8s_operator.Base.Text.Decimal.RoundTrip.{
  IsInt, atoi-format_int, format_int-Lacks, atoi-IsInt,
}
use text.Mathlib.TextLemmas.{cons-append, nil-append}
use altinn_k8s_operator.Crypto.ActiveKey.{index_of, last_index, parsed_index}

-- The index of a key ID is read back as it was written.
pub index_of-format_int :
    (uuid : String) (z : ℤ) → IsInt z → index_of (uuid <> ("." <> format_int z)) ≡ ok z
unfolding index_of
index_of-format_int uuid z h =
    rw
      (
        cons-append "." "" (format_int z),
        nil-append (format_int z),
        last?-split_on b'.' uuid (format_int z) "." refl (format_int-Lacks z),
        atoi-format_int z h,
      )
      refl

parsed_index-IsInt :
    (id s : String) (o : Option ℤ) (z : ℤ) → atoi s ≡ o → parsed_index id o ≡ ok z → IsInt z
parsed_index-IsInt id s none z e h = cc
parsed_index-IsInt id s (some n) z e h = atoi-IsInt s z (cc)

last_index-IsInt : (id : String) (o : Option String) (z : ℤ) → last_index id o ≡ ok z → IsInt z
last_index-IsInt id none z h = cc
last_index-IsInt id (some s) z h = parsed_index-IsInt id s (atoi s) z refl h

pub index_of-IsInt : (id : String) (z : ℤ) → index_of id ≡ ok z → IsInt z
unfolding index_of
index_of-IsInt id z h = last_index-IsInt id (last? (split_on b'.' id)) z h
