-- ===== src/Caching/Examples.antt =====
-- The cache at concrete data: five minutes, as for the well-known configuration.
use altinn_k8s_operator.Base.{
  ℕ, ◌*◌, ◌+◌, ◌≡◌, refl, ap, [], ◌∷◌, false, ◌⊎◌, Option, some, message, ok, err, arith,
}
use altinn_k8s_operator.Base.Exec.{Exec}
use altinn_k8s_operator.Base.Int.{pos}
use altinn_k8s_operator.Time.{minute, sub}
use altinn_k8s_operator.Caching.{CachedAtom, read_section, write_section, get, expired}
use altinn_k8s_operator.Caching.Get.{get-fresh}
use altinn_k8s_operator.Caching.Interleaving.{
  Shared, here, next, writing, start, locked, IsConsistent, Reach-IsConsistent,
}

-- A retriever that returns the number of its calls.
counting : Exec ℕ (Option ℕ)
counting n = (ok (some n), n + 1)

failing : Exec ℕ (Option ℕ)
failing n = (err (message "HTTP 500"), n + 1)

abbrev filled : CachedAtom ℕ
filled = record {
  current = some 7;
  current_fetched_at = 1000 * minute;
  expire_after = pos (5 * minute);
}

get_hit : get counting filled (1005 * minute) (1005 * minute) 1 ≡ (ok (some 7), filled, 1)
unfolding get read_section sub
get_hit = refl

get_miss :
    get counting filled (1005 * minute + 1) (1006 * minute) 1
    ≡ (ok (some 1), record filled { current = some 1; current_fetched_at = 1006 * minute }, 2)
unfolding get read_section write_section sub counting
get_miss = refl

get_failure :
    get failing filled (1006 * minute) (1006 * minute) 1 ≡ (err (message "HTTP 500"), filled, 2)
unfolding get read_section write_section sub failing
get_failure = refl

get-fresh_example :
    (((get counting filled (1005 * minute + 1) (1006 * minute) 1).1).current ≡ some 1)
    × ((expired (get counting filled (1005 * minute + 1) (1006 * minute) 1).1 (1005 * minute + 1)
          ≡ false)
        ⊎ (expired (get counting filled (1005 * minute + 1) (1006 * minute) 1).1 (1006 * minute)
            ≡ false))
unfolding get_miss
get-fresh_example =
    get-fresh counting filled (1005 * minute + 1) (1006 * minute) 1 (some 1) (omega arith)
      (ap (λ r. r.0) get_miss)

abbrev once : Shared ℕ
once = locked (1000 * minute) (ok (some 1)) (start (pos (5 * minute)))

abbrev twice : Shared ℕ
twice = locked (1006 * minute) (ok (some 2)) once

two_fetches : twice ≡ record {
  atom = record {
    current = some 2;
    current_fetched_at = 1006 * minute;
    expire_after = pos (5 * minute);
  };
  fetches = (1006 * minute, some 2) ∷ (1000 * minute, some 1) ∷ [];
}
unfolding locked start write_section sub
two_fetches = refl

Reach-IsConsistent_example : IsConsistent (pos (5 * minute)) twice
Reach-IsConsistent_example = Reach-IsConsistent (pos (5 * minute)) (
    next (next here (writing (1000 * minute) (ok (some 1)) refl))
      (writing (1006 * minute) (ok (some 2)) refl))
