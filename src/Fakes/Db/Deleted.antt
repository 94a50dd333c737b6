-- ===== src/Fakes/Db/Deleted.antt =====
-- What Delete does to the index.
use altinn_k8s_operator.Base.{
  ℕ, zero, suc, ◌-◌, ◌≡◌, refl, ap, ◌∙◌, String, ◌==◌, eq_iff, Bool, true, false, none, some, List,
  [], ◌∷◌, ok, crash, length, get_elem?, set, take, if◌then◌else◌,
}
use altinn_k8s_operator.Base.Map.{lookup, erase, lookup-erase}
use altinn_k8s_operator.Fakes.Db.{Db, delete, get, checked, record_at}
use altinn_k8s_operator.Fakes.Db.Indexed.{IsIndexed}

get_elem?-take : {A : Type 0} (k : ℕ) (xs : List A) → get_elem? (take k xs) k ≡ none
get_elem?-take zero xs = refl
get_elem?-take (suc k) [] = refl
get_elem?-take (suc k) (x ∷ xs) = get_elem?-take k xs

-- Delete of a client removes it from the index, but leaves the index of the last client, which
-- takes the freed place, as it was: when another client than the last one is deleted from a
-- database whose index is right, Get of the last one panics afterwards.
pub delete-last_lost :
    (db : Db) (id last : String) (i : ℕ)
    → IsIndexed db
    → (id == last) ≡ false
    → lookup id db.client_id_index ≡ some i
    → lookup last db.client_id_index ≡ some (length db.clients - 1)
    → (db' : Db) × (delete id db ≡ (ok true, db'))
      × (get id db' ≡ ok none)
      × (get last db' ≡ crash "index out of range")
unfolding delete get
delete-last_lost db id last i h other found found_last =
    let (r, there, _) = h.leads id i found in
    let (k, there_last, _) = h.leads last (length db.clients - 1) found_last in
    let kept = take (length db.clients - 1) (set db.clients i k) in
    (
      record { clients = kept; client_id_index = erase id db.client_id_index },
      rw (found, there_last, there) refl,
      ap (record_at id kept) (
          lookup-erase id id db.client_id_index
          ∙ ap (λ (b : Bool). if b then none else lookup id db.client_id_index)
              ((eq_iff id id).1 refl)),
      ap (record_at last kept) (
            lookup-erase id last db.client_id_index
            ∙ (ap (λ (b : Bool). if b then none else lookup last db.client_id_index) other
                ∙ found_last))
          ∙ ap (checked last) (get_elem?-take (length db.clients - 1) (set db.clients i k)),
    )
