-- ===== src/Fakes/Db/Indexed.antt =====
-- The index of the database leads each client ID to its record.
use altinn_k8s_operator.Base.{
  ℕ, zero, suc, ◌≡◌, refl, ap, ◌∙◌, sym, String, ◌==◌, eq_iff, Bool, true, false, Option, none,
  some, List, [], ◌∷◌, ◌++◌, ok, err, ok_injective, length, get_elem?, set, get_elem?-append,
  get_elem?-append_length, if◌then◌else◌, Bool-cases, Option-cases, ◌⊎◌, inl, inr,
}
use mathlib.Core.Path.{subst₂}
use altinn_k8s_operator.Base.Exec.{Exec}
use altinn_k8s_operator.Base.{Error, message, get_elem?-set_self}
use altinn_k8s_operator.Base.Map.{lookup, insert as put, lookup-insert}
use altinn_k8s_operator.Time.{Time}
use altinn_k8s_operator.Crypto.Jwks.{Jwks}
use altinn_k8s_operator.Maskinporten.Dto.{AddClientRequest}
use altinn_k8s_operator.Fakes.Db.{
  ClientRecord, Db, new_db, chosen_id, is_named, record_of, add, insert, update_jwks, get,
  record_at,
}

-- Each ID in the index leads to a place at which there is a record of this ID.
pub record IsIndexed (db : Db) : Type 0 where
  pub leads :
      (id : String) (i : ℕ)
      → lookup id db.client_id_index ≡ some i
      → (r : ClientRecord) × (get_elem? db.clients i ≡ some r) × (r.client_id ≡ id)

pub new_db-IsIndexed : IsIndexed new_db
unfolding new_db lookup
new_db-IsIndexed = record { leads = λ id i e. cc }

index_injective : (i j : ℕ) → some i ≡ some j → i ≡ j
index_injective i j e = cc

add-leads :
    (r : ClientRecord) (db : Db)
    → IsIndexed db
    → (id : String) (i : ℕ)
    → (if r.client_id == id then some (length db.clients) else lookup id db.client_id_index)
      ≡ some i
    → (k : ClientRecord) × (get_elem? (db.clients ++ (r ∷ [])) i ≡ some k) × (k.client_id ≡ id)
add-leads r db h id i e = elim (Bool-cases (r.client_id == id)) [
  | inl same ↦ (
    r,
    ap (λ (j : ℕ). get_elem? (db.clients ++ (r ∷ [])) j)
          (sym (index_injective (length db.clients) i (rw same at e)))
        ∙ get_elem?-append_length db.clients r,
    (eq_iff r.client_id id).0 same,
  )
  | inr other ↦
      let (k, there, named) = h.leads id i (rw other at e) in
      (k, get_elem?-append db.clients (r ∷ []) i k there, named)
]

-- A client that was found stands at the place that the index has for it.
get_at :
    (id : String) (db : Db) (i : ℕ) (r : ClientRecord)
    → lookup id db.client_id_index ≡ some i
    → get_elem? db.clients i ≡ some r
    → r.client_id ≡ id
    → get id db ≡ ok (some r)
unfolding get
get_at id db i r e there named = rw (e, there, (eq_iff r.client_id id).1 named) refl

-- In a database whose index is right, Get never panics: it gives nothing for an ID that is not in
-- the index, and a record of the ID that was asked for otherwise.
pub get-IsIndexed :
    (db : Db) (id : String)
    → IsIndexed db
    → ((lookup id db.client_id_index ≡ none) × (get id db ≡ ok none))
      ⊎ ((r : ClientRecord) × (r.client_id ≡ id) × (get id db ≡ ok (some r)))
unfolding get
get-IsIndexed db id h = elim (Option-cases (lookup id db.client_id_index)) [
  | inl empty ↦ inl (empty, ap (record_at id db.clients) empty)
  | inr (i, found) ↦
      let (r, there, named) = h.leads id i found in
      inr (r, named, get_at id db i r found there named)
]

add-IsIndexed :
    (r : ClientRecord) (db : Db)
    → IsIndexed db
    → IsIndexed (record {
      clients = db.clients ++ (r ∷ []);
      client_id_index = put r.client_id (length db.clients) db.client_id_index;
    })
add-IsIndexed r db h = record {
  leads = λ id i e.
      add-leads r db h id i
        (sym (lookup-insert r.client_id id (length db.clients) db.client_id_index) ∙ e);
}

-- What a database holds once a record was added.
pub record IsAdded (r : ClientRecord) (db db' : Db) : Type 0 where
  pub new : lookup r.client_id db.client_id_index ≡ none
  pub clients : db'.clients ≡ db.clients ++ (r ∷ [])
  pub found : get r.client_id db' ≡ ok (some r)
  pub indexed : IsIndexed db'

abbrev added : ClientRecord → Db → Db
added r db = record {
  clients = db.clients ++ (r ∷ []);
  client_id_index = put r.client_id (length db.clients) db.client_id_index;
}

record_injective : (a b : ClientRecord) → some a ≡ some b → a ≡ b
record_injective a b e = cc

added-found : (r : ClientRecord) (db : Db) → get r.client_id (added r db) ≡ ok (some r)
added-found r db =
    get_at r.client_id (added r db) (length db.clients) r
      (lookup-insert r.client_id r.client_id (length db.clients) db.client_id_index
        ∙ ap
            (λ (b : Bool).
              if b then some (length db.clients) else lookup r.client_id db.client_id_index)
            ((eq_iff r.client_id r.client_id).1 refl))
      (get_elem?-append_length db.clients r) refl

added-IsAdded :
    (r : ClientRecord) (db : Db)
    → IsIndexed db
    → lookup r.client_id db.client_id_index ≡ none
    → IsAdded r db (added r db)
added-IsAdded r db h new = record {
  new = new;
  clients = refl;
  found = added-found r db;
  indexed = add-IsIndexed r db h;
}

add-IsAdded :
    (k r : ClientRecord) (o : Option ℕ) (db db' : Db)
    → IsIndexed db
    → lookup k.client_id db.client_id_index ≡ o
    → add k o db ≡ (ok r, db')
    → (k ≡ r) × IsAdded r db db'
add-IsAdded k r (some i) db db' h e f = cc (ap (λ p. p.0) f)
add-IsAdded k r none db db' h e f =
    let same : k ≡ r = ok_injective (ap (λ p. p.0) f) in
    (
      same,
      subst₂ (λ (x : ClientRecord) (d : Db). IsAdded x db d) same (ap (λ p. p.1) f)
          (added-IsAdded k db h e),
    )

accepted :
    (b : Bool) (m : Exec Db ClientRecord) (x : Error) (r : ClientRecord) (db db' : Db)
    → (if b then m db else (err x, db)) ≡ (ok r, db')
    → m db ≡ (ok r, db')
accepted true m x r db db' e = e
accepted false m x r db db' e = cc (ap (λ p. p.0) e)

add-found :
    (k r : ClientRecord) (o : Option ℕ) (db db' : Db)
    → add k o db ≡ (ok r, db')
    → (k ≡ r) × (get r.client_id db' ≡ ok (some r))
add-found k r (some i) db db' f = cc (ap (λ p. p.0) f)
add-found k r none db db' f =
    let same : k ≡ r = ok_injective (ap (λ p. p.0) f) in
    (
      same,
      subst₂ (λ (x : ClientRecord) (d : Db). get x.client_id d ≡ ok (some x)) same (ap (λ p. p.1) f)
          (added-found k db),
    )

-- Get finds what was inserted, whatever the index was before.
pub insert-found :
    (req : AddClientRequest) (jwks : Option Jwks) (override uuid : String) (now : Time)
    (r : ClientRecord) (db db' : Db)
    → insert req jwks override uuid now db ≡ (ok r, db')
    → (record_of req jwks (chosen_id override uuid) now ≡ r) × (get r.client_id db' ≡ ok (some r))
unfolding insert record_of
insert-found req jwks override uuid now r db db' e = add-found _ r _ db db' (
    accepted (is_named req.client_name)
      (add (record_of req jwks (chosen_id override uuid) now)
        (lookup (chosen_id override uuid) db.client_id_index))
      _ r db db' e)

-- An insertion that succeeds into a database whose index is right appends the record that is made
-- from the request, under the overriding ID or else the new UUID, which was not in the index
-- before; Get then gives this record for this ID, and the index is right.
pub insert-IsAdded :
    (req : AddClientRequest) (jwks : Option Jwks) (override uuid : String) (now : Time)
    (r : ClientRecord) (db db' : Db)
    → IsIndexed db
    → insert req jwks override uuid now db ≡ (ok r, db')
    → (record_of req jwks (chosen_id override uuid) now ≡ r) × IsAdded r db db'
unfolding insert record_of
insert-IsAdded req jwks override uuid now r db db' h e = add-IsAdded _ r _ db db' h refl (
    accepted (is_named req.client_name)
      (add (record_of req jwks (chosen_id override uuid) now)
        (lookup (chosen_id override uuid) db.client_id_index))
      _ r db db' e)

replaced :
    (xs : List ClientRecord) (i j : ℕ) (old new k : ClientRecord)
    → get_elem? xs i ≡ some old
    → get_elem? xs j ≡ some k
    → new.client_id ≡ old.client_id
    → (r : ClientRecord) × (get_elem? (set xs i new) j ≡ some r) × (r.client_id ≡ k.client_id)
replaced [] i j old new k e f same = cc
replaced (x ∷ xs) zero zero old new k e f same =
    (new, refl, same ∙ ap (λ (c : ClientRecord). c.client_id) (record_injective old k (sym e ∙ f)))
replaced (x ∷ xs) zero (suc j) old new k e f same = (k, f, refl)
replaced (x ∷ xs) (suc i) zero old new k e f same = (k, f, refl)
replaced (x ∷ xs) (suc i) (suc j) old new k e f same = replaced xs i j old new k e f same

write-leads :
    (db : Db) (i : ℕ) (jwks : Option Jwks) (old : ClientRecord)
    → IsIndexed db
    → get_elem? db.clients i ≡ some old
    → IsIndexed (record db { clients = set db.clients i (record old { jwks = jwks }) })
write-leads db i jwks old h there = record {
  leads = λ id j e.
      let (k, found, named) = h.leads id j e in
      let (r, at, same) =
        replaced db.clients i j old (record old { jwks = jwks }) k there found refl in
      (r, at, same ∙ named);
}

-- In a database whose index is right, UpdateJwks never panics. It fails for an ID that is not in
-- the index; otherwise Get gives the record of the ID with the new keys afterwards, and the index
-- stays right.
pub update_jwks-IsIndexed :
    (id : String) (jwks : Option Jwks) (db : Db)
    → IsIndexed db
    → (update_jwks id jwks db ≡ (err (message "client not found"), db))
      ⊎ ((old : ClientRecord) × (db' : Db) × (update_jwks id jwks db ≡ (ok tt, db'))
          × (get id db ≡ ok (some old))
          × (get id db' ≡ ok (some (record old { jwks = jwks })))
          × IsIndexed db')
unfolding update_jwks
update_jwks-IsIndexed id jwks db h = elim (Option-cases (lookup id db.client_id_index)) [
  | inl empty ↦ inl (rw empty refl)
  | inr (i, found) ↦
      let (old, there, named) = h.leads id i found in
      let db' = record db { clients = set db.clients i (record old { jwks = jwks }) } in
      inr (
        old,
        db',
        rw (found, there) refl,
        get_at id db i old found there named,
        get_at id db' i (record old { jwks = jwks }) found
            (get_elem?-set_self db.clients i old (record old { jwks = jwks }) there) named,
        write-leads db i jwks old h there,
      )
]
