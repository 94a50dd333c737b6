-- ===== src/Fakes/Handlers/Isolated.antt =====
-- The fake APIs of cmd/maskinporten_fakes/main.go keep the runs of the operator apart.
pub mod Served
use altinn_k8s_operator.Base.{
  ℕ, ◌≡◌, ◌≢◌, refl, sym, ap, ◌∙◌, String, ◌==◌, eq_iff, Bool, true, false, not, Option, none, some,
  List, [], ◌∷◌, Result, ok, err, crash, Error, inl, inr, Bool-cases, if◌then◌else◌, All, arith,
}
use altinn_k8s_operator.Base.Exec.{Exec, pure, lift, ◌>>=◌, handle}
use altinn_k8s_operator.Base.Exec.Keeps.{
  Keeps, Keeps-pure, Keeps-lift, Keeps-bind, Keeps-handle, Keeps-weaken,
}
use altinn_k8s_operator.Base.Map.{lookup, insert as put, lookup-insert}
use altinn_k8s_operator.Crypto.Types.{External}
use altinn_k8s_operator.Crypto.Jwks.{Jwk, Jwks}
use altinn_k8s_operator.Crypto.Jwt.{
  Jose, Jwt, Claims, parse_jwt, decode_claims, key_id as token_key_id,
}
use altinn_k8s_operator.Maskinporten.Dto.{AddClientRequest, UpdateClientRequest}
use altinn_k8s_operator.Maskinporten.Http.{HttpRequest}
use altinn_k8s_operator.Fakes.Db.{Db, ClientRecord, delete, get, update_jwks}
use altinn_k8s_operator.Fakes.State.{
  State, Stamps, get_db, write_back, add_db, existing_or_new, init_db, insert_stamped,
}
use altinn_k8s_operator.Fakes.Handlers.{
  Answer, only_status, reply, FakeToken, WireCodec, run_id_of, with_token, self_service_auth,
}
use altinn_k8s_operator.Fakes.Handlers.Clients.{
  or_bad_request, next_stamp, insert_client, list_clients, post_client, handle_clients, get_client,
  replace_client, put_client, handle_client_by_id, get_jwks, post_jwks, handle_client_jwks,
}
use altinn_k8s_operator.Fakes.Handlers.Token.{
  grant_token, check_claims, for_client, check_assertion, handle_token,
}
use altinn_k8s_operator.Fakes.Handlers.Unauthorized.{
  Endpoint, clients, client_by_id, client_jwks, serve,
}

-- The database of this run, if there is one.
abbrev pub DbOf : String → Option Db → State → Type 0
DbOf run db s = lookup run s.dbs ≡ db

-- A call that keeps the database of the run, whatever it returns.
abbrev pub Apart : {A : Type 0} → String → Option Db → Exec State A → Type 0
Apart run db m = Keeps (DbOf run db) m (λ a. Unit {0})

module _ (run : String) (before : Option Db) where
  put_other :
      (other : String) (db : Db) (s : State)
      → (other == run) ≡ false
      → DbOf run before s
      → lookup run (put other db s.dbs) ≡ before
  put_other other db s differs h =
      lookup-insert other run db s.dbs
      ∙ (ap (λ (b : Bool). if b then some db else lookup run s.dbs) differs ∙ h)

  pub Apart-write_back :
      {A : Type 0} (other : String) (m : Exec Db A) (db : Db)
      → (other == run) ≡ false
      → Apart run before (write_back other m db)
  unfolding write_back
  Apart-write_back other m db differs = record {
    kept = λ s h. put_other other (m db).1 s differs h;
    result = λ s h a e. tt;
  }

  pub Apart-pure : {A : Type 0} (a : A) → Apart run before (pure a)
  Apart-pure a = Keeps-pure (DbOf run before) a _ tt

  pub Apart-lift : {A : Type 0} (r : Result A) → Apart run before (lift r)
  Apart-lift r = Keeps-weaken (DbOf run before) _ (Keeps-lift (DbOf run before) r) λ a e. tt

  pub Apart-bind :
      {A B : Type 0} (m : Exec State A) (f : A → Exec State B)
      → Apart run before m
      → ((a : A) → Apart run before (f a))
      → Apart run before (m >>= f)
  Apart-bind m f first rest = Keeps-bind (DbOf run before) m f first (λ a u. rest a)

  pub Apart-or_bad_request :
      {A : Type 0} (m : Exec State A) (f : A → Exec State Answer)
      → Apart run before m
      → ((a : A) → Apart run before (f a))
      → Apart run before (or_bad_request m f)
  Apart-or_bad_request m f first rest =
      Keeps-handle (DbOf run before) m _ f first (λ e. Apart-pure _) (λ a u. rest a)

  pub Apart-if :
      {A : Type 0} (b : Bool) (m k : Exec State A)
      → Apart run before m
      → Apart run before k
      → Apart run before (if b then m else k)
  Apart-if true m k hm hk = hm
  Apart-if false m k hm hk = hk

  module _ (stamps : Stamps) (read_jwk : String → Result Jwk) (x : External) where
    add_db-kept :
        (other : String) (r : Result Db) (s : State)
        → (other == run) ≡ false
        → DbOf run before s
        → DbOf run before (add_db stamps read_jwk x other r s).1
    add_db-kept other (ok db) s differs h = put_other other db s differs h
    add_db-kept other (err e) s differs h = h
    add_db-kept other (crash m) s differs h = h

    existing_or_new-kept :
        (other : String) (found : Option Db) (s : State)
        → (other == run) ≡ false
        → DbOf run before s
        → DbOf run before (existing_or_new stamps read_jwk x other found s).1
    existing_or_new-kept other (some db) s differs h = h
    existing_or_new-kept other none s differs h = add_db-kept other _ s differs h

    get_db-kept :
        (other : String) (s : State)
        → (other == run) ≡ false
        → DbOf run before s
        → DbOf run before (get_db stamps read_jwk x other s).1
    unfolding get_db
    get_db-kept other s differs h = elim (Bool-cases (other == "")) [
      | inl missing ↦ rw missing h
      | inr named ↦ rw named (existing_or_new-kept other _ s differs h)
    ]

    pub Apart-get_db :
        (other : String)
        → (other == run) ≡ false
        → Apart run before (get_db stamps read_jwk x other)
    Apart-get_db other differs = record {
      kept = λ s h. get_db-kept other s differs h;
      result = λ s h a e. tt;
    }
