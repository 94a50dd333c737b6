-- ===== src/Fakes/State.antt =====
-- internal/fakes/state.go: one database for each run of the operator. The UUIDs and the times that
-- Insert uses are read by the number of insertions so far.
use altinn_k8s_operator.Base.{
  ℕ, ◌+◌, String, ◌==◌, true, Option, none, some, List, [], ◌∷◌, Result, ok, err, crash,
  if◌then◌else◌,
}
use altinn_k8s_operator.Base.Exec.{Exec}
use altinn_k8s_operator.Base.Map.{Map, lookup, insert as put}
use altinn_k8s_operator.Time.{Time}
use altinn_k8s_operator.Config.{Config}
use altinn_k8s_operator.Crypto.Types.{External}
use altinn_k8s_operator.Crypto.Jwks.{Jwk, Jwks, public, new_jwks}
use altinn_k8s_operator.Maskinporten.Dto.{
  AddClientRequest, grant_type_jwt_bearer, integration_type_maskinporten, application_type_web,
  token_endpoint_auth_method_private_key_jwt,
}
use altinn_k8s_operator.Fakes.Db.{ClientRecord, Db, new_db, insert, query}

pub record State : Type 0 where
  pub dbs : Map Db
  pub cfg : Config
  pub insertions : ℕ

pub record Stamps : Type 0 where
  pub uuid : ℕ → String
  pub clock : ℕ → Time

unfoldable pub new_state : Config → State
new_state cfg = record { dbs = []; cfg = cfg; insertions = 0 }

-- The loop of GetAll.
unfoldable pub all_records : Map Db → Map (List ClientRecord)
unfolding query
all_records [] = []
all_records ((run_id, db) ∷ dbs) = (run_id, query (λ r. true) db) ∷ all_records dbs

unfoldable pub get_all : State → Map (List ClientRecord)
unfolding all_records
get_all s = all_records s.dbs

module _ {A : Type 0} where
  -- What a call does to the database of a run, through the pointer that GetDb returned.
  unfoldable pub write_back : String → Exec Db A → Db → Exec State A
  write_back run_id m db s = let (r, db') = m db in (r, record s { dbs = put run_id db' s.dbs })

module _ (stamps : Stamps) (read_jwk : String → Result Jwk) (x : External) where
  -- Insert into a database, with the next stamp.
  unfoldable pub insert_stamped : AddClientRequest → Option Jwks → String → ℕ → Exec Db ClientRecord
  unfolding insert
  insert_stamped req jwks override n = insert req jwks override (stamps.uuid n) (stamps.clock n)

  -- The client of the operator itself.
  unfoldable pub supplier_request : Config → AddClientRequest
  supplier_request cfg = record {
    client_id = none;
    client_name = some cfg.maskinporten_api.client_id;
    client_orgno = some "991825827";
    supplier_orgno = none;
    description = none;
    active = none;
    application_type = some application_type_web;
    integration_type = some integration_type_maskinporten;
    scopes = some (cfg.maskinporten_api.scope ∷ []);
    grant_types = some (grant_type_jwt_bearer ∷ []);
    token_endpoint_auth_method = some token_endpoint_auth_method_private_key_jwt;
    refresh_token_lifetime = none;
    refresh_token_usage = none;
    access_token_lifetime = none;
    authorization_lifetime = none;
    logo_uri = none;
    redirect_uris = none;
    post_logout_redirect_uris = none;
    frontchannel_logout_session_required = none;
    frontchannel_logout_uri = none;
    sso_disabled = none;
    code_challenge_method = none;
  }

  -- log.Fatalf ends the process.
  abbrev filled : Result ClientRecord × Db → Result Db
  filled (ok r, db) = ok db
  filled (err e, db) = crash "couldn't insert supplier client"
  filled (crash m, db) = crash m

  unfoldable pub db_for_key : Config → ℕ → Jwk → Result Db
  unfolding insert_stamped supplier_request new_db public new_jwks
  db_for_key cfg n jwk = filled (
      insert_stamped (supplier_request cfg) (some (new_jwks (some (public x jwk) ∷ [])))
        cfg.maskinporten_api.client_id n new_db)

  abbrev for_key : Config → ℕ → Result Jwk → Result Db
  for_key cfg n (ok jwk) = db_for_key cfg n jwk
  for_key cfg n (err e) = crash "couldn't unmarshal JWK"
  for_key cfg n (crash m) = crash m

  unfoldable pub init_db : Config → ℕ → Result Db
  unfolding db_for_key
  init_db cfg n = for_key cfg n (read_jwk cfg.maskinporten_api.jwk)

  abbrev pub add_db : String → Result Db → Exec State Db
  add_db run_id (ok db) s =
      (ok db, record s { dbs = put run_id db s.dbs; insertions = s.insertions + 1 })
  add_db run_id (err e) s = (err e, s)
  add_db run_id (crash m) s = (crash m, s)

  abbrev pub existing_or_new : String → Option Db → Exec State Db
  existing_or_new run_id (some db) s = (ok db, s)
  existing_or_new run_id none s = add_db run_id (init_db s.cfg s.insertions) s

  -- The database of a run, by the header of the request.
  unfoldable pub get_db : String → Exec State Db
  unfolding init_db
  get_db run_id s =
      if run_id == ""
      then (crash "Missing X-Altinn-Operator-RunId header in request", s)
      else existing_or_new run_id (lookup run_id s.dbs) s
