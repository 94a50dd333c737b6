-- ===== src/Fakes/Db.antt =====
-- internal/fakes/db.go: the database of the fake API, a list of records with an index by client
-- ID. The UUID of a new client and the time of its creation are arguments.
pub mod Indexed
pub mod Deleted
pub mod Examples
use altinn_k8s_operator.Base.{
  ℕ, ◌+◌, ◌-◌, String, ◌==◌, Bool, true, false, Option, none, some, List, [], ◌∷◌, ◌++◌, Result, ok,
  err, crash, message, length, get_elem?, set, take, if◌then◌else◌,
}
use altinn_k8s_operator.Base.Exec.{Exec, pure, lift, ◌>>=◌}
use altinn_k8s_operator.Base.Map.{Map, lookup, insert as put, erase}
use altinn_k8s_operator.Time.{Time}
use altinn_k8s_operator.Crypto.Jwks.{Jwks}
use altinn_k8s_operator.Maskinporten.Dto.{AddClientRequest, ClientResponse}

abbrev pub supplier_org_no : String
supplier_org_no = "11111111"

pub record ClientRecord : Type 0 where
  pub client_id : String
  pub client : ClientResponse
  pub jwks : Option Jwks

pub record Db : Type 0 where
  pub clients : List ClientRecord
  pub client_id_index : Map ℕ

unfoldable pub new_db : Db
new_db = record { clients = []; client_id_index = [] }

abbrev pub is_named : Option String → Bool
is_named none = false
is_named (some name) = if name == "" then false else true

abbrev pub chosen_id : String → String → String
chosen_id override uuid = if override == "" then uuid else override

unfoldable pub record_of : AddClientRequest → Option Jwks → String → Time → ClientRecord
record_of req jwks id now = record {
  client_id = id;
  client = record {
    client_id = id;
    client_name = req.client_name;
    logo_uri = req.logo_uri;
    description = req.description;
    scopes = req.scopes;
    redirect_uris = req.redirect_uris;
    post_logout_redirect_uris = req.post_logout_redirect_uris;
    authorization_lifetime = req.authorization_lifetime;
    access_token_lifetime = req.access_token_lifetime;
    refresh_token_lifetime = req.refresh_token_lifetime;
    refresh_token_usage = req.refresh_token_usage;
    frontchannel_logout_uri = req.frontchannel_logout_uri;
    frontchannel_logout_session_required = req.frontchannel_logout_session_required;
    token_endpoint_auth_method = req.token_endpoint_auth_method;
    grant_types = req.grant_types;
    integration_type = req.integration_type;
    application_type = req.application_type;
    sso_disabled = req.sso_disabled;
    code_challenge_method = req.code_challenge_method;
    last_updated = some now;
    created = some now;
    client_secret = none;
    client_orgno = req.client_orgno;
    supplier_orgno = some supplier_org_no;
    active = some true;
    jwks_uri = some "";
    on_behalf_of = none;
    jwks = none;
  };
  jwks = jwks;
}

abbrev pub add : ClientRecord → Option ℕ → Exec Db ClientRecord
add r (some i) db = (err (message "client already exists"), db)
add r none db = (
  ok r,
  record {
    clients = db.clients ++ (r ∷ []);
    client_id_index = put r.client_id (length db.clients) db.client_id_index;
  },
)

unfoldable pub insert :
    AddClientRequest → Option Jwks → String → String → Time → Exec Db ClientRecord
insert req jwks override uuid now db =
    if is_named req.client_name
    then add (record_of req jwks (chosen_id override uuid) now)
        (lookup (chosen_id override uuid) db.client_id_index) db
    else (err (message "invalid client ID"), db)

abbrev write_jwks : ℕ → Option Jwks → Option ClientRecord → Exec Db (Unit {0})
write_jwks i jwks none db = (crash "index out of range", db)
write_jwks i jwks (some r) db =
    (ok tt, record db { clients = set db.clients i (record r { jwks = jwks }) })

abbrev write_jwks_at : Option Jwks → Option ℕ → Exec Db (Unit {0})
write_jwks_at jwks none db = (err (message "client not found"), db)
write_jwks_at jwks (some i) db = write_jwks i jwks (get_elem? db.clients i) db

unfoldable pub update_jwks : String → Option Jwks → Exec Db (Unit {0})
update_jwks id jwks db = write_jwks_at jwks (lookup id db.client_id_index) db

-- d.Clients[i] = d.Clients[len-1], and the last place is cut off; both reads are checked.
abbrev move_last : ℕ → Option ClientRecord → Option ClientRecord → Exec Db Bool
move_last i (some last) (some freed) db =
    (ok true, record db { clients = take (length db.clients - 1) (set db.clients i last) })
move_last i last freed db = (crash "index out of range", db)

abbrev delete_at : String → Option ℕ → Exec Db Bool
delete_at id none db = (ok false, db)
delete_at id (some i) db =
    move_last i (get_elem? db.clients (length db.clients - 1)) (get_elem? db.clients i)
      (record db { client_id_index = erase id db.client_id_index })

unfoldable pub delete : String → Exec Db Bool
delete id db = delete_at id (lookup id db.client_id_index) db

abbrev checked : String → Option ClientRecord → Result (Option ClientRecord)
checked id none = crash "index out of range"
checked id (some r) = if r.client_id == id then ok (some r) else crash "inconsistent state"

abbrev record_at : String → List ClientRecord → Option ℕ → Result (Option ClientRecord)
record_at id clients none = ok none
record_at id clients (some i) = checked id (get_elem? clients i)

unfoldable pub get : String → Db → Result (Option ClientRecord)
get id db = record_at id db.clients (lookup id db.client_id_index)

-- The loop of Query.
unfoldable pub matching : (ClientRecord → Bool) → List ClientRecord → List ClientRecord
matching predicate [] = []
matching predicate (c ∷ cs) =
    let rest = matching predicate cs in if predicate c then c ∷ rest else rest

unfoldable pub query : (ClientRecord → Bool) → Db → List ClientRecord
query predicate db = matching predicate db.clients
