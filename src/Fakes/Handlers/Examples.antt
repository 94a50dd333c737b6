-- ===== src/Fakes/Handlers/Examples.antt =====
-- The fake APIs at concrete data: two runs of the operator, and a client with keys.
use altinn_k8s_operator.Base.{
  ◌≡◌, ◌≢◌, ◌==◌, eq_iff, false, arith, refl, String, some, none, [], ◌∷◌, ok, err, message,
}
use altinn_k8s_operator.Base.Exec.{◌>>=◌, handle}
use altinn_k8s_operator.Base.Map.{lookup, insert as put, erase}
use altinn_k8s_operator.Crypto.Demo.{demo, today}
use altinn_k8s_operator.Crypto.Jwt.{contains}
use altinn_k8s_operator.Crypto.Jwt.Examples.{demo_jwk, demo_jose}
use altinn_k8s_operator.Maskinporten.DemoState.{config, public_key}
use altinn_k8s_operator.Maskinporten.Dto.{UpdateClientRequest}
use altinn_k8s_operator.Maskinporten.Http.{HttpRequest}
use altinn_k8s_operator.Maskinporten.Http.Clients.{trim_prefix}
use altinn_k8s_operator.Base.Text.Split.{strip?}
use altinn_k8s_operator.Fakes.Db.{ClientRecord, Db, record_of, insert, delete}
use altinn_k8s_operator.Fakes.State.{State, Stamps, get_db, write_back, insert_stamped}
use altinn_k8s_operator.Fakes.Handlers.{WireCodec, self_service_auth, header_get, run_id_of}
use altinn_k8s_operator.Fakes.Handlers.Clients.{
  handle_client_by_id, put_client, replace_client, insert_client, add_request_of,
}
use altinn_k8s_operator.Fakes.Handlers.Unauthorized.{client_by_id}
use altinn_k8s_operator.Fakes.Handlers.Isolated.Served.{Served, token, serve_all, serve_all-kept}
use altinn_k8s_operator.Fakes.Handlers.Put.{HasNoKeys, handle_client_by_id-HasNoKeys}

abbrev update : UpdateClientRequest
update = record {
  client_id = none;
  client_name = some "altinnoperator-local-local-testapp";
  client_orgno = none;
  supplier_orgno = none;
  description = none;
  active = none;
  application_type = none;
  integration_type = none;
  scopes = some ("altinn:read" ∷ []);
  grant_types = none;
  token_endpoint_auth_method = none;
  refresh_token_lifetime = none;
  refresh_token_usage = none;
  access_token_lifetime = none;
  authorization_lifetime = none;
  logo_uri = none;
  redirect_uris = none;
  post_logout_redirect_uris = none;
  frontchannel_logout_session_required = none;
  frontchannel_logout_uri = none;
  sso_disabled = none;
  code_challenge_method = none;
}

abbrev wire : WireCodec
wire = record {
  encode = λ content. ok "{}";
  marshal_token = λ t. ok "{}";
  unmarshal_token =
      λ text. ok (record { scopes = some ("idporten:dcr.altinn" ∷ []); client_id = "operator" });
  base64_encode = λ text. text;
  base64_decode = λ text. ok text;
  read_add_request = λ body. err (message "unexpected end of JSON input");
  read_update_request = λ body. ok update;
  read_jwks = λ body. err (message "unexpected end of JSON input");
  query_get = λ url name. "";
  fields = λ text. text ∷ [];
  join = λ texts. "";
}

abbrev stamps : Stamps
stamps = record { uuid = λ n. "5e1f"; clock = λ n. today }

-- A client with one key.
kept_client : ClientRecord
unfolding record_of add_request_of
kept_client =
    record_of (add_request_of update) (some (record { keys = public_key "key-0" 77 ∷ [] })) "c-1"
      today

abbrev db : Db
db = record { clients = kept_client ∷ []; client_id_index = ("c-1", 0) ∷ [] }

abbrev before : State
before = record { dbs = ("1", db) ∷ []; cfg = config; insertions = 1 }

abbrev request : String → String → HttpRequest
request method run = record {
  method = method;
  url = "/api/v1/altinn/admin/clients/c-1";
  headers = ("Authorization", "Bearer e30=" ∷ []) ∷ ("X-Altinn-Operator-RunId", run ∷ []) ∷ [];
  body = some "{}";
}

put_run :
    (handle_client_by_id wire stamps (λ text. ok demo_jwk) demo "c-1" (request "PUT" "1") before).0
    ≡ ok (record { status = 200; body = "{}" })
unfolding handle_client_by_id put_client replace_client insert_client self_service_auth header_get
    trim_prefix strip? contains get_db write_back insert_stamped insert delete lookup put erase
    add_request_of record_of kept_client ◌>>=◌ handle
put_run = refl

abbrev after_put : State
after_put =
    (handle_client_by_id wire stamps (λ text. ok demo_jwk) demo "c-1" (request "PUT" "1") before).1

differ : (a b : String) → (a == b) ≡ false → a ≢ b
differ a b h = ground (arith, eq_iff a b)

id_named : ◌≢◌ {A = String} "c-1" ""
id_named = differ "c-1" "" refl

handle_client_by_id-HasNoKeys_example :
    (client : UpdateClientRequest) × (wire.read_update_request (some "{}") ≡ ok client)
    × HasNoKeys "1" "c-1" (add_request_of client) after_put
unfolding header_get lookup
handle_client_by_id-HasNoKeys_example =
    handle_client_by_id-HasNoKeys wire stamps (λ text. ok demo_jwk) demo "c-1" id_named
      (request "PUT" "1") before after_put (record { status = 200; body = "{}" }) refl
      (λ i. (put_run i, after_put)) refl

other_run : run_id_of (request "PUT" "2") ≢ "1"
unfolding header_get lookup
other_run = differ "2" "1" refl

serve_all-kept_example :
    lookup "1"
      (serve_all wire stamps
        (λ text. ok demo_jwk)
        demo
        demo_jose
        ((Served.client_by_id "c-1", request "PUT" "2") ∷ (token, request "PUT" "2") ∷ [])
        before).dbs
    ≡ lookup "1" before.dbs
serve_all-kept_example =
    serve_all-kept wire stamps (λ text. ok demo_jwk) demo demo_jose "1"
      ((Served.client_by_id "c-1", request "PUT" "2") ∷ (token, request "PUT" "2") ∷ []) before
      (other_run, (other_run, tt))
