-- ===== src/Fakes/Handlers/Clients.antt =====
-- handleClients, handleClientByID and handleClientJwks of cmd/maskinporten_fakes/main.go.
use altinn_k8s_operator.Base.{
  ℕ, ◌+◌, String, ◌==◌, Bool, Option, none, some, List, map, Result, ok, if◌then◌else◌,
}
use altinn_k8s_operator.Base.Exec.{Exec, pure, lift, ◌>>=◌, handle}
use altinn_k8s_operator.Crypto.Types.{External}
use altinn_k8s_operator.Crypto.Jwks.{Jwk, Jwks}
use altinn_k8s_operator.Crypto.Jwt.{contains}
use altinn_k8s_operator.Maskinporten.Dto.{AddClientRequest, UpdateClientRequest}
use altinn_k8s_operator.Maskinporten.Http.{HttpRequest}
use altinn_k8s_operator.Fakes.Db.{ClientRecord, Db, delete, get, update_jwks}
use altinn_k8s_operator.Fakes.State.{State, Stamps, get_db, write_back, insert_stamped}
use altinn_k8s_operator.Fakes.Handlers.{
  Answer, only_status, reply, WireCodec, one_client, many_clients, key_set, run_id_of, values,
  with_token, self_service_auth,
}

-- The request that PUT makes of the one it reads: field by field.
unfoldable pub add_request_of : UpdateClientRequest → AddClientRequest
add_request_of client = record {
  client_id = client.client_id;
  client_name = client.client_name;
  client_orgno = client.client_orgno;
  supplier_orgno = client.supplier_orgno;
  description = client.description;
  active = client.active;
  application_type = client.application_type;
  integration_type = client.integration_type;
  scopes = client.scopes;
  grant_types = client.grant_types;
  token_endpoint_auth_method = client.token_endpoint_auth_method;
  refresh_token_lifetime = client.refresh_token_lifetime;
  refresh_token_usage = client.refresh_token_usage;
  access_token_lifetime = client.access_token_lifetime;
  authorization_lifetime = client.authorization_lifetime;
  logo_uri = client.logo_uri;
  redirect_uris = client.redirect_uris;
  post_logout_redirect_uris = client.post_logout_redirect_uris;
  frontchannel_logout_session_required = client.frontchannel_logout_session_required;
  frontchannel_logout_uri = client.frontchannel_logout_uri;
  sso_disabled = client.sso_disabled;
  code_challenge_method = client.code_challenge_method;
}

abbrev pub asks_for_admin : Option (List String) → Bool
asks_for_admin scopes = contains (values scopes) "idporten:dcr.altinn"

-- if err != nil { w.WriteHeader(400); return }
abbrev pub or_bad_request :
    {A : Type 0} → Exec State A → (A → Exec State Answer) → Exec State Answer
or_bad_request m rest = handle m (λ e. pure (only_status 400)) rest

-- The number of the next insertion.
abbrev pub next_stamp : Exec State ℕ
next_stamp s = (ok s.insertions, record s { insertions = s.insertions + 1 })

module _ (wire : WireCodec) (stamps : Stamps) (read_jwk : String → Result Jwk) (x : External) where
  abbrev database : HttpRequest → Exec State Db
  database req = get_db stamps read_jwk x (run_id_of req)

  -- state.GetDb(r).Insert(…)
  unfoldable pub insert_client :
      HttpRequest → AddClientRequest → Option Jwks → String → Exec State ClientRecord
  insert_client req client jwks override = do
    db ← database req
    n ← next_stamp
    write_back (run_id_of req) (insert_stamped stamps read_jwk x client jwks override n) db

  unfoldable pub list_clients : HttpRequest → Exec State Answer
  list_clients req = do
    db ← database req
    lift (reply 500 (wire.encode (many_clients (map (λ r. r.client) db.clients))))

  unfoldable pub post_client : HttpRequest → Exec State Answer
  post_client req = or_bad_request (lift (wire.read_add_request req.body)) (λ client.
      if asks_for_admin client.scopes
      then pure (only_status 400)
      else or_bad_request (insert_client req client none "")
          (λ r. lift (reply 200 (wire.encode (one_client r.client)))))

  -- Every case of the switch checks the token first.
  unfoldable pub handle_clients : HttpRequest → Exec State Answer
  handle_clients req = with_token wire (self_service_auth wire req) (
      if req.method == "GET"
      then list_clients req
      else if req.method == "POST"
      then post_client req
      else pure (only_status 404))

  abbrev client_reply : Option ClientRecord → Result Answer
  client_reply none = ok (only_status 404)
  client_reply (some r) = reply 500 (wire.encode (one_client r.client))

  unfoldable pub get_client : String → HttpRequest → Exec State Answer
  get_client id req = do db ← database req; found ← lift (get id db); lift (client_reply found)

  -- The client is deleted, and inserted again without keys.
  unfoldable pub replace_client : String → HttpRequest → UpdateClientRequest → Exec State Answer
  replace_client id req client = do
    db ← database req
    deleted ← write_back (run_id_of req) (delete id) db
    (if deleted
        then or_bad_request (insert_client req (add_request_of client) none id)
            (λ r. lift (reply 200 (wire.encode (one_client r.client))))
        else pure (only_status 400))

  unfoldable pub put_client : String → HttpRequest → Exec State Answer
  put_client id req = or_bad_request (lift (wire.read_update_request req.body)) (λ client.
      if asks_for_admin client.scopes then pure (only_status 400) else replace_client id req client)

  abbrev pub by_method : String → HttpRequest → String → Exec State Answer
  by_method id req method =
      if method == "GET"
      then get_client id req
      else if method == "PUT"
      then put_client id req
      else if method == "DELETE"
      then pure (only_status 200)
      else pure (only_status 404)

  -- The case DELETE writes nothing, which net/http answers with the status 200.
  unfoldable pub handle_client_by_id : String → HttpRequest → Exec State Answer
  handle_client_by_id id req =
      with_token wire (self_service_auth wire req) (by_method id req req.method)

  abbrev jwks_reply : Option ClientRecord → Result Answer
  jwks_reply none = ok (only_status 404)
  jwks_reply (some r) = reply 500 (wire.encode (key_set r.jwks))

  unfoldable pub get_jwks : String → HttpRequest → Exec State Answer
  get_jwks id req = do db ← database req; found ← lift (get id db); lift (jwks_reply found)

  unfoldable pub post_jwks : String → HttpRequest → Exec State Answer
  post_jwks id req = or_bad_request (lift (wire.read_jwks req.body)) (λ jwks.
      or_bad_request
        (do db ← database req; write_back (run_id_of req) (update_jwks id (some jwks)) db)
        (λ done. pure (only_status 201)))

  unfoldable pub handle_client_jwks : String → HttpRequest → Exec State Answer
  handle_client_jwks id req = with_token wire (self_service_auth wire req) (
      if req.method == "GET"
      then get_jwks id req
      else if req.method == "POST"
      then post_jwks id req
      else pure (only_status 404))
