-- ===== src/Fakes/Handlers/Isolated/Served.antt =====
-- A handler of cmd/maskinporten_fakes/main.go touches the database of its request's run only.
use altinn_k8s_operator.Base.{
  ◌≡◌, ◌≢◌, refl, ◌∙◌, String, ◌==◌, eq_iff, not, false, Option, none, some, List, [], ◌∷◌, Result,
  All, arith,
}
use altinn_k8s_operator.Base.Exec.{Exec, pure}
use altinn_k8s_operator.Base.Exec.Keeps.{Keeps-handle}
use altinn_k8s_operator.Base.Map.{lookup}
use altinn_k8s_operator.Crypto.Types.{External}
use altinn_k8s_operator.Crypto.Jwks.{Jwk, Jwks}
use altinn_k8s_operator.Crypto.Jwt.{Jose, Jwt, Claims, parse_jwt, key_id as token_key_id}
use altinn_k8s_operator.Maskinporten.Dto.{
  AddClientRequest, UpdateClientRequest, grant_type_jwt_bearer,
}
use altinn_k8s_operator.Maskinporten.Http.{HttpRequest}
use altinn_k8s_operator.Fakes.Db.{Db, ClientRecord}
use altinn_k8s_operator.Fakes.State.{State, Stamps}
use altinn_k8s_operator.Fakes.Handlers.{
  Answer, only_status, FakeToken, WireCodec, run_id_of, with_token,
}
use altinn_k8s_operator.Fakes.Handlers.Clients.{
  next_stamp, insert_client, list_clients, post_client, handle_clients, get_client, replace_client,
  put_client, handle_client_by_id, get_jwks, post_jwks, handle_client_jwks,
}
use altinn_k8s_operator.Fakes.Handlers.Token.{
  grant_token, check_claims, has_all_scopes, clients_with_key, for_client, check_assertion,
  handle_token,
}
use altinn_k8s_operator.Fakes.Handlers.Isolated.{
  DbOf, Apart, Apart-write_back, Apart-pure, Apart-lift, Apart-bind, Apart-or_bad_request, Apart-if,
  Apart-get_db,
}

other_run : (a b : String) → a ≢ b → (a == b) ≡ false
other_run a b h = ground (arith, eq_iff a b)

-- The requests of both APIs, by their path.
pub data Served : Type 0 where
  clients : Served
  client_by_id : String → Served
  client_jwks : String → Served
  token : Served

module _ (wire : WireCodec) (stamps : Stamps) (read_jwk : String → Result Jwk) (x : External)
    (jose : Jose) where
  abbrev pub serve_one : Served → HttpRequest → Exec State Answer
  serve_one clients req = handle_clients wire stamps read_jwk x req
  serve_one (client_by_id id) req = handle_client_by_id wire stamps read_jwk x id req
  serve_one (client_jwks id) req = handle_client_jwks wire stamps read_jwk x id req
  serve_one token req = handle_token wire stamps read_jwk x jose req

  abbrev pub serve_all : List (Served × HttpRequest) → State → State
  serve_all [] s = s
  serve_all ((path, req) ∷ requests) s = serve_all requests (serve_one path req s).1

module _ (wire : WireCodec) (stamps : Stamps) (read_jwk : String → Result Jwk) (x : External)
    (run : String) (before : Option Db) (req : HttpRequest)
    (differs : (run_id_of req == run) ≡ false) where
  Apart-next_stamp : Apart run before next_stamp
  Apart-next_stamp = record { kept = λ s h. h; result = λ s h a e. tt }

  Apart-insert_client :
      (client : AddClientRequest) (jwks : Option Jwks) (id : String)
      → Apart run before (insert_client wire stamps read_jwk x req client jwks id)
  unfolding insert_client
  Apart-insert_client client jwks id =
      Apart-bind run before _ _ (Apart-get_db run before stamps read_jwk x _ differs) λ db.
        Apart-bind run before _ _ Apart-next_stamp λ n. Apart-write_back run before _ _ db differs

  Apart-with_token :
      (t : Option FakeToken) (m : Exec State Answer)
      → Apart run before m
      → Apart run before (with_token wire t m)
  Apart-with_token none m h = Apart-pure run before _
  Apart-with_token (some t) m h = h

  Apart-handle_clients : Apart run before (handle_clients wire stamps read_jwk x req)
  unfolding handle_clients list_clients post_client
  Apart-handle_clients = Apart-with_token _ _ (
      Apart-if run before _ _ _
        (Apart-bind run before _ _ (Apart-get_db run before stamps read_jwk x _ differs)
          λ db. Apart-lift run before _)
        (Apart-if run before _ _ _
          (Apart-or_bad_request run before _ _ (Apart-lift run before _) λ client.
            Apart-if run before _ _ _ (Apart-pure run before _) (
              Apart-or_bad_request run before _ _ (Apart-insert_client client none "")
                λ r. Apart-lift run before _))
          (Apart-pure run before _)))

  Apart-replace_client :
      (id : String) (client : UpdateClientRequest)
      → Apart run before (replace_client wire stamps read_jwk x id req client)
  unfolding replace_client
  Apart-replace_client id client =
      Apart-bind run before _ _ (Apart-get_db run before stamps read_jwk x _ differs) λ db.
        Apart-bind run before _ _ (Apart-write_back run before _ _ db differs) λ deleted.
          Apart-if run before deleted _ _
            (Apart-or_bad_request run before _ _ (Apart-insert_client _ none id)
              λ r. Apart-lift run before _)
            (Apart-pure run before _)

  Apart-handle_client_by_id :
      (id : String) → Apart run before (handle_client_by_id wire stamps read_jwk x id req)
  unfolding handle_client_by_id get_client put_client
  Apart-handle_client_by_id id = Apart-with_token _ _ (
      Apart-if run before _ _ _
        (Apart-bind run before _ _ (Apart-get_db run before stamps read_jwk x _ differs) λ db.
          Apart-bind run before _ _ (Apart-lift run before _) λ found. Apart-lift run before _)
        (Apart-if run before _ _ _
          (Apart-or_bad_request run before _ _ (Apart-lift run before _) λ client.
            Apart-if run before _ _ _ (Apart-pure run before _) (Apart-replace_client id client))
          (Apart-if run before _ _ _ (Apart-pure run before _) (Apart-pure run before _))))

  Apart-handle_client_jwks :
      (id : String) → Apart run before (handle_client_jwks wire stamps read_jwk x id req)
  unfolding handle_client_jwks get_jwks post_jwks
  Apart-handle_client_jwks id = Apart-with_token _ _ (
      Apart-if run before _ _ _
        (Apart-bind run before _ _ (Apart-get_db run before stamps read_jwk x _ differs) λ db.
          Apart-bind run before _ _ (Apart-lift run before _) λ found. Apart-lift run before _)
        (Apart-if run before _ _ _
          (Apart-or_bad_request run before _ _ (Apart-lift run before _) λ jwks.
            Apart-or_bad_request run before _ _
              (Apart-bind run before _ _ (Apart-get_db run before stamps read_jwk x _ differs)
                λ db. Apart-write_back run before _ _ db differs)
              λ done. Apart-pure run before _)
          (Apart-pure run before _)))

module _ (wire : WireCodec) (stamps : Stamps) (read_jwk : String → Result Jwk) (x : External)
    (jose : Jose) (run : String) (before : Option Db) (req : HttpRequest)
    (differs : (run_id_of req == run) ≡ false) where
  Apart-grant_token :
      (client : ClientRecord) (scopes : List String)
      → Apart run before (grant_token wire stamps read_jwk x jose client scopes)
  unfolding grant_token
  Apart-grant_token client scopes =
      Keeps-handle (DbOf run before) _ _ _ (Apart-lift run before _) (λ e. Apart-pure run before _)
        (λ json made. Apart-lift run before _)

  refused : Apart run before (pure (only_status 400))
  refused = Apart-pure run before (only_status 400)

  Apart-check_claims :
      (client : ClientRecord) (claims : Claims)
      → Apart run before (check_claims wire stamps read_jwk x jose client claims)
  unfolding check_claims
  Apart-check_claims client claims = Apart-if run before (claims.issuer == "") _ _ refused (
      Apart-if run before (not (claims.issuer == client.client_id)) _ _ refused (
        Apart-if run before (claims.scope == "") _ _ refused (
          Apart-if run before (has_all_scopes client.client.scopes (wire.fields claims.scope)) _ _
            (Apart-grant_token client (wire.fields claims.scope)) refused)))

  Apart-for_client :
      (t : Jwt) (found : List ClientRecord)
      → Apart run before (for_client wire stamps read_jwk x jose t found)
  Apart-for_client t [] = Apart-pure run before _
  Apart-for_client t (client ∷ []) = Apart-bind run before _ _ (Apart-lift run before _) λ jwk.
      Apart-or_bad_request run before _ _ (Apart-lift run before _) (Apart-check_claims client)
  Apart-for_client t (client ∷ other ∷ found) = Apart-pure run before _

  Apart-check_assertion :
      (assertion : String)
      → Apart run before (check_assertion wire stamps read_jwk x jose req assertion)
  unfolding check_assertion
  Apart-check_assertion assertion =
      Apart-or_bad_request run before _ _ (Apart-lift run before (parse_jwt jose assertion)) λ t.
        Apart-bind run before _ _ (Apart-lift run before (token_key_id t)) λ kid.
          Apart-if run before (kid == "") _ _ refused (
            Apart-bind run before _ _ (Apart-get_db run before stamps read_jwk x _ differs) λ db.
              Apart-bind run before _ _ (Apart-lift run before (clients_with_key kid db.clients))
                λ found. Apart-for_client t found)

  Apart-handle_token : Apart run before (handle_token wire stamps read_jwk x jose req)
  unfolding handle_token
  Apart-handle_token =
      Apart-if run before (not (req.method == "POST")) _ _ (Apart-pure run before (only_status 404))
        (Apart-if run before (not (wire.query_get req.url "grant_type" == grant_type_jwt_bearer)) _
          _ refused
          (Apart-if run before (wire.query_get req.url "assertion" == "") _ _ refused
            (Apart-check_assertion (wire.query_get req.url "assertion"))))

  serve_one-kept :
      (path : Served) (s : State)
      → DbOf run before s
      → DbOf run before (serve_one wire stamps read_jwk x jose path req s).1
  serve_one-kept clients s h =
      (Apart-handle_clients wire stamps read_jwk x run before req differs).kept s h
  serve_one-kept (client_by_id id) s h =
      (Apart-handle_client_by_id wire stamps read_jwk x run before req differs id).kept s h
  serve_one-kept (client_jwks id) s h =
      (Apart-handle_client_jwks wire stamps read_jwk x run before req differs id).kept s h
  serve_one-kept token s h = Apart-handle_token.kept s h

module _ (wire : WireCodec) (stamps : Stamps) (read_jwk : String → Result Jwk) (x : External)
    (jose : Jose) (run : String) where
  -- Whatever requests the fake APIs serve, in any order, if none of them is of this run of the
  -- operator, the database of the run stays as it was, and none is made for it if there was none.
  pub serve_all-kept :
      (requests : List (Served × HttpRequest)) (s : State)
      → All (λ r. run_id_of r.1 ≢ run) requests
      → lookup run (serve_all wire stamps read_jwk x jose requests s).dbs ≡ lookup run s.dbs
  serve_all-kept [] s h = refl
  serve_all-kept ((path, req) ∷ requests) s h =
      serve_all-kept requests _ h.1
      ∙ serve_one-kept wire stamps read_jwk x jose run (lookup run s.dbs) req
          (other_run (run_id_of req) run h.0) path s refl
