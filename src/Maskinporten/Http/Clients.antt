-- ===== src/Maskinporten/Http/Clients.antt =====
-- The methods of internal/maskinporten/http_api_client.go for the self-service API.
use altinn_k8s_operator.Base.{
  String, ◌==◌, Bool, true, false, Option, none, some, List, [], ◌∷◌, Result, ok, err, crash,
  message, formatted, fail_if, if◌then◌else◌,
}
use altinn_k8s_operator.Base.Exec.{Exec, pure, lift, ◌>>=◌, wrapping}
use altinn_k8s_operator.Base.Text.Split.{strip?}
use altinn_k8s_operator.Crypto.Types.{External}
use altinn_k8s_operator.Crypto.Jwks.{Jwk, Jwks, is_public}
use altinn_k8s_operator.Crypto.Jwt.{Jose}
use altinn_k8s_operator.Maskinporten.Dto.{AddClientRequest, UpdateClientRequest, ClientResponse}
use altinn_k8s_operator.Maskinporten.Http.{
  HttpRequest, set_header, Network, ApiCodec, HttpApiClient, Session, on_network,
}
use altinn_k8s_operator.Maskinporten.Http.Send.{deserialize, expect}
use altinn_k8s_operator.Maskinporten.Http.Tokens.{create_req}

abbrev pub clients_path : String
clients_path = "/api/v1/altinn/admin/clients"

-- strings.TrimPrefix
abbrev pub text_or : String → Option String → String
text_or s none = s
text_or s (some rest) = rest

unfoldable pub trim_prefix : String → String → String
trim_prefix s prefix = text_or s (strip? prefix s)

-- The name is there, and trimming the prefix changes it.
unfoldable pub has_client_name : String → Option String → Bool
unfolding trim_prefix
has_client_name prefix none = false
has_client_name prefix (some name) = if trim_prefix name prefix == name then false else true

-- The loop of GetAllClients.
unfoldable pub own_clients : String → List ClientResponse → List ClientResponse
unfolding has_client_name
own_clients prefix [] = []
own_clients prefix (cl ∷ dtos) =
    let rest = own_clients prefix dtos in
    if has_client_name prefix cl.client_name then cl ∷ rest else rest

abbrev pub clients_or_error : Option (List ClientResponse) → Result (List ClientResponse)
clients_or_error none = err (message "no clients found")
clients_or_error (some dtos) = ok dtos

abbrev pub jwks_or_error : Option Jwks → Result Jwks
jwks_or_error none = err (message "can't create maskinporten client without JWKS initialized")
jwks_or_error (some jwks) = ok jwks

-- The checks of the name in GetClient.
unfoldable pub check_client_name : String → Option String → Result (Unit {0})
unfolding trim_prefix
check_client_name prefix none = err (message "client name is nil")
check_client_name prefix (some name) =
    fail_if (trim_prefix name prefix == name) (formatted "unexpected client name" name)

abbrev pub if_public : String → Result (Unit {0}) → Result Bool → Result (Unit {0})
if_public id rest (ok true) = rest
if_public id rest (ok false) =
    err (formatted "tried to upload private key JWKS to Maskinporten for" id)
if_public id rest (err e) = err e
if_public id rest (crash m) = crash m

-- The loop of CreateClientJwks.
unfoldable pub check_public : External → String → List (Option Jwk) → Result (Unit {0})
check_public x id [] = ok tt
check_public x id (jwk ∷ keys) =
    let rest = check_public x id keys in if_public id rest (is_public x jwk)

abbrev pub accepts_json : HttpRequest → HttpRequest
accepts_json = set_header "Accept" "application/json"

abbrev pub sends_json : HttpRequest → HttpRequest
sends_json req = accepts_json (set_header "Content-Type" "application/json" req)

module _ {W : Type 0} (n : Network W) (codec : ApiCodec) (jose : Jose) (x : External)
    (c : HttpApiClient) where
  abbrev pub authorized : String → String → Option String → Exec (Session W) HttpRequest
  authorized = create_req n codec c jose x

  unfoldable pub get_all_clients : Exec (Session W) (List ClientResponse)
  get_all_clients = do
    url ← lift (n.join_path c.config.self_service_url (clients_path ∷ []))
    req ← authorized url "GET" none
    resp ← on_network (expect n c 200 (accepts_json req))
    found ← lift (deserialize codec.read_clients resp)
    dtos ← lift (clients_or_error found)
    pure (own_clients c.client_name_prefix dtos)

  unfoldable pub get_client_jwks : String → Exec (Session W) Jwks
  get_client_jwks client_id = do
    checked ← lift (fail_if (client_id == "") (message "missing ID on client info"))
    url ← lift (n.join_path c.config.self_service_url (clients_path ∷ client_id ∷ "jwks" ∷ []))
    req ← authorized url "GET" none
    resp ← on_network (expect n c 200 (accepts_json req))
    lift (deserialize codec.read_jwks resp)

  unfoldable pub get_client : String → Exec (Session W) (ClientResponse × Jwks)
  get_client client_id = do
    url ← lift (n.join_path c.config.self_service_url (clients_path ∷ client_id ∷ []))
    req ← authorized url "GET" none
    resp ← on_network (expect n c 200 (accepts_json req))
    dto ← lift (deserialize codec.read_client resp)
    named ← lift (check_client_name c.client_name_prefix dto.client_name)
    jwks ← get_client_jwks client_id
    pure (dto, jwks)

  -- The requests of CreateClientJwks, after its checks.
  unfoldable pub upload_jwks : String → Jwks → Exec (Session W) (Unit {0})
  upload_jwks client_id jwks = do
    url ← lift (n.join_path c.config.self_service_url (clients_path ∷ client_id ∷ "jwks" ∷ []))
    buf ← lift (codec.write_jwks jwks)
    req ← authorized url "POST" (some buf)
    resp ← on_network (expect n c 201 (sends_json req))
    pure tt

  unfoldable pub create_client_jwks : String → Option Jwks → Exec (Session W) (Unit {0})
  create_client_jwks client_id keys = do
    checked ← lift (fail_if (client_id == "") (message "missing ID on client info"))
    jwks ← lift (jwks_or_error keys)
    public ← lift (check_public x client_id jwks.keys)
    upload_jwks client_id jwks

  unfoldable pub create_client :
      Option AddClientRequest → Option Jwks → Exec (Session W) ClientResponse
  create_client client keys = do
    jwks ← lift (jwks_or_error keys)
    url ← lift (n.join_path c.config.self_service_url (clients_path ∷ []))
    buf ← lift (codec.write_add_request client)
    req ← authorized url "POST" (some buf)
    resp ← on_network (expect n c 200 (sends_json req))
    result ← lift (deserialize codec.read_client resp)
    created ←
        wrapping
          "error creating client: Created Maskinporten client, but failed to create associated JWKS"
          (create_client_jwks result.client_id (some jwks))
    pure result

  unfoldable pub update_client : String → UpdateClientRequest → Exec (Session W) ClientResponse
  update_client client_id client = do
    checked ← lift (
        fail_if (client_id == "") (
          formatted "tried to update maskinporten client with empty ID for client name"
            (text_or "" client.client_name)))
    url ← lift (n.join_path c.config.self_service_url (clients_path ∷ client_id ∷ []))
    buf ← lift (codec.write_update_request client)
    req ← authorized url "PUT" (some buf)
    resp ← on_network (expect n c 200 (sends_json req))
    lift (deserialize codec.read_client resp)

  unfoldable pub delete_client : String → Exec (Session W) (Unit {0})
  delete_client client_id = do
    url ← lift (n.join_path c.config.self_service_url (clients_path ∷ client_id ∷ []))
    req ← authorized url "DELETE" none
    resp ← on_network (expect n c 200 req)
    pure tt
