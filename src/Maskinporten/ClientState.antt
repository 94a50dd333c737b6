-- ===== src/Maskinporten/ClientState.antt =====
-- internal/maskinporten/client_state.go: the snapshot of a client's state across its sources, and
-- the hydration of it (NewClientState). `Commands` and `Reconcile` hold the rest of the file.
pub mod Commands
pub mod Describe
pub mod Hydrated
pub mod Reconcile
use altinn_k8s_operator.Base.{
  ℕ, String, ◌<>◌, Bool, true, false, ◌&&◌, not, Option, none, some, List, [], ◌∷◌, Result, ok, err,
  message, formatted, ◌>>=◌, ◌>>◌, fail_if, is_some, ◌==◌,
}
use altinn_k8s_operator.Base.Text.Split.{split_on}
use altinn_k8s_operator.OperatorContext.{Context}
use altinn_k8s_operator.Crypto.Jwks.{Jwks}
use altinn_k8s_operator.Crd.{MaskinportenClient, Secret}
use altinn_k8s_operator.Maskinporten.Dto.{
  AddClientRequest, ClientResponse, application_type_web, integration_type_maskinporten,
  grant_type_jwt_bearer, token_endpoint_auth_method_private_key_jwt,
}
use altinn_k8s_operator.Maskinporten.Dto.Convert.{map_client_response_to_add_request}
use altinn_k8s_operator.Maskinporten.Secret.{SecretStateContent}

pub record ApiState : Type 0 where
  pub client_id : String
  pub req : Option AddClientRequest
  pub jwks : Option Jwks

pub record SecretState : Type 0 where
  pub content : Option SecretStateContent
  pub manifest : Secret

pub record ClientState : Type 0 where
  pub app_id : String
  pub crd : MaskinportenClient
  pub api : Option ApiState
  pub secret : SecretState

-- The second part of the name of a resource, between its first two dashes.
unfoldable pub app_id_of : String → List String → Result String
app_id_of name (_ ∷ app ∷ _) = ok app
app_id_of name _ = err (formatted "unexpected name format for MaskinportenClient resource" name)

abbrev pub with_api : Option ClientResponse → Option Jwks → ClientState → Result ClientState
with_api none jwks s = ok s
with_api (some api) jwks s = do
  fail_if (api.client_id == "") (message "received empty ClientId when building client state")
  ok (record s {
    api = some (record {
      client_id = api.client_id;
      req = some (map_client_response_to_add_request api);
      jwks = jwks;
    });
  })

-- The arguments are pointers, any of which may be nil.
unfoldable pub new_client_state :
    Option MaskinportenClient
    → Option ClientResponse
    → Option Jwks
    → Option Secret
    → Option SecretStateContent
    → Result ClientState
new_client_state none api jwks secret content =
    err (message "tried to hydrate client state without CRD")
new_client_state (some crd) api jwks none content =
    err (formatted "null secret when hydrating for app" crd.name)
new_client_state (some crd) api jwks (some secret) content = do
  fail_if (not (is_some api) && is_some jwks)
      (message "unexpected condition, api resource was not created but api JWKS was")
  app ← app_id_of crd.name (split_on b'-' crd.name)
  with_api api jwks (record {
    app_id = app;
    crd = crd;
    api = none;
    secret = record { content = content; manifest = secret };
  })

unfoldable pub get_client_name_prefix : Context → String
get_client_name_prefix c =
    "altinnoperator-" <> (c.service_owner_name <> ("-" <> (c.environment <> "-")))

unfoldable pub get_client_name : Context → String → String
unfolding get_client_name_prefix
get_client_name c app = get_client_name_prefix c <> app

-- The scopes are the ones in the resource.
unfoldable pub build_api_req : Context → ClientState → AddClientRequest
unfolding get_client_name
build_api_req c s = record {
  client_id = none;
  client_name = some (get_client_name c s.app_id);
  client_orgno = some c.service_owner_org_no;
  supplier_orgno = none;
  description = some (
      "Altinn Operator managed client for "
      <> (c.service_owner_name <> ("/" <> (c.environment <> ("/" <> s.app_id)))));
  active = none;
  application_type = some application_type_web;
  integration_type = some integration_type_maskinporten;
  scopes = ((s.crd).spec).scopes;
  grant_types = some (grant_type_jwt_bearer ∷ []);
  token_endpoint_auth_method = some token_endpoint_auth_method_private_key_jwt;
  refresh_token_lifetime = none;
  refresh_token_usage = none;
  access_token_lifetime = none;
  authorization_lifetime = none;
  logo_uri = none;
  redirect_uris = none;
  post_logout_redirect_uris = none;
  frontchannel_logout_session_required = none;
  frontchannel_logout_uri = none;
  sso_disabled = none;
  code_challenge_method = none;
}
