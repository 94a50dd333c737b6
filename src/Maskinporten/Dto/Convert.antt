-- ===== src/Maskinporten/Dto/Convert.antt =====
-- The conversions between the requests and responses, of internal/maskinporten/client_state.go.
use altinn_k8s_operator.Base.{none, some, Slice, []}
use altinn_k8s_operator.Maskinporten.Dto.{AddClientRequest, UpdateClientRequest, ClientResponse}

-- make([]T, len(s)) and copy: never nil.
abbrev pub copied : Slice → Slice
copied none = some []
copied (some xs) = some xs

-- The fields that the operator does not set itself are left out.
unfoldable pub map_client_response_to_add_request : ClientResponse → AddClientRequest
map_client_response_to_add_request api = record {
  client_id = none;
  client_name = api.client_name;
  client_orgno = api.client_orgno;
  supplier_orgno = none;
  description = api.description;
  active = none;
  application_type = api.application_type;
  integration_type = api.integration_type;
  scopes = api.scopes;
  grant_types = copied api.grant_types;
  token_endpoint_auth_method = api.token_endpoint_auth_method;
  refresh_token_lifetime = none;
  refresh_token_usage = none;
  access_token_lifetime = none;
  authorization_lifetime = none;
  logo_uri = none;
  redirect_uris = none;
  post_logout_redirect_uris = none;
  frontchannel_logout_session_required = none;
  frontchannel_logout_uri = none;
  sso_disabled = none;
  code_challenge_method = none;
}

unfoldable pub convert_add_request_to_update_request : AddClientRequest → UpdateClientRequest
convert_add_request_to_update_request req = record {
  client_id = req.client_id;
  client_name = req.client_name;
  client_orgno = req.client_orgno;
  supplier_orgno = req.supplier_orgno;
  description = req.description;
  active = req.active;
  application_type = req.application_type;
  integration_type = req.integration_type;
  scopes = req.scopes;
  grant_types = req.grant_types;
  token_endpoint_auth_method = req.token_endpoint_auth_method;
  refresh_token_lifetime = req.refresh_token_lifetime;
  refresh_token_usage = req.refresh_token_usage;
  access_token_lifetime = req.access_token_lifetime;
  authorization_lifetime = req.authorization_lifetime;
  logo_uri = req.logo_uri;
  redirect_uris = req.redirect_uris;
  post_logout_redirect_uris = req.post_logout_redirect_uris;
  frontchannel_logout_session_required = req.frontchannel_logout_session_required;
  frontchannel_logout_uri = req.frontchannel_logout_uri;
  sso_disabled = req.sso_disabled;
  code_challenge_method = req.code_challenge_method;
}
