-- ===== src/Maskinporten/Dto.antt =====
-- internal/maskinporten/client_request.go and client_response.go. The string types of the source
-- are texts here, with its constants; a pointer to a value is an option.
pub mod Convert
use altinn_k8s_operator.Base.{String, Bool, Option, Slice}
use altinn_k8s_operator.Base.Int.{ℤ}
use altinn_k8s_operator.Time.{Time}
use altinn_k8s_operator.Crypto.Jwks.{Jwks}
use altinn_k8s_operator.Base.{List}

abbrev pub application_type_web : String
application_type_web = "web"

abbrev pub integration_type_maskinporten : String
integration_type_maskinporten = "maskinporten"

abbrev pub grant_type_jwt_bearer : String
grant_type_jwt_bearer = "urn:ietf:params:oauth:grant-type:jwt-bearer"

abbrev pub token_endpoint_auth_method_private_key_jwt : String
token_endpoint_auth_method_private_key_jwt = "private_key_jwt"

pub record AddClientRequest : Type 0 where
  pub client_id : Option String
  pub client_name : Option String
  pub client_orgno : Option String
  pub supplier_orgno : Option String
  pub description : Option String
  pub active : Option Bool
  pub application_type : Option String
  pub integration_type : Option String
  pub scopes : Slice
  pub grant_types : Slice
  pub token_endpoint_auth_method : Option String
  pub refresh_token_lifetime : Option ℤ
  pub refresh_token_usage : Option String
  pub access_token_lifetime : Option ℤ
  pub authorization_lifetime : Option ℤ
  pub logo_uri : Option String
  pub redirect_uris : Slice
  pub post_logout_redirect_uris : Slice
  pub frontchannel_logout_session_required : Option Bool
  pub frontchannel_logout_uri : Option String
  pub sso_disabled : Option Bool
  pub code_challenge_method : Option String

pub record UpdateClientRequest : Type 0 where
  pub client_id : Option String
  pub client_name : Option String
  pub client_orgno : Option String
  pub supplier_orgno : Option String
  pub description : Option String
  pub active : Option Bool
  pub application_type : Option String
  pub integration_type : Option String
  pub scopes : Slice
  pub grant_types : Slice
  pub token_endpoint_auth_method : Option String
  pub refresh_token_lifetime : Option ℤ
  pub refresh_token_usage : Option String
  pub access_token_lifetime : Option ℤ
  pub authorization_lifetime : Option ℤ
  pub logo_uri : Option String
  pub redirect_uris : Slice
  pub post_logout_redirect_uris : Slice
  pub frontchannel_logout_session_required : Option Bool
  pub frontchannel_logout_uri : Option String
  pub sso_disabled : Option Bool
  pub code_challenge_method : Option String

pub record ClientOnBehalfOf : Type 0 where
  pub on_behalf_of : Option String
  pub name : Option String
  pub orgno : Option String
  pub organization_name : Option String
  pub description : Option String
  pub logo_uri : Option String
  pub created : Option Time
  pub last_updated : Option Time

pub record ClientResponse : Type 0 where
  pub client_id : String
  pub client_name : Option String
  pub client_orgno : Option String
  pub supplier_orgno : Option String
  pub description : Option String
  pub active : Option Bool
  pub created : Option Time
  pub last_updated : Option Time
  pub application_type : Option String
  pub integration_type : Option String
  pub scopes : Slice
  pub grant_types : Slice
  pub token_endpoint_auth_method : Option String
  pub refresh_token_lifetime : Option ℤ
  pub refresh_token_usage : Option String
  pub access_token_lifetime : Option ℤ
  pub authorization_lifetime : Option ℤ
  pub on_behalf_of : Option (List ClientOnBehalfOf)
  pub client_secret : Option String
  pub jwks : Option Jwks
  pub jwks_uri : Option String
  pub logo_uri : Option String
  pub redirect_uris : Slice
  pub post_logout_redirect_uris : Slice
  pub frontchannel_logout_session_required : Option Bool
  pub frontchannel_logout_uri : Option String
  pub sso_disabled : Option Bool
  pub code_challenge_method : Option String
