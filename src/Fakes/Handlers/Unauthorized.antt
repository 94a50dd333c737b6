-- ===== src/Fakes/Handlers/Unauthorized.antt =====
-- selfServiceAuth of cmd/maskinporten_fakes/main.go guards every handler of the self-service API.
use altinn_k8s_operator.Base.{◌≡◌, String, true, Result, ok, ◌⊎◌}
use altinn_k8s_operator.Base.Exec.{Exec}
use altinn_k8s_operator.Crypto.Types.{External}
use altinn_k8s_operator.Crypto.Jwks.{Jwk}
use altinn_k8s_operator.Crypto.Jwt.{contains}
use altinn_k8s_operator.Maskinporten.Http.{HttpRequest}
use altinn_k8s_operator.Maskinporten.Http.Clients.{trim_prefix}
use altinn_k8s_operator.Fakes.State.{State, Stamps}
use altinn_k8s_operator.Fakes.Handlers.{
  Answer, only_status, FakeToken, WireCodec, header_get, values,
}
use altinn_k8s_operator.Fakes.Handlers.Clients.{
  handle_clients, handle_client_by_id, handle_client_jwks,
}

-- The requests of the self-service API, by their path.
pub data Endpoint : Type 0 where
  clients : Endpoint
  client_by_id : String → Endpoint
  client_jwks : String → Endpoint

module _ (wire : WireCodec) (stamps : Stamps) (read_jwk : String → Result Jwk) (x : External) where
  abbrev pub serve : Endpoint → HttpRequest → Exec State Answer
  serve clients req = handle_clients wire stamps read_jwk x req
  serve (client_by_id id) req = handle_client_by_id wire stamps read_jwk x id req
  serve (client_jwks id) req = handle_client_jwks wire stamps read_jwk x id req

-- The header holds a token, in base64, that has the scope of an administrator.
pub record IsGranted (wire : WireCodec) (req : HttpRequest) : Type 0 where
  pub text : String
  pub decoded :
      wire.base64_decode (trim_prefix (header_get "Authorization" req) "Bearer ") ≡ ok text
  pub token : FakeToken
  pub read : wire.unmarshal_token text ≡ ok token
  pub is_admin : contains (values token.scopes) "idporten:dcr.altinn" ≡ true

module _ (wire : WireCodec) (req : HttpRequest) where
  -- The request is refused with 401 and changes nothing, or its token is granted.
  abbrev pub IsGuarded : State → Result Answer × State → Type 0
  IsGuarded s out = (out ≡ (ok (only_status 401), s)) ⊎ IsGranted wire req
