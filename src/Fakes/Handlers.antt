-- ===== src/Fakes/Handlers.antt =====
-- cmd/maskinporten_fakes/main.go: what the handlers of the fake APIs share. An answer is the status
-- with the text of the body; logs are left out.
pub mod Clients
pub mod Token
pub mod Unauthorized
pub mod Isolated
pub mod Put
mod Examples
use altinn_k8s_operator.Base.{
  ℕ, String, ◌==◌, Option, none, some, List, [], ◌∷◌, Result, ok, err, crash, if◌then◌else◌,
}
use altinn_k8s_operator.Base.Exec.{Exec, pure, lift, ◌>>=◌}
use altinn_k8s_operator.Base.Map.{Map, lookup}
use altinn_k8s_operator.Crypto.Jwks.{Jwks}
use altinn_k8s_operator.Crypto.Jwt.{contains}
use altinn_k8s_operator.Maskinporten.Dto.{AddClientRequest, UpdateClientRequest, ClientResponse}
use altinn_k8s_operator.Maskinporten.Http.{HttpRequest, WellKnownResponse, TokenResponse}
use altinn_k8s_operator.Maskinporten.Http.Clients.{trim_prefix}
use altinn_k8s_operator.Fakes.Db.{ClientRecord}
use altinn_k8s_operator.Fakes.State.{State, get_all}

pub record FakeToken : Type 0 where
  pub scopes : Option (List String)
  pub client_id : String

pub record Answer : Type 0 where
  pub status : ℕ
  pub body : String

-- What the handlers encode as JSON.
pub data Content : Type 0 where
  one_client : ClientResponse → Content
  many_clients : List ClientResponse → Content
  key_set : Option Jwks → Content
  all_records : Map (List ClientRecord) → Content
  token_response : TokenResponse → Content
  well_known : WellKnownResponse → Content

-- encoding/json, encoding/base64, the query of a URL, strings.Fields and strings.Join
pub record WireCodec : Type 0 where
  pub encode : Content → Result String
  pub marshal_token : FakeToken → Result String
  pub unmarshal_token : String → Result FakeToken
  pub base64_encode : String → String
  pub base64_decode : String → Result String
  pub read_add_request : Option String → Result AddClientRequest
  pub read_update_request : Option String → Result UpdateClientRequest
  pub read_jwks : Option String → Result Jwks
  pub query_get : String → String → String
  pub fields : String → List String
  pub join : List String → String

abbrev pub first_or_empty : Option (List String) → String
first_or_empty (some (value ∷ values)) = value
first_or_empty _ = ""

-- r.Header.Get
unfoldable pub header_get : String → HttpRequest → String
header_get name req = first_or_empty (lookup name req.headers)

abbrev pub run_id_of : HttpRequest → String
run_id_of req = header_get "X-Altinn-Operator-RunId" req

abbrev pub values : Option (List String) → List String
values none = []
values (some vs) = vs

abbrev pub only_status : ℕ → Answer
only_status code = record { status = code; body = "" }

-- The encoded content; if it cannot be encoded, the status that the handler comes to.
abbrev pub reply : ℕ → Result String → Result Answer
reply failed (ok text) = ok (record { status = 200; body = text })
reply failed (err e) = ok (only_status failed)
reply failed (crash m) = crash m

abbrev pub granted : Result FakeToken → Option FakeToken
granted (ok token) =
    if contains (values token.scopes) "idporten:dcr.altinn" then some token else none
granted _ = none

module _ (wire : WireCodec) where
  abbrev pub token_of_text : Result String → Option FakeToken
  token_of_text (ok decoded) = granted (wire.unmarshal_token decoded)
  token_of_text _ = none

  abbrev pub token_of : String → Option FakeToken
  token_of encoded = if encoded == "" then none else token_of_text (wire.base64_decode encoded)

  unfoldable pub self_service_auth : HttpRequest → Option FakeToken
  unfolding header_get trim_prefix contains
  self_service_auth req =
      if header_get "Authorization" req == ""
      then none
      else token_of (trim_prefix (header_get "Authorization" req) "Bearer ")

  -- A case of a handler: 401 without a token.
  abbrev pub with_token : Option FakeToken → Exec State Answer → Exec State Answer
  with_token none rest = pure (only_status 401)
  with_token (some token) rest = rest

  unfoldable pub handle_dump_please : Exec State Answer
  unfolding get_all
  handle_dump_please s = (reply 500 (wire.encode (all_records (get_all s))), s)

unfoldable pub health_endpoint : Answer
health_endpoint = only_status 200
