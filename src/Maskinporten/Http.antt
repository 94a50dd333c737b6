-- ===== src/Maskinporten/Http.antt =====
-- internal/maskinporten/http_api_client.go: the client for the authority and the self-service API.
-- Requests and responses are the values of net/http as far as the program uses them. The network,
-- the clock, the generator of IDs, the backoff and the JSON encodings are parameters. Traces and
-- the closing of bodies are left out.
pub mod Send
pub mod Tokens
pub mod Clients
pub mod Retry
pub mod Upload
pub mod Listing
pub mod Requests
pub mod Demo
mod Examples
use altinn_k8s_operator.Base.{
  ℕ, ◌*◌, String, Bool, false, Option, none, some, List, [], ◌∷◌, ◌++◌, Result, ok, ◌>>=◌,
}
use altinn_k8s_operator.Base.Exec.{Exec}
use altinn_k8s_operator.Base.Int.{ℤ, pos}
use altinn_k8s_operator.Base.Map.{Map, lookup, insert}
use altinn_k8s_operator.OperatorContext.{Context}
use altinn_k8s_operator.Config.{MaskinportenApiConfig}
use altinn_k8s_operator.Time.{Time, Duration, minute}
use altinn_k8s_operator.Caching.{CachedAtom, new_cached_atom}
use altinn_k8s_operator.Crypto.Jwks.{Jwk, Jwks, nil_pointer}
use altinn_k8s_operator.Maskinporten.Dto.{AddClientRequest, UpdateClientRequest, ClientResponse}
use altinn_k8s_operator.Maskinporten.ClientState.{get_client_name_prefix}

-- http.Request: the body is what its reader still holds, and `none` without a reader.
pub record HttpRequest : Type 0 where
  pub method : String
  pub url : String
  pub headers : Map (List String)
  pub body : Option String

pub record HttpResponse : Type 0 where
  pub status_code : ℕ
  pub status : String
  pub body : String

-- req.Header.Set and req.Header.Add
unfoldable pub set_header : String → String → HttpRequest → HttpRequest
set_header name value req = record req { headers = insert name (value ∷ []) req.headers }

abbrev pub values_or_none : Option (List String) → List String
values_or_none none = []
values_or_none (some values) = values

unfoldable pub add_header : String → String → HttpRequest → HttpRequest
add_header name value req = record req {
  headers = insert name (values_or_none (lookup name req.headers) ++ (value ∷ [])) req.headers;
}

pub record WellKnownResponse : Type 0 where
  pub issuer : String
  pub token_endpoint : String
  pub jwks_uri : String
  pub token_endpoint_auth_methods_supported : Option (List String)
  pub grant_types_supported : Option (List String)
  pub token_endpoint_auth_signing_alg_values_supported : Option (List String)

pub record TokenResponse : Type 0 where
  pub access_token : String
  pub token_type : String
  pub expires_in : ℤ
  pub scope : String

-- backoff.ExponentialBackOff, the fields that the program sets.
pub record ExponentialBackOff : Type 0 where
  pub initial_interval : Duration
  pub max_interval : Duration
  pub max_elapsed_time : Duration

-- The variables of retryableHTTPDo that its operation shares, and the world.
pub record Attempt (W : Type 0) : Type 0 where
  pub request : HttpRequest
  pub response : Option HttpResponse
  pub world : W

pub record Network (W : Type 0) : Type 0 where
  -- clock.Now and uuid.New
  pub now : Exec W Time
  pub new_id : Exec W String
  -- url.JoinPath, url.Values.Encode, and the checks of http.NewRequest on method and URL
  pub join_path : String → List String → Result String
  pub encode_values : List (String × String) → String
  pub check_request : String → String → Result (Unit {0})
  -- client.Do: the result, what the reader of the body still holds, and the world
  pub send : HttpRequest → W → Result HttpResponse × Option String × W
  -- io.ReadAll of the body of a response
  pub read_all : HttpResponse → Result String
  -- backoff.NewExponentialBackOff and backoff.Retry
  pub new_exponential_back_off : ExponentialBackOff
  pub retry : ExponentialBackOff → Exec (Attempt W) (Unit {0}) → Exec (Attempt W) (Unit {0})

-- encoding/json for the types of the API: decoders read the body of a response.
pub record ApiCodec : Type 0 where
  pub read_jwk : String → Result Jwk
  pub read_well_known : HttpResponse → Result WellKnownResponse
  pub read_token : HttpResponse → Result TokenResponse
  pub read_client : HttpResponse → Result ClientResponse
  pub read_clients : HttpResponse → Result (Option (List ClientResponse))
  pub read_jwks : HttpResponse → Result Jwks
  pub write_add_request : Option AddClientRequest → Result String
  pub write_update_request : UpdateClientRequest → Result String
  pub write_jwks : Jwks → Result String

-- The fields of the client that do not change.
pub record HttpApiClient : Type 0 where
  pub config : MaskinportenApiConfig
  pub context : Context
  pub jwk : Jwk
  pub hydrated : Bool
  pub client_name_prefix : String

-- The two caches of the client, and the world.
pub record Session (W : Type 0) : Type 0 where
  pub well_known : CachedAtom WellKnownResponse
  pub access_token : CachedAtom TokenResponse
  pub world : W

module _ {W : Type 0} where
  unfoldable pub new_http_api_client :
      ApiCodec → MaskinportenApiConfig → Context → W → Result (HttpApiClient × Session W)
  unfolding new_cached_atom
  new_http_api_client codec config context w = do
    jwk ← codec.read_jwk config.jwk
    ok (
      record {
        config = config;
        context = context;
        jwk = jwk;
        hydrated = false;
        client_name_prefix = get_client_name_prefix context;
      },
      record {
        well_known = new_cached_atom (pos (5 * minute));
        access_token = new_cached_atom (pos (1 * minute));
        world = w;
      },
    )

module _ {W A : Type 0} where
  unfoldable pub on_network : Exec W A → Exec (Session W) A
  on_network m s = let (r, w) = m s.world in (r, record s { world = w })

-- *p
abbrev pub pointer : {A : Type 0} → Option A → Result A
pointer none = nil_pointer
pointer (some a) = ok a
