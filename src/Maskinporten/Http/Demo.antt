-- ===== src/Maskinporten/Http/Demo.antt =====
-- A network with scripted answers, which writes down the requests that it is given, for concrete
-- runs of the client. It meets what is assumed of the backoff.
use altinn_k8s_operator.Base.{
  ℕ, ◌*◌, zero, suc, ◌≡◌, refl, String, ◌<>◌, false, Option, none, some, List, [], ◌∷◌, Result, ok,
  err, crash, message, All,
}
use mathlib.Core.Path.{subst}
use altinn_k8s_operator.Base.Exec.{Exec}
use altinn_k8s_operator.Base.Int.{pos}
use altinn_k8s_operator.Crypto.Demo.{today, demo_context}
use altinn_k8s_operator.Crypto.Jwt.Examples.{demo_jwk}
use altinn_k8s_operator.Caching.{CachedAtom}
use altinn_k8s_operator.Config.{MaskinportenApiConfig}
use altinn_k8s_operator.Time.{minute}
use altinn_k8s_operator.Maskinporten.Dto.{ClientResponse}
use altinn_k8s_operator.Maskinporten.Http.{
  HttpRequest, HttpResponse, Attempt, Network, ApiCodec, HttpApiClient, Session,
}
use altinn_k8s_operator.Maskinporten.Http.Retry.{Runs, succeeds, gives_up, panics, again, Retries}
use altinn_k8s_operator.Maskinporten.Http.Requests.{IsAllowed, IsInvariant}

pub record Wire : Type 0 where
  pub sent : List HttpRequest
  pub answers : List (Result HttpResponse)

abbrev drained : Option String → Option String
drained none = none
drained (some text) = some ""

abbrev answered :
    HttpRequest
    → List HttpRequest
    → List (Result HttpResponse)
    → Result HttpResponse × Option String × Wire
answered req sent [] = (
  err (message "connection refused"),
  drained req.body,
  record { sent = req ∷ sent; answers = [] },
)
answered req sent (answer ∷ answers) =
    (answer, drained req.body, record { sent = req ∷ sent; answers = answers })

abbrev retried :
    Exec (Attempt Wire) (Unit {0})
    → Result (Unit {0}) × Attempt Wire
    → Result (Unit {0}) × Attempt Wire
retried next (ok done, s) = (ok done, s)
retried next (err e, s) = next s
retried next (crash m, s) = (crash m, s)

-- At most so many further attempts, without a wait.
abbrev attempts : ℕ → Exec (Attempt Wire) (Unit {0}) → Exec (Attempt Wire) (Unit {0})
attempts zero op s = op s
attempts (suc k) op s = retried (attempts k op) (op s)

abbrev join : List String → String
join [] = ""
join (part ∷ parts) = part <> join parts

abbrev pub demo_network : Network Wire
demo_network = record {
  now = λ w. (ok today, w);
  new_id = λ w. (ok "5e1f", w);
  join_path = λ base parts. ok (base <> join parts);
  encode_values = λ values. "grant";
  check_request = λ method url. ok tt;
  send = λ req w. answered req w.sent w.answers;
  read_all = λ resp. ok resp.body;
  new_exponential_back_off = record {
    initial_interval = pos 0;
    max_interval = pos 0;
    max_elapsed_time = pos 0;
  };
  retry = λ b op s. attempts 2 op s;
}

module _ (op : Exec (Attempt Wire) (Unit {0})) where
  last-Runs :
      (s : Attempt Wire) (p : Result (Unit {0}) × Attempt Wire) → op s ≡ p → Runs ◌≡◌ op s p.0 p.1
  last-Runs s (ok done, s') e = succeeds e
  last-Runs s (err x, s') e = gives_up e
  last-Runs s (crash m, s') e = panics e

  retried-Runs :
      (s : Attempt Wire) (next : Exec (Attempt Wire) (Unit {0}))
      (p : Result (Unit {0}) × Attempt Wire)
      → op s ≡ p
      → ((t : Attempt Wire) → Runs ◌≡◌ op t (next t).0 (next t).1)
      → Runs ◌≡◌ op s (retried next p).0 (retried next p).1
  retried-Runs s next (ok done, s') e rest = succeeds e
  retried-Runs s next (err x, s') e rest = again s'.world e refl (rest s')
  retried-Runs s next (crash m, s') e rest = panics e

  attempts-Runs : (k : ℕ) (s : Attempt Wire) → Runs ◌≡◌ op s (attempts k op s).0 (attempts k op s).1
  attempts-Runs zero s = last-Runs s (op s) refl
  attempts-Runs (suc k) s = retried-Runs s (attempts k op) (op s) refl (attempts-Runs k)

pub demo-Retries : Retries ◌≡◌ demo_network
demo-Retries = record { runs = λ b op s. attempts-Runs op 2 s }

answered_drains :
    (req : HttpRequest) (sent : List HttpRequest) (answers : List (Result HttpResponse))
    (text : String)
    → req.body ≡ some text
    → (answered req sent answers).1 ≡ some ""
answered_drains req sent [] text e = rw e refl
answered_drains req sent (answer ∷ answers) text e = rw e refl

pub demo_network_drains :
    (req : HttpRequest) (w : Wire) (text : String)
    → req.body ≡ some text
    → (demo_network.send req w).1 ≡ some ""
demo_network_drains req w text e = answered_drains req w.sent w.answers text e

-- Every request that was sent is allowed.
abbrev pub AllAllowed : HttpApiClient → Wire → Type 0
AllAllowed c w = All (λ req. IsAllowed demo_network c req.url req.headers) w.sent

sent_one :
    (c : HttpApiClient) (req : HttpRequest) (sent : List HttpRequest)
    (answers : List (Result HttpResponse))
    → IsAllowed demo_network c req.url req.headers
    → All (λ q. IsAllowed demo_network c q.url q.headers) sent
    → AllAllowed c (answered req sent answers).2
sent_one c req sent [] allowed h = (allowed, h)
sent_one c req sent (answer ∷ answers) allowed h = (allowed, h)

pub demo-IsInvariant : (c : HttpApiClient) → IsInvariant demo_network c ◌≡◌ (AllAllowed c)
demo-IsInvariant c = record {
  reads_clock = λ w i. i;
  makes_id = λ w i. i;
  waits = λ w w' e i. subst (AllAllowed c) e i;
  sends = λ req w allowed i. sent_one c req w.sent w.answers allowed i;
}

abbrev pub demo_config : MaskinportenApiConfig
demo_config = record {
  client_id = "operator";
  authority_url = "https://maskinporten.dev";
  self_service_url = "https://api";
  jwk = "{}";
  scope = "altinn:maskinporten";
}

abbrev pub client_named : String → ClientResponse
client_named name = record {
  client_id = "c-1";
  client_name = some name;
  client_orgno = none;
  supplier_orgno = none;
  description = none;
  active = none;
  created = none;
  last_updated = none;
  application_type = none;
  integration_type = none;
  scopes = none;
  grant_types = none;
  token_endpoint_auth_method = none;
  refresh_token_lifetime = none;
  refresh_token_usage = none;
  access_token_lifetime = none;
  authorization_lifetime = none;
  on_behalf_of = none;
  client_secret = none;
  jwks = none;
  jwks_uri = none;
  logo_uri = none;
  redirect_uris = none;
  post_logout_redirect_uris = none;
  frontchannel_logout_session_required = none;
  frontchannel_logout_uri = none;
  sso_disabled = none;
  code_challenge_method = none;
}

abbrev pub own_client : ClientResponse
own_client = client_named "altinnoperator-local-local-testapp"

abbrev pub foreign_client : ClientResponse
foreign_client = client_named "someone-else"

abbrev pub demo_codec : ApiCodec
demo_codec = record {
  read_jwk = λ text. ok demo_jwk;
  read_well_known = λ resp. ok (record {
    issuer = "https://maskinporten.dev/";
    token_endpoint = "";
    jwks_uri = "";
    token_endpoint_auth_methods_supported = none;
    grant_types_supported = none;
    token_endpoint_auth_signing_alg_values_supported = none;
  });
  read_token = λ resp. ok (record {
    access_token = "at";
    token_type = "Bearer";
    expires_in = pos 120;
    scope = "altinn:maskinporten";
  });
  read_client = λ resp. ok own_client;
  read_clients = λ resp. ok (some (foreign_client ∷ own_client ∷ []));
  read_jwks = λ resp. ok (record { keys = [] });
  write_add_request = λ req. ok "{client}";
  write_update_request = λ req. ok "{client}";
  write_jwks = λ jwks. ok "{jwks}";
}

abbrev pub demo_client : HttpApiClient
demo_client = record {
  config = demo_config;
  context = demo_context;
  jwk = demo_jwk;
  hydrated = false;
  client_name_prefix = "altinnoperator-local-local-";
}

abbrev pub answer_with : ℕ → Result HttpResponse
answer_with code = ok (record { status_code = code; status = ""; body = "{}" })

abbrev empty_atom : {T : Type 0} → CachedAtom T
empty_atom = record { current = none; current_fetched_at = 0; expire_after = pos (5 * minute) }

abbrev pub session_with : List (Result HttpResponse) → Session Wire
session_with answers = record {
  well_known = empty_atom;
  access_token = record { current = none; current_fetched_at = 0; expire_after = pos (1 * minute) };
  world = record { sent = []; answers = answers };
}
