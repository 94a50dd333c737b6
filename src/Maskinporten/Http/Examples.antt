-- ===== src/Maskinporten/Http/Examples.antt =====
-- The HTTP client at concrete data: an authority that is briefly unavailable, and a set of keys.
use altinn_k8s_operator.Base.{arith, ◌≡◌, ◌≢◌, refl, true, some, none, [], ◌∷◌, ok, inl}
use altinn_k8s_operator.Base.Exec.{◌>>=◌, wrapping}
use altinn_k8s_operator.Base.Map.{lookup, insert}
use altinn_k8s_operator.Base.Text.Split.{strip?}
use altinn_k8s_operator.Time.{sub}
use altinn_k8s_operator.Caching.{read_section, write_section}
use altinn_k8s_operator.Crypto.Demo.{demo}
use altinn_k8s_operator.Crypto.Jwks.{Jwks, is_public}
use altinn_k8s_operator.Crypto.Jwt.{contains, sign, public_claims}
use altinn_k8s_operator.Crypto.Jwt.NewJwt.{new_jwt}
use altinn_k8s_operator.Crypto.Jwt.Examples.{demo_jose, demo_jwk}
use altinn_k8s_operator.Maskinporten.DemoState.{public_key}
use altinn_k8s_operator.Maskinporten.ClientState.{get_client_name_prefix}
use altinn_k8s_operator.Maskinporten.Http.{HttpRequest, Session, add_header, set_header, on_network}
use altinn_k8s_operator.Maskinporten.Http.Send.{
  run_id_header, operation, retryable_http_do, expect, handle_error_response,
}
use altinn_k8s_operator.Maskinporten.Http.Tokens.{
  new_request, refill, found_or_refill, get_atom, well_known_fetcher, get_well_known_configuration,
  create_grant, access_token_fetcher, get_access_token, create_req,
}
use altinn_k8s_operator.Maskinporten.Http.Clients.{
  create_client_jwks, create_client, get_all_clients, own_clients, has_client_name, trim_prefix,
}
use altinn_k8s_operator.Maskinporten.Http.Demo.{
  Wire, demo_network, demo_codec, demo_client, demo-Retries, answer_with, session_with, own_client,
}
use altinn_k8s_operator.Maskinporten.Http.Retry.{IsAnswered, retryable_http_do-IsAnswered}
use altinn_k8s_operator.Maskinporten.Http.Retry.First.{retryable_http_do-first}
use altinn_k8s_operator.Maskinporten.Http.Upload.{IsRefused, create_client_jwks-IsRefused}
use altinn_k8s_operator.Maskinporten.Http.Listing.{Listed, get_all_clients-IsListed}

abbrev demo_keys : Jwks
demo_keys = record { keys = public_key "key-0" 77 ∷ [] }

abbrev before : Session Wire
before =
    session_with
      (answer_with 503 ∷ answer_with 200 ∷ answer_with 200 ∷ answer_with 200 ∷ answer_with 201 ∷ [])

abbrev private_keys : Jwks
private_keys = record { keys = some demo_jwk ∷ [] }

private_key : is_public demo (some demo_jwk) ≢ ok true
private_key e = absurd (let stuck = e in cc)

abbrev listing : Session Wire
listing = session_with (answer_with 200 ∷ answer_with 200 ∷ answer_with 200 ∷ [])

abbrev after_creation : Session Wire
after_creation =
    (create_client demo_network demo_codec demo_jose demo demo_client none (some demo_keys)
      before).1

create_client_jwks-IsRefused_example : IsRefused before (
    create_client_jwks demo_network demo_codec demo_jose demo demo_client "c-1"
      (some private_keys)
      before)
create_client_jwks-IsRefused_example =
    create_client_jwks-IsRefused demo_network demo_codec demo_jose demo demo_client "c-1"
      private_keys (some demo_jwk) before (inl refl) private_key

list_run :
    (get_all_clients demo_network demo_codec demo_jose demo demo_client listing).0
    ≡ ok (own_client ∷ [])
unfolding get_all_clients own_clients has_client_name trim_prefix strip? create_req get_access_token
    access_token_fetcher create_grant get_well_known_configuration well_known_fetcher get_atom
    found_or_refill refill new_request expect handle_error_response retryable_http_do operation
    add_header set_header on_network lookup insert read_section write_section sub new_jwt sign
    public_claims contains ◌>>=◌ wrapping
list_run = refl

abbrev after_listing : Session Wire
after_listing = (get_all_clients demo_network demo_codec demo_jose demo demo_client listing).1

own_prefix : demo_client.client_name_prefix ≡ get_client_name_prefix demo_client.context
unfolding get_client_name_prefix
own_prefix = refl

get_all_clients-IsListed_example :
    Listed demo_network demo_codec demo_jose demo demo_client listing
      (own_client ∷ [])
      after_listing
get_all_clients-IsListed_example =
    get_all_clients-IsListed demo_network demo_codec demo_jose demo demo_client listing
      after_listing (own_client ∷ []) own_prefix (λ i. (list_run i, after_listing))

-- A request with a body, while the server fails once.
abbrev posted : HttpRequest
posted = record { method = "POST"; url = "https://api"; headers = []; body = some "{}" }

abbrev failing_once : Wire
failing_once = record { sent = []; answers = answer_with 503 ∷ answer_with 200 ∷ [] }

posted_run :
    (retryable_http_do demo_network demo_client posted failing_once).0
    ≡ ok (some (record { status_code = 200; status = ""; body = "{}" }))
unfolding retryable_http_do operation
posted_run = refl

abbrev after_post : Wire
after_post = (retryable_http_do demo_network demo_client posted failing_once).1

retryable_http_do-IsAnswered_example :
    IsAnswered demo_network "POST" "https://api"
      (add_header run_id_header "1" posted).headers
      (some (record { status_code = 200; status = ""; body = "{}" }))
      after_post
retryable_http_do-IsAnswered_example =
    retryable_http_do-IsAnswered ◌≡◌ demo_network demo-Retries demo_client posted failing_once
      (some (record { status_code = 200; status = ""; body = "{}" })) after_post
      (λ i. (posted_run i, after_post))

abbrev answering : Wire
answering = record { sent = []; answers = answer_with 200 ∷ answer_with 200 ∷ [] }

abbrev after_answer : Wire
after_answer = record {
  sent = add_header run_id_header "1" posted ∷ [];
  answers = answer_with 200 ∷ [];
}

retryable_http_do-first_example :
    retryable_http_do demo_network demo_client posted answering
    ≡ (ok (some (record { status_code = 200; status = ""; body = "{}" })), after_answer)
unfolding add_header
retryable_http_do-first_example =
    retryable_http_do-first demo_network ◌≡◌ demo-Retries demo_client posted answering
      (record { status_code = 200; status = ""; body = "{}" }) (some "") after_answer refl
      (omega arith)
