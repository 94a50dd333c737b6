-- ===== src/Controller/Fetch.antt =====
-- loadInstance and fetchCurrentState of internal/controller/maskinportenclient_controller.go.
pub mod Fetched
pub mod Loaded
use altinn_k8s_operator.Base.{
  ℕ, String, ◌==◌, not, Bool, true, false, Option, none, some, List, [], ◌∷◌, Result, ok, err,
  message, formatted, Error, wrap, fail_if, is_some, if◌then◌else◌,
}
use altinn_k8s_operator.Base.Exec.{Exec, pure, lift, ◌>>=◌}
use altinn_k8s_operator.OperatorContext.{Context}
use altinn_k8s_operator.Time.{Time, is_zero}
use altinn_k8s_operator.Crd.{MaskinportenClient, Secret}
use altinn_k8s_operator.Crypto.Jwks.{Jwks}
use altinn_k8s_operator.Crypto.Service.{wrapped_exec}
use altinn_k8s_operator.Maskinporten.Dto.{ClientResponse}
use altinn_k8s_operator.Maskinporten.Secret.{SecretStateContent, deserialize_secret_state_content}
use altinn_k8s_operator.Maskinporten.ClientState.{ClientState, get_client_name, new_client_state}
use altinn_k8s_operator.Controller.{
  Services, Running, Request, RequestKind, request_create, request_update, request_delete, on_world,
  finalizer_name,
}
use altinn_k8s_operator.Controller.Status.{update_status}

-- A nil timestamp is zero.
abbrev pub is_zero_timestamp : Option Time → Bool
is_zero_timestamp none = true
is_zero_timestamp (some t) = is_zero t

module _ {W : Type 0} (services : Services W) where
  -- A new instance is recorded first.
  unfoldable pub kind_of : MaskinportenClient → Exec (Running W) (RequestKind × MaskinportenClient)
  kind_of found =
      if is_zero_timestamp found.deletion_timestamp
      then (if services.contains_finalizer finalizer_name found.finalizers
          then pure (request_update, found)
          else (do
            recorded ← update_status services (some request_create) found "recorded" "" none
            pure (request_create, recorded)))
      else pure (request_delete, found)

  unfoldable pub load_instance : Request → Exec (Running W) (RequestKind × MaskinportenClient)
  load_instance req = do
    found ← on_world (λ w.
        let (r, w') = services.get_instance req.namespace req.name w in
        (wrap "failed to get MaskinportenClient" r, w'))
    kind_of found

  -- No secret is allowed here, one of another type than Opaque or more than one are not.
  abbrev pub one_secret : List Secret → Result (Option Secret)
  one_secret [] = ok none
  one_secret (s ∷ []) =
      if s.secret_type == "Opaque"
      then ok (some s)
      else err (formatted "unexpected secret type" s.secret_type)
  one_secret (s ∷ t ∷ more) = err (message "unexpected number of secrets found")

  abbrev pub content_of : Option Secret → Result (Option SecretStateContent)
  content_of none = ok none
  content_of (some s) = deserialize_secret_state_content services.codec (some s)

  abbrev has_name : String → Option String → Bool
  has_name name none = false
  has_name name (some other) = other == name

  -- The first client of this name.
  unfoldable pub find_by_name : String → List ClientResponse → Option ClientResponse
  find_by_name name [] = none
  find_by_name name (c ∷ cs) = if has_name name c.client_name then some c else find_by_name name cs

  abbrev pub client_of : Option ClientResponse → Exec W (Option ClientResponse × Option Jwks)
  client_of none = pure (none, none)
  client_of (some c) = services.get_client c.client_id

  -- The client of the ID in the secret, or, without content, of the app's name.
  unfoldable pub find_client :
      Context → String → Option SecretStateContent → Exec W (Option ClientResponse × Option Jwks)
  find_client context app_id none = do
    clients ← services.get_all_clients
    client_of (find_by_name (get_client_name context app_id) clients)
  find_client context app_id (some content) =
      if content.client_id == "" then pure (none, none) else services.get_client content.client_id

  unfoldable pub fetch_current_state :
      Context → Request → MaskinportenClient → Exec (Running W) ClientState
  fetch_current_state context req found = do
    secrets ← on_world (services.list_secrets req.namespace req.app_label)
    secret ← lift (one_secret secrets)
    content ← lift (content_of secret)
    client ← on_world (find_client context req.app_id content)
    lift (new_client_state (some found) client.0 client.1 secret content)
