-- ===== src/Maskinporten/ClientState/Reconcile.antt =====
-- ClientState.Reconcile of internal/maskinporten/client_state.go: from the current state to the
-- commands that lead to the desired one.
pub mod Plan
pub mod Fresh
pub mod Parts
pub mod Maintenance
pub mod Refinement
pub mod Settled
pub mod Callback
use altinn_k8s_operator.Base.{
  ℕ, ◌+◌, ◌*◌, String, Bool, true, false, not, ◌||◌, Option, none, some, List, [], ◌∷◌, ◌++◌, Slice,
  deep_equal, Result, ok, crash, is_some, ◌==◌, if◌then◌else◌,
}
use altinn_k8s_operator.Base.Exec.{Exec, pure, lift, ◌>>=◌}
use altinn_k8s_operator.OperatorContext.{Context}
use altinn_k8s_operator.Config.{Config}
use altinn_k8s_operator.Time.{Time, hour}
use altinn_k8s_operator.Crypto.Types.{Env, External}
use altinn_k8s_operator.Crypto.Jwks.{Jwk, Jwks, nil_pointer, to_public}
use altinn_k8s_operator.Crypto.Service.{CryptoService, now, create_jwks}
use altinn_k8s_operator.Crypto.Rotation.{rotate_if_needed}
use altinn_k8s_operator.Maskinporten.Dto.{AddClientRequest}
use altinn_k8s_operator.Maskinporten.Secret.{SecretStateContent}
use altinn_k8s_operator.Maskinporten.ClientState.{ApiState, ClientState, build_api_req}
use altinn_k8s_operator.Maskinporten.ClientState.Commands.{
  CommandData, Command, CommandList, Store, create_client_in_api, update_secret_content,
  update_client_in_api, delete_client_in_api, delete_secret_content, on_env, new_api, new_content,
  set_client_id,
}

abbrev pub plain : CommandData → Command
plain d = record { action = d; callback = none }

-- jwks.Keys[0]
unfoldable pub first_key : List (Option Jwk) → Result (Option Jwk)
first_key [] = crash "index out of range"
first_key (k ∷ _) = ok k

-- The resource is being deleted: what there is, is to be removed.
unfoldable pub deletion : ClientState → CommandList
deletion s =
    (elim (s.secret).content [ none ↦ [] | some c ↦ plain delete_secret_content ∷ [] ])
    ++ (elim s.api [ none ↦ [] | some a ↦ plain (delete_client_in_api a.client_id) ∷ [] ])

abbrev pub certificate_life : ℕ
certificate_life = 24 * 30 * hour

-- getNotAfter
unfoldable pub get_not_after : External → Exec Env Time
get_not_after x = do t ← now x; pure (t + certificate_life)

-- A new set of keys, and its public half.
unfoldable pub fresh_jwks : External → CryptoService → ClientState → Exec Env (Jwks × Jwks)
fresh_jwks x crypto s = do
  not_after ← get_not_after x
  jwks ← create_jwks x crypto s.app_id not_after
  public_jwks ← lift (to_public x (some jwks))
  pure (jwks, public_jwks)

-- The scopes of the resource are other ones than the API has.
abbrev pub scopes_differ : ClientState → Option AddClientRequest → Result Bool
scopes_differ s none = nil_pointer
scopes_differ s (some req) = ok (not (deep_equal ((s.crd).spec).scopes req.scopes))

module _ (x : External) (crypto : CryptoService) (context : Context) (config : Config) where
  abbrev authority : String
  authority = (config.maskinporten_api).authority_url

  -- There is no client in the API: create everything, and overwrite a secret that there may be.
  unfoldable pub creation : ClientState → Exec Store CommandList
  creation s = do
    made ← on_env (fresh_jwks x crypto s)
    p ←
        new_api
          (record { client_id = ""; req = some (build_api_req context s); jwks = some made.1 })
    jwk ← lift (first_key (made.0).keys)
    q ←
        new_content
          (record { client_id = ""; authority = authority; jwks = some made.0; jwk = jwk })
    pure (
        record { action = create_client_in_api p; callback = some (set_client_id p q) }
        ∷ plain (update_secret_content q)
        ∷ [])

  -- There is a client, and the secret has no content: the private keys are lost.
  unfoldable pub recovery : ClientState → ApiState → Exec Store CommandList
  recovery s api = do
    made ← on_env (fresh_jwks x crypto s)
    p ← new_api (record { client_id = api.client_id; req = none; jwks = some made.1 })
    jwk ← lift (first_key (made.0).keys)
    q ←
        new_content (record {
          client_id = api.client_id;
          authority = authority;
          jwks = some made.0;
          jwk = jwk;
        })
    pure (plain (update_client_in_api p) ∷ plain (update_secret_content q) ∷ [])

  -- The secret is rewritten if the authority changed, with the present keys, or if there are new keys.
  unfoldable pub update_secret :
      ApiState → SecretStateContent → Option Jwks → Exec Store CommandList
  update_secret api content none = if authority == content.authority then pure [] else (do
    jwks ← lift (elim content.jwks [ none ↦ nil_pointer | some j ↦ ok j ])
    jwk ← lift (first_key jwks.keys)
    q ←
        new_content
          (record { client_id = api.client_id; authority = authority; jwks = some jwks; jwk = jwk })
    pure (plain (update_secret_content q) ∷ []))
  update_secret api content (some jwks) = do
    jwk ← lift (first_key jwks.keys)
    q ←
        new_content
          (record { client_id = api.client_id; authority = authority; jwks = some jwks; jwk = jwk })
    pure (plain (update_secret_content q) ∷ [])

  -- New keys are uploaded.
  unfoldable pub update_jwks : ApiState → Option Jwks → Exec Store CommandList
  update_jwks api none = pure []
  update_jwks api (some jwks) = do
    public_jwks ← lift (to_public x (some jwks))
    p ← new_api (record { client_id = api.client_id; req = none; jwks = some public_jwks })
    pure (plain (update_client_in_api p) ∷ [])

  -- Changed scopes are uploaded.
  unfoldable pub update_scopes : ClientState → ApiState → Bool → Exec Store CommandList
  update_scopes s api false = pure []
  update_scopes s api true = do
    p ←
        new_api
          (record { client_id = api.client_id; req = some (build_api_req context s); jwks = none })
    pure (plain (update_client_in_api p) ∷ [])

  -- There are a client and a secret with content.
  unfoldable pub maintenance : ClientState → ApiState → SecretStateContent → Exec Store CommandList
  maintenance s api content = do
    scopes_changed ← lift (scopes_differ s api.req)
    rotated ←
        on_env (do
          not_after ← get_not_after x
          rotate_if_needed x crypto s.app_id not_after content.jwks)
    secret_commands ← update_secret api content rotated
    jwks_commands ← update_jwks api rotated
    scope_commands ← update_scopes s api scopes_changed
    pure (secret_commands ++ (jwks_commands ++ scope_commands))

  abbrev existing : ClientState → ApiState → Option SecretStateContent → Exec Store CommandList
  existing s api none = recovery s api
  existing s api (some content) = maintenance s api content

  abbrev by_api : ClientState → Option ApiState → Exec Store CommandList
  by_api s none = creation s
  by_api s (some api) = existing s api (s.secret).content

  abbrev by_deletion : ClientState → Option Time → Exec Store CommandList
  by_deletion s (some t) = pure (deletion s)
  by_deletion s none = by_api s s.api

  unfoldable pub reconcile : ClientState → Exec Store CommandList
  reconcile s = by_deletion s (s.crd).deletion_timestamp
