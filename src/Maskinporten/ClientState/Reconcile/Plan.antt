-- ===== src/Maskinporten/ClientState/Reconcile/Plan.antt =====
-- What a reconciliation is to do, said without pointers, calls or an order of evaluation: the
-- specification of ClientState.Reconcile.
use altinn_k8s_operator.Base.{
  ◌+◌, String, ◌≡◌, true, false, Option, none, some, List, [], ◌∷◌, ◌++◌, ok, ◌==◌, deep_equal,
  is_some, if◌then◌else◌,
}
use altinn_k8s_operator.Base.Int.{pos}
use altinn_k8s_operator.OperatorContext.{Context}
use altinn_k8s_operator.Config.{Config}
use altinn_k8s_operator.Time.{Time}
use altinn_k8s_operator.Crypto.Types.{External}
use altinn_k8s_operator.Crypto.Jwks.{Jwk, Jwks, to_public}
use altinn_k8s_operator.Crypto.Service.Certificates.{IsNewKey}
use altinn_k8s_operator.Crypto.Rotation.NewKey.{IsNotDue, IsRotation}
use altinn_k8s_operator.Maskinporten.Dto.{AddClientRequest}
use altinn_k8s_operator.Maskinporten.Secret.{SecretStateContent}
use altinn_k8s_operator.Maskinporten.ClientState.{ApiState, ClientState, build_api_req}
use altinn_k8s_operator.Maskinporten.ClientState.Describe.{
  Action, create, write, update, delete, clear,
}
use altinn_k8s_operator.Maskinporten.ClientState.Reconcile.{certificate_life, first_key}

-- A private set with one new key, and its public half.
pub record IsFreshPair (x : External) (deadline : Time) (private public : Jwks) : Type 0 where
  pub fresh : Option Jwk
  pub keys : private.keys ≡ fresh ∷ []
  pub new : IsNewKey deadline (pos 0) fresh
  pub half : to_public x (some private) ≡ ok public

-- The secret is cleared if it has content, and the client deleted if there is one.
abbrev pub removals : ClientState → List Action
removals s =
    (if is_some (s.secret).content then clear ∷ [] else [])
    ++ (elim s.api [ none ↦ [] | some a ↦ delete a.client_id ∷ [] ])

module _ (context : Context) (config : Config) (s : ClientState) where
  -- The secret for the client with this ID.
  abbrev pub output : String → Jwks → Option Jwk → SecretStateContent
  output id private jwk = record {
    client_id = id;
    authority = (config.maskinporten_api).authority_url;
    jwks = some private;
    jwk = jwk;
  }

  abbrev pub creations : Jwks → Jwks → Option Jwk → List Action
  creations private public jwk =
      create (record { client_id = ""; req = some (build_api_req context s); jwks = some public })
      ∷ write (output "" private jwk)
      ∷ []

  abbrev pub recoveries : String → Jwks → Jwks → Option Jwk → List Action
  recoveries id private public jwk =
      update (record { client_id = id; req = none; jwks = some public })
      ∷ write (output id private jwk)
      ∷ []

  -- New keys go into the secret, and then, as their public half, to the API.
  abbrev pub new_keys : String → Jwks → Jwks → Option Jwk → List Action
  new_keys id private public jwk =
      write (output id private jwk)
      ∷ update (record { client_id = id; req = none; jwks = some public })
      ∷ []

  -- The scopes of the resource go to the API if they are not the ones there.
  abbrev pub new_scopes : String → AddClientRequest → List Action
  new_scopes id req =
      if deep_equal ((s.crd).spec).scopes req.scopes
      then []
      else update (record { client_id = id; req = some (build_api_req context s); jwks = none })
        ∷ []

-- The actions that are due for a state at an instant, and the ones a moment later, where the
-- clock is read again.
pub data Plan (x : External) (context : Context) (config : Config) (s : ClientState)
    (now later : Time) (actions : List Action) : Type 0 where
  -- The resource is being deleted.
  removing :
      (t : Time)
      → (s.crd).deletion_timestamp ≡ some t
      → actions ≡ removals s
      → Plan x context config s now later actions
  -- There is no client.
  creating :
      (private public : Jwks)
      → (s.crd).deletion_timestamp ≡ none
      → s.api ≡ none
      → (pair : IsFreshPair x (now + certificate_life) private public)
      → actions ≡ creations context config s private public pair.fresh
      → Plan x context config s now later actions
  -- There is a client, and the secret is empty.
  recovering :
      (api : ApiState) (private public : Jwks)
      → (s.crd).deletion_timestamp ≡ none
      → s.api ≡ some api
      → (s.secret).content ≡ none
      → (pair : IsFreshPair x (now + certificate_life) private public)
      → actions ≡ recoveries context config s api.client_id private public pair.fresh
      → Plan x context config s now later actions
  -- There are both, and a key ends within a week.
  rotating :
      (api : ApiState) (content : SecretStateContent) (req : AddClientRequest)
      (private public old : Jwks)
      → (s.crd).deletion_timestamp ≡ none
      → s.api ≡ some api
      → (s.secret).content ≡ some content
      → api.req ≡ some req
      → content.jwks ≡ some old
      → (new : IsRotation (now + certificate_life) old later (some private))
      → to_public x (some private) ≡ ok public
      → actions
        ≡ new_keys context config s api.client_id private public new.fresh
          ++ new_scopes context config s api.client_id req
      → Plan x context config s now later actions
  -- There are both, and no key is due, but the authority is another one.
  moving :
      (api : ApiState) (content : SecretStateContent) (req : AddClientRequest) (old : Jwks)
      (jwk : Option Jwk)
      → (s.crd).deletion_timestamp ≡ none
      → s.api ≡ some api
      → (s.secret).content ≡ some content
      → api.req ≡ some req
      → content.jwks ≡ some old
      → IsNotDue old later
      → ((config.maskinporten_api).authority_url == content.authority) ≡ false
      → first_key old.keys ≡ ok jwk
      → actions
        ≡ write (output context config s api.client_id old jwk)
          ∷ new_scopes context config s api.client_id req
      → Plan x context config s now later actions
  -- There are both, no key is due, and the authority is the same.
  keeping :
      (api : ApiState) (content : SecretStateContent) (req : AddClientRequest) (old : Jwks)
      → (s.crd).deletion_timestamp ≡ none
      → s.api ≡ some api
      → (s.secret).content ≡ some content
      → api.req ≡ some req
      → content.jwks ≡ some old
      → IsNotDue old later
      → ((config.maskinporten_api).authority_url == content.authority) ≡ true
      → actions ≡ new_scopes context config s api.client_id req
      → Plan x context config s now later actions
