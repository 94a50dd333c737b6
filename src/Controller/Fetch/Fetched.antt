-- ===== src/Controller/Fetch/Fetched.antt =====
-- What a state that was fetched has been read from.
use altinn_k8s_operator.Base.{◌≡◌, Option, some, List, [], ◌∷◌, ok}
use altinn_k8s_operator.Base.Exec.Ensures.{Ensures}
use altinn_k8s_operator.OperatorContext.{Context}
use altinn_k8s_operator.Crd.{MaskinportenClient, Secret}
use altinn_k8s_operator.Crypto.Jwks.{Jwks}
use altinn_k8s_operator.Maskinporten.Dto.{ClientResponse}
use altinn_k8s_operator.Maskinporten.Secret.{SecretStateContent, deserialize_secret_state_content}
use altinn_k8s_operator.Maskinporten.ClientState.{ClientState}
use altinn_k8s_operator.Maskinporten.ClientState.Hydrated.{IsHydrated}
use altinn_k8s_operator.Controller.{Services, Request}
use altinn_k8s_operator.Controller.Fetch.{find_client}

-- There is one secret for the app, and it has the type Opaque.
abbrev pub IsOnly : List Secret → Secret → Type 0
IsOnly secrets s = (secrets ≡ s ∷ []) × (s.secret_type ≡ "Opaque")

module _ {W : Type 0} (services : Services W) where
  -- The one secret, its content and the client that a state was built from.
  pub record IsFetched (context : Context) (req : Request) (found : MaskinportenClient)
      (before after : W) (current : ClientState) : Type 0 where
    pub secrets : List Secret
    pub listed : W
    pub content : Option SecretStateContent
    pub api : Option ClientResponse
    pub jwks : Option Jwks
    pub list : services.list_secrets req.namespace req.app_label before ≡ (ok secrets, listed)
    pub only : IsOnly secrets (current.secret).manifest
    pub read :
        deserialize_secret_state_content services.codec (some (current.secret).manifest)
        ≡ ok content
    pub asked : find_client services context req.app_id content listed ≡ (ok (api, jwks), after)
    pub hydrated : IsHydrated found api jwks (some (current.secret).manifest) content current
