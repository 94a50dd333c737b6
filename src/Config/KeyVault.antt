-- ===== src/Config/KeyVault.antt =====
-- internal/config/azure_keyvault.go: the configuration from the key vault. The Azure SDK and the
-- parser of durations are parameters.
pub mod Unfilled
use altinn_k8s_operator.Base.{
  String, ◌<>◌, ◌==◌, Bool, true, false, Option, none, some, List, [], ◌∷◌, Result, ok, err, crash,
  wrap, if◌then◌else◌,
}
use altinn_k8s_operator.Base.Exec.{Exec, pure, lift, ◌>>=◌, wrapping}
use altinn_k8s_operator.Base.Int.{pos}
use altinn_k8s_operator.OperatorContext.{Context, is_local}
use altinn_k8s_operator.Time.{Duration}
use altinn_k8s_operator.Crypto.Jwks.{nil_pointer}
use altinn_k8s_operator.Config.{MaskinportenApiConfig, ControllerConfig, Config}

pub record KeyVaultCalls (W : Type 0) : Type 0 where
  -- azidentity: the default credential or the one of the workload, and azsecrets.NewClient
  pub default_credential : Exec W (Unit {0})
  pub workload_credential : Exec W (Unit {0})
  pub new_client : String → Exec W (Unit {0})
  -- client.GetSecret: the pointer to the value
  pub get_secret : String → Exec W (Option String)
  -- time.ParseDuration
  pub parse_duration : String → Result Duration

abbrev pub value_of : Option String → Result String
value_of none = nil_pointer
value_of (some value) = ok value

abbrev store_text : Option String → (String → Config) → Result Config
store_text none with_text = nil_pointer
store_text (some value) with_text = ok (with_text value)

-- The switch in loadMaskinportenApiFromAzureKeyVault.
unfoldable pub store_api_secret : String → Option String → Config → Result Config
store_api_secret key value config =
    let api = config.maskinporten_api in
    if key == "MaskinportenApi.ClientId"
    then store_text value (λ v. record config { maskinporten_api = record api { client_id = v } })
    else if key == "MaskinportenApi.AuthorityUrl"
    then store_text value
        (λ v. record config { maskinporten_api = record api { authority_url = v } })
    else if key == "MaskinportenApi.Jwk"
    then store_text value (λ v. record config { maskinporten_api = record api { jwk = v } })
    else if key == "MaskinportenApi.Scope"
    then store_text value (λ v. record config { maskinporten_api = record api { scope = v } })
    else ok config

module _ (parse_duration : String → Result Duration) where
  abbrev with_delay : Config → Result Duration → Result Config
  with_delay config (ok d) = ok (record config { controller = record { requeue_after = d } })
  with_delay config (err e) = err e
  with_delay config (crash m) = crash m

  abbrev parsed_delay : Config → Option String → Result Config
  parsed_delay config none = nil_pointer
  parsed_delay config (some text) = with_delay config (parse_duration text)

  -- The switch in loadControllerFromAzureKeyVault.
  unfoldable pub store_controller_secret : String → Option String → Config → Result Config
  store_controller_secret key value config =
      if key == "Controller.RequeueAfter" then parsed_delay config value else ok config

abbrev pub api_secret_keys : List String
api_secret_keys = "ClientId" ∷ "Url" ∷ "Jwk" ∷ "Scope" ∷ []

abbrev pub controller_secret_keys : List String
controller_secret_keys = "RequeueAfter" ∷ []

-- The zero value of the struct.
abbrev pub empty_config : Config
empty_config = record {
  maskinporten_api = record {
    client_id = "";
    authority_url = "";
    self_service_url = "";
    jwk = "";
    scope = "";
  };
  controller = record { requeue_after = pos 0 };
}

module _ {W : Type 0} (calls : KeyVaultCalls W) where
  -- The loop over the keys of one part, with its switch.
  unfoldable pub load_secrets :
      String
      → (String → Option String → Config → Result Config)
      → List String
      → Config
      → Exec W Config
  load_secrets section switch [] config = pure config
  load_secrets section switch (key ∷ keys) config = do
    value ← wrapping ("error getting secret: " <> key) (calls.get_secret (section <> ("." <> key)))
    stored ← lift (switch key value config)
    load_secrets section switch keys stored

  unfoldable pub load_maskinporten_api : Config → Exec W Config
  unfolding load_secrets store_api_secret
  load_maskinporten_api = load_secrets "MaskinportenApi" store_api_secret api_secret_keys

  unfoldable pub load_controller : Config → Exec W Config
  unfolding load_secrets store_controller_secret
  load_controller =
      load_secrets "Controller" (store_controller_secret calls.parse_duration)
        controller_secret_keys

  abbrev credential : Bool → Exec W (Unit {0})
  credential true = calls.default_credential
  credential false = calls.workload_credential

  unfoldable pub load_from_azure_key_vault : Context → Exec W Config
  unfolding load_maskinporten_api load_controller is_local
  load_from_azure_key_vault context = do
    cred ← wrapping "error getting credentials for loading config" (credential (is_local context))
    client ← wrapping "error building client for Azure KV" (
        calls.new_client
          ("https://altinn-" <> (context.environment <> "-operator-kv.vault.azure.net")))
    config ← load_maskinporten_api empty_config
    load_controller config
