-- ===== src/Config/KeyVault/Unfilled.antt =====
-- internal/config/azure_keyvault.go: the switches never match, so that nothing is stored.
use altinn_k8s_operator.Base.{
  ◌≡◌, refl, ◌∙◌, sym, ok_injective, String, Option, List, [], ◌∷◌, Result, ok,
}
use altinn_k8s_operator.Base.Exec.Ensures.{
  Ensures, Ensures-bind, Ensures-lift, Ensures-self, Ensures-weaken, Ensures-pure, Ensures-wrapping,
}
use altinn_k8s_operator.OperatorContext.{Context}
use altinn_k8s_operator.Config.{Config}
use altinn_k8s_operator.Config.KeyVault.{
  KeyVaultCalls, load_secrets, store_api_secret, store_controller_secret, load_from_azure_key_vault,
  empty_config, api_secret_keys, controller_secret_keys,
}

-- A switch that keeps every configuration for these keys.
abbrev Ignores : (String → Option String → Config → Result Config) → List String → Type 0
Ignores switch [] = Unit
Ignores switch (key ∷ keys) =
    ((value : Option String) (config : Config) → switch key value config ≡ ok config)
    × Ignores switch keys

api-Ignores : Ignores store_api_secret api_secret_keys
unfolding store_api_secret
api-Ignores = (λ v c. refl, (λ v c. refl, (λ v c. refl, (λ v c. refl, tt))))

module _ {W : Type 0} (calls : KeyVaultCalls W) where
  controller-Ignores : Ignores (store_controller_secret calls.parse_duration) controller_secret_keys
  unfolding store_controller_secret
  controller-Ignores = (λ v c. refl, tt)

  load_secrets-same :
      (section : String) (switch : String → Option String → Config → Result Config)
      (keys : List String) (config : Config) (w : W)
      → Ignores switch keys
      → Ensures (load_secrets calls section switch keys config) w (λ c w'. c ≡ config)
  unfolding load_secrets
  load_secrets-same section switch [] config w h = Ensures-pure config w _ refl
  load_secrets-same section switch (key ∷ keys) config w h =
      Ensures-bind _ _ w (Ensures-wrapping _ _ w (Ensures-self _ w)) λ value w₁ got.
        Ensures-bind _ _ w₁ (Ensures-lift _ w₁) λ stored w₂ (kept, at).
          Ensures-weaken _ w₂ (load_secrets-same section switch keys stored w₂ h.1)
            λ c w' same. same ∙ ok_injective (sym kept ∙ h.0 value config)

  -- What is loaded from the key vault is the empty configuration, whatever the vault holds.
  pub load_from_azure_key_vault-empty :
      (context : Context) (w : W)
      → Ensures (load_from_azure_key_vault calls context) w (λ c w'. c ≡ empty_config)
  unfolding load_from_azure_key_vault
  load_from_azure_key_vault-empty context w =
      Ensures-bind _ _ w (Ensures-wrapping _ _ w (Ensures-self _ w)) λ cred w₁ got.
        Ensures-bind _ _ w₁ (Ensures-wrapping _ _ w₁ (Ensures-self _ w₁)) λ client w₂ made.
          Ensures-bind _ _ w₂
            (load_secrets-same "MaskinportenApi" store_api_secret api_secret_keys empty_config w₂
              api-Ignores)
            λ config w₃ same.
              Ensures-weaken _ w₃
                (load_secrets-same "Controller" (store_controller_secret calls.parse_duration)
                  controller_secret_keys config w₃ controller-Ignores)
                λ c w' still. still ∙ same
