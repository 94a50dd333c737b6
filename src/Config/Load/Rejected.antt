-- ===== src/Config/Load/Rejected.antt =====
-- GetConfig of internal/config/config.go with the key vault as its source.
use altinn_k8s_operator.Base.{◌≡◌, ◌≢◌, ap, String, Result, ok}
use altinn_k8s_operator.Base.Exec.{Exec}
use altinn_k8s_operator.Base.Exec.Ensures.{Ensures, Ensures-bind, Ensures-lift}
use altinn_k8s_operator.OperatorContext.{Context}
use altinn_k8s_operator.Config.{Config}
use altinn_k8s_operator.Config.ProjectRoot.{FileSystem}
use altinn_k8s_operator.Config.Koanf.{Process, KoanfCalls}
use altinn_k8s_operator.Config.KeyVault.{KeyVaultCalls, empty_config}
use altinn_k8s_operator.Config.KeyVault.Unfilled.{load_from_azure_key_vault-empty}
use altinn_k8s_operator.Config.Load.{
  config_source_azure_key_vault, on_vault, load_from_source, get_config,
}

-- What the tag `required` of the validator means for the client ID.
abbrev pub RequiresClientId : (Config → Result (Unit {0})) → Type 0
RequiresClientId validate =
    (cfg : Config) → validate cfg ≡ ok tt → cfg.maskinporten_api.client_id ≢ ""

module _ {W A : Type 0} where
  Ensures-on_vault :
      (m : Exec W A) (s : Process W) (Q : A → Type 0)
      → Ensures m s.world (λ a w. Q a)
      → Ensures (on_vault m) s (λ a s'. Q a)
  unfolding on_vault
  Ensures-on_vault m s Q h = record {
    returns = λ a s' e. h.returns a (m s.world).1 (λ i. ((e i).0, (m s.world).1));
  }

module _ {W : Type 0} (fs : FileSystem) (koanf : KoanfCalls) (vault : KeyVaultCalls W)
    (validate : Config → Result (Unit {0})) where
  -- If the validator requires a client ID, GetConfig with the key vault as its source never returns
  -- a configuration, whatever the key vault holds.
  pub get_config-rejected :
      (context : Context) (path : String) (s s' : Process W) (cfg : Config)
      → RequiresClientId validate
      → get_config fs koanf vault validate context config_source_azure_key_vault path s
        ≢ (ok cfg, s')
  unfolding get_config load_from_source
  get_config-rejected context path s s' cfg required e =
      (Ensures-bind _ _ s {Q = λ c s₂. ⊥}
          (Ensures-on_vault _ s (λ c. c ≡ empty_config)
            (load_from_azure_key_vault-empty vault context s.world))
          λ c s₁ empty. Ensures-bind _ _ s₁ (Ensures-lift _ s₁) λ valid s₂ (passed, same).
            absurd (required c passed (ap (λ d. d.maskinporten_api.client_id) empty))).returns
        cfg s' e
