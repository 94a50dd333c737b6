-- ===== src/Runtime/Consistent.antt =====
-- NewRuntime of internal/internal.go: which environments it starts in, and what its parts share.
use altinn_k8s_operator.Base.{
  ◌≡◌, refl, ap, sym, ◌⊎◌, inl, inr, String, ◌==◌, eq_iff, Bool, true, false, Bool-cases, Option,
  none, some, Result, ok, err, crash, Error, >>=-eq-ok, ok_injective, if◌then◌else◌,
}
use altinn_k8s_operator.Base.Exec.{Exec, lift}
use altinn_k8s_operator.Base.Exec.Ensures.{
  Ensures, Ensures-bind, Ensures-lift, Ensures-pure, Ensures-self, Ensures-weaken,
}
use altinn_k8s_operator.OperatorContext.{
  Context, discover, override_environment, environment_local, environment_dev,
}
use altinn_k8s_operator.Config.{Config, MaskinportenApiConfig}
use altinn_k8s_operator.Config.ProjectRoot.{FileSystem}
use altinn_k8s_operator.Config.Koanf.{Process, KoanfCalls}
use altinn_k8s_operator.Config.KeyVault.{KeyVaultCalls}
use altinn_k8s_operator.Config.Load.{config_source_default, load_from_source, get_config}
use altinn_k8s_operator.Crypto.Service.{new_default_service}
use altinn_k8s_operator.Maskinporten.ClientState.{get_client_name_prefix}
use altinn_k8s_operator.Maskinporten.Http.{ApiCodec, HttpApiClient, Session, new_http_api_client}
use altinn_k8s_operator.Runtime.{Runtime, context_for, new_runtime}

-- The environment is one of the two that have a configuration.
abbrev pub HasSource : Context → Type 0
HasSource c = (c.environment ≡ environment_local) ⊎ (c.environment ≡ environment_dev)

module _ {W : Type 0} (validate : Config → Result (Unit {0})) where
  pub record IsConsistent (env : String) (rt : Runtime W) : Type 0 where
    pub started : HasSource rt.operator_context
    pub environment :
        rt.operator_context.environment ≡ (if env == "" then environment_local else env)
    pub valid : validate rt.config ≡ ok tt
    pub crypto : new_default_service rt.operator_context ≡ ok rt.crypto
    pub client_config : rt.maskinporten_api_client.config ≡ rt.config.maskinporten_api
    pub client_context : rt.maskinporten_api_client.context ≡ rt.operator_context
    pub client_prefix :
        rt.maskinporten_api_client.client_name_prefix ≡ get_client_name_prefix rt.operator_context

module _ {W : Type 0} (fs : FileSystem) (koanf : KoanfCalls) (vault : KeyVaultCalls W)
    (validate : Config → Result (Unit {0})) (codec : ApiCodec) where
  -- A choice that leads to an error when neither test holds.
  chosen :
      {A : Type 0} (b c : Bool) (m n : Exec (Process W) A) (x : Error) (s : Process W)
      → Ensures (if b then m else if c then n else lift (err x)) s (λ a s'. (b ≡ true) ⊎ (c ≡ true))
  chosen true c m n x s = record { returns = λ a s' e. inl refl }
  chosen false true m n x s = record { returns = λ a s' e. inr refl }
  chosen false false m n x s = record { returns = λ a s' e. absurd (let stuck = e in cc) }

  source-HasSource :
      (context : Context) (s : Process W)
      → Ensures
          (load_from_source fs koanf vault validate context config_source_default "")
          s
          (λ cfg s'. HasSource context)
  unfolding load_from_source
  source-HasSource context s = Ensures-weaken _ s (chosen _ _ _ _ _ s) λ cfg s' found. elim found [
    | inl local ↦ inl ((eq_iff context.environment "local").0 local)
    | inr dev ↦ inr ((eq_iff context.environment "dev").0 dev)
  ]

  config-IsValid :
      (context : Context) (s : Process W)
      → Ensures
          (get_config fs koanf vault validate context config_source_default "")
          s
          (λ cfg s'. HasSource context × (validate cfg ≡ ok tt))
  unfolding get_config
  config-IsValid context s = Ensures-bind _ _ s (source-HasSource context s) λ cfg s₁ source.
      Ensures-bind _ _ s₁ (Ensures-lift _ s₁)
        λ valid s₂ (passed, same). Ensures-pure cfg s₂ _ (source, passed)

  discovered :
      (cancelled : Option Error) (uuid : Result String) (found : Context)
      → discover cancelled uuid ≡ ok found
      → found.environment ≡ environment_local
  unfolding discover
  discovered (some x) uuid found e = absurd (let stuck = e in cc)
  discovered none (err x) found e = absurd (let stuck = e in cc)
  discovered none (crash m) found e = absurd (let stuck = e in cc)
  discovered none (ok id) found e = sym (ap (λ c. c.environment) (ok_injective e))

  -- The fields of a client that NewHttpApiClient returns.
  abbrev HasFields : MaskinportenApiConfig → Context → HttpApiClient → Type 0
  HasFields config context c =
      (c.config ≡ config)
      × (c.context ≡ context)
      × (c.client_name_prefix ≡ get_client_name_prefix context)

  new_http_api_client-HasFields :
      (config : MaskinportenApiConfig) (context : Context) (w : W)
      (made : HttpApiClient × Session W)
      → new_http_api_client codec config context w ≡ ok made
      → HasFields config context made.0
  unfolding new_http_api_client
  new_http_api_client-HasFields config context w made e =
      let (jwk, read, same) = >>=-eq-ok (codec.read_jwk config.jwk) _ e in
      let fields = ok_injective same in
      (
        sym (ap (λ m. m.0.config) fields),
        sym (ap (λ m. m.0.context) fields),
        sym (ap (λ m. m.0.client_name_prefix) fields),
      )

  context_for-environment :
      (env : String) (found : Context)
      → found.environment ≡ environment_local
      → (context_for env found).environment ≡ (if env == "" then environment_local else env)
  unfolding override_environment
  context_for-environment env found local = elim (Bool-cases (env == "")) [
    | inl empty ↦ rw empty local
    | inr given ↦ rw given refl
  ]

  -- A runtime that NewRuntime returns was started in one of the two environments that have a source
  -- of their configuration, and in the one that was asked for, if one was. Its configuration is
  -- valid, and its crypto service and its API client are those of this configuration and of the
  -- context that the runtime holds.
  pub new_runtime-IsConsistent :
      (cancelled : Option Error) (uuid : Result String) (env : String) (s s' : Process W)
      (rt : Runtime W)
      → new_runtime fs koanf vault validate codec cancelled uuid env s ≡ (ok rt, s')
      → IsConsistent validate env rt
  unfolding new_runtime
  new_runtime-IsConsistent cancelled uuid env s s' rt e =
      (Ensures-bind _ _ s {Q = λ rt s'. IsConsistent validate env rt}
          (Ensures-lift (discover cancelled uuid) s)
          λ found s₁ (local, same₁).
            Ensures-bind _ _ s₁ (config-IsValid (context_for env found) s₁)
              λ cfg s₂ (source, valid).
                Ensures-bind _ _ s₂ (Ensures-lift _ s₂) λ crypto s₃ (made, same₃).
                  Ensures-bind _ _ s₃ (Ensures-self _ s₃) λ client s₄ built. Ensures-pure _ s₄ _ (
                    let (same_config, same_context, same_prefix) =
                      new_http_api_client-HasFields cfg.maskinporten_api (context_for env found)
                        s₃.world client (ap (λ p. p.0) built) in
                    record {
                      started = source;
                      environment =
                          context_for-environment env found (discovered cancelled uuid found local);
                      valid = valid;
                      crypto = made;
                      client_config = same_config;
                      client_context = same_context;
                      client_prefix = same_prefix;
                    })).returns
        rt s' e
