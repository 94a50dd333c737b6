-- ===== src/Config/Load.antt =====
-- GetConfig and GetConfigOrDie of internal/config/config.go. The validator is a parameter.
pub mod Rejected
use altinn_k8s_operator.Base.{
  String, ◌==◌, Bool, true, false, Option, none, some, Result, ok, err, crash, Error, formatted,
  if◌then◌else◌,
}
use altinn_k8s_operator.Base.Exec.{Exec, pure, lift, ◌>>=◌}
use altinn_k8s_operator.Base.Int.{ℤ}
use altinn_k8s_operator.Base.Text.Decimal.{format_int}
use altinn_k8s_operator.OperatorContext.{Context, environment_local, environment_dev}
use altinn_k8s_operator.Config.{Config}
use altinn_k8s_operator.Config.ProjectRoot.{FileSystem}
use altinn_k8s_operator.Config.Koanf.{Process, KoanfCalls, load_from_koanf}
use altinn_k8s_operator.Config.KeyVault.{KeyVaultCalls, load_from_azure_key_vault}

-- ConfigSource, with its other integers.
pub data ConfigSource : Type 0 where
  config_source_default config_source_koanf config_source_azure_key_vault : ConfigSource
  other_source : ℤ → ConfigSource

module _ {W A : Type 0} where
  unfoldable pub on_vault : Exec W A → Exec (Process W) A
  on_vault m s = let (r, w) = m s.world in (r, record s { world = w })

module _ {W : Type 0} (fs : FileSystem) (koanf : KoanfCalls) (vault : KeyVaultCalls W)
    (validate : Config → Result (Unit {0})) where
  unfoldable pub load_from_source : Context → ConfigSource → String → Exec (Process W) Config
  unfolding on_vault load_from_koanf load_from_azure_key_vault format_int
  load_from_source context config_source_koanf path = load_from_koanf fs koanf context path
  load_from_source context config_source_azure_key_vault path =
      on_vault (load_from_azure_key_vault vault context)
  load_from_source context config_source_default path =
      if context.environment == environment_local
      then load_from_koanf fs koanf context path
      else if context.environment == environment_dev
      then load_from_koanf fs koanf context path
      else lift
          (err (formatted "could not resolve default config source for env" context.environment))
  load_from_source context (other_source n) path =
      lift (err (formatted "invalid config source" (format_int n)))

  unfoldable pub get_config : Context → ConfigSource → String → Exec (Process W) Config
  unfolding load_from_source
  get_config context source path = do
    cfg ← load_from_source context source path
    valid ← lift (validate cfg)
    pure cfg

  abbrev pub or_panic : Result Config → Result Config
  or_panic (ok cfg) = ok cfg
  or_panic (err e) = crash "panic"
  or_panic (crash m) = crash m

  unfoldable pub get_config_or_die : Context → ConfigSource → String → Exec (Process W) Config
  unfolding get_config
  get_config_or_die context source path s =
      let (r, s') = get_config context source path s in (or_panic r, s')
