-- ===== src/Runtime.antt =====
-- internal/internal.go: the parts of the program, put together for one environment. The tracer and
-- the meter are left out, and the clock and the random reader are arguments of the calls that use
-- them.
pub mod Consistent
mod Examples
use altinn_k8s_operator.Base.{String, ◌==◌, Option, Result, Error, if◌then◌else◌}
use altinn_k8s_operator.Base.Exec.{Exec, pure, lift, ◌>>=◌}
use altinn_k8s_operator.OperatorContext.{Context, discover, override_environment}
use altinn_k8s_operator.Config.{Config}
use altinn_k8s_operator.Config.ProjectRoot.{FileSystem}
use altinn_k8s_operator.Config.Koanf.{Process, KoanfCalls}
use altinn_k8s_operator.Config.KeyVault.{KeyVaultCalls}
use altinn_k8s_operator.Config.Load.{config_source_default, get_config}
use altinn_k8s_operator.Crypto.Service.{CryptoService, new_default_service}
use altinn_k8s_operator.Maskinporten.Http.{ApiCodec, HttpApiClient, Session, new_http_api_client}

-- The runtime: the client comes with its caches.
pub record Runtime (W : Type 0) : Type 0 where
  pub config : Config
  pub operator_context : Context
  pub crypto : CryptoService
  pub maskinporten_api_client : HttpApiClient
  pub session : Session W

abbrev pub context_for : String → Context → Context
context_for env found = if env == "" then found else override_environment env found

abbrev pub client_for :
    {W : Type 0} → ApiCodec → Config → Context → Exec (Process W) (HttpApiClient × Session W)
client_for codec config context s =
    (new_http_api_client codec config.maskinporten_api context s.world, s)

module _ {W : Type 0} (fs : FileSystem) (koanf : KoanfCalls) (vault : KeyVaultCalls W)
    (validate : Config → Result (Unit {0})) (codec : ApiCodec) where
  unfoldable pub new_runtime : Option Error → Result String → String → Exec (Process W) (Runtime W)
  unfolding discover override_environment get_config new_default_service new_http_api_client
  new_runtime cancelled uuid env = do
    found ← lift (discover cancelled uuid)
    let context = context_for env found
    config ← get_config fs koanf vault validate context config_source_default ""
    crypto ← lift (new_default_service context)
    client ← client_for codec config context
    pure (record {
      config = config;
      operator_context = context;
      crypto = crypto;
      maskinporten_api_client = client.0;
      session = client.1;
    })
