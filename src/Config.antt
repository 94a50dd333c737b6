-- ===== src/Config.antt =====
-- internal/config/config.go: the configuration; its sources are in the modules below.
pub mod ProjectRoot
pub mod Koanf
pub mod KeyVault
pub mod Load
pub mod Demo
pub mod Examples
use altinn_k8s_operator.Base.{String}
use altinn_k8s_operator.Time.{Duration}

pub record MaskinportenApiConfig : Type 0 where
  pub client_id : String
  pub authority_url : String
  pub self_service_url : String
  pub jwk : String
  pub scope : String

pub record ControllerConfig : Type 0 where
  pub requeue_after : Duration

pub record Config : Type 0 where
  pub maskinporten_api : MaskinportenApiConfig
  pub controller : ControllerConfig
