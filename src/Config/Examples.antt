-- ===== src/Config/Examples.antt =====
-- The configuration at concrete data: a key vault in which every secret is set, and directories with
-- and without a project.
use altinn_k8s_operator.Base.{
  ◌≡◌, ◌≢◌, refl, String, ◌==◌, none, [], ◌∷◌, ok, fail_if, arith, eq_iff, Error,
}
use altinn_k8s_operator.OperatorContext.{Context}
use altinn_k8s_operator.Config.ProjectRoot.{try_find_project_root}
use altinn_k8s_operator.Config.ProjectRoot.Nearest.{nearest}
use altinn_k8s_operator.Config.Koanf.{KoanfCalls}
use altinn_k8s_operator.Config.KeyVault.{empty_config}
use altinn_k8s_operator.Config.Demo.{files, vault, validate, start}
use altinn_k8s_operator.Config.Load.{get_config, config_source_azure_key_vault}
use altinn_k8s_operator.Config.Load.Rejected.{get_config-rejected}

-- Without a project, no number of turns is enough.
endless : nearest files ("data" ∷ []) ≡ none
unfolding try_find_project_root
endless = refl

abbrev context : Context
context = record {
  service_owner_name = "ttd";
  service_owner_org_no = "991825827";
  environment = "tt02";
  run_id = "1";
}

abbrev koanf : KoanfCalls
koanf = record { load = λ path held. ok held; unmarshal = λ held. ok empty_config }

id_required : (id : String) (e : Error) → fail_if (id == "") e ≡ ok tt → id ≢ ""
id_required id e h same = ground (arith, eq_iff id "")

get_config-rejected_example :
    get_config files koanf vault validate context config_source_azure_key_vault "" start
    ≢ (ok empty_config, start)
get_config-rejected_example =
    get_config-rejected files koanf vault validate context "" start start empty_config
      (λ cfg e. id_required cfg.maskinporten_api.client_id _ e)
