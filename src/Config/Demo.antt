-- ===== src/Config/Demo.antt =====
-- Concrete directories, a key vault in which every secret is set, and a validator.
use altinn_k8s_operator.Base.{
  String, ◌==◌, true, false, some, List, [], ◌∷◌, Result, ok, message, fail_if, if◌then◌else◌,
}
use altinn_k8s_operator.Base.Exec.{pure}
use altinn_k8s_operator.Base.Int.{pos}
use altinn_k8s_operator.Config.{Config}
use altinn_k8s_operator.Config.ProjectRoot.{Directory, FileSystem}
use altinn_k8s_operator.Config.Koanf.{Process}
use altinn_k8s_operator.Config.KeyVault.{KeyVaultCalls}

abbrev project_in : Directory → Result (List String)
project_in [] = ok []
project_in (name ∷ above) = if name == "operator" then ok ("go.mod" ∷ []) else ok []

abbrev pub files : FileSystem
files = record {
  glob = λ dir pattern. project_in dir;
  getwd = λ dir. ok "/src/operator";
  may_enter = λ dir. true;
  exists = λ dir path. true;
  is_abs = λ path. false;
  join = λ dir path. path;
}

abbrev pub vault : KeyVaultCalls (Unit {0})
vault = record {
  default_credential = pure tt;
  workload_credential = pure tt;
  new_client = λ url. pure tt;
  get_secret = λ name. pure (some "a value");
  parse_duration = λ text. ok (pos 3600);
}

-- The validator, as far as it looks at the client ID.
abbrev pub validate : Config → Result (Unit {0})
validate cfg = fail_if (cfg.maskinporten_api.client_id == "") (message "required")

abbrev pub start : Process (Unit {0})
start = record { cwd = []; loaded = []; world = tt }
