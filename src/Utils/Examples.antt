-- ===== src/Utils/Examples.antt =====
-- The tool at concrete arguments: a command that lists the clients, and one that does not exist.
use altinn_k8s_operator.Base.{◌≡◌, ◌⊎◌, String, none, List, [], ◌∷◌, ok, err, message}
use altinn_k8s_operator.Crypto.Demo.{today, demo}
use altinn_k8s_operator.Crypto.Jwt.Examples.{demo_jose}
use altinn_k8s_operator.Config.{Config}
use altinn_k8s_operator.Config.Koanf.{KoanfCalls}
use altinn_k8s_operator.Config.KeyVault.{KeyVaultCalls}
use altinn_k8s_operator.Config.Demo.{files, validate}
use altinn_k8s_operator.Base.Exec.{pure}
use altinn_k8s_operator.Base.Int.{pos}
use altinn_k8s_operator.Maskinporten.Http.Demo.{
  Wire, demo_network, demo_codec, demo_config, answer_with,
}
use altinn_k8s_operator.Utils.{Terminal, ToolCalls}
use altinn_k8s_operator.Utils.Commands.{main}
use altinn_k8s_operator.Utils.Silent.Whole.{main-IsSilent}

abbrev tool : ToolCalls
tool = record {
  parse_flags = λ names args. ok [];
  marshal_clients = λ pretty clients. ok "[…]";
  marshal_jwk = λ pretty jwk. ok "{…}";
  parse_time = λ text. ok today;
  format_time = λ t. "2025-01-01T00:00:00Z";
  format_algorithm = λ algo. "SHA512-RSA";
  program = "utils";
  flag_usage = λ name. [];
  uuid = ok "1";
}

abbrev filled : Config
filled = record { maskinporten_api = demo_config; controller = record { requeue_after = pos 3600 } }

abbrev koanf : KoanfCalls
koanf = record { load = λ path held. ok held; unmarshal = λ held. ok filled }

abbrev vault : KeyVaultCalls Wire
vault = record {
  default_credential = pure tt;
  workload_credential = pure tt;
  new_client = λ url. pure tt;
  get_secret = λ name. pure none;
  parse_duration = λ text. err (message "invalid duration");
}

abbrev terminal : Terminal Wire
terminal = record {
  process = record {
    cwd = "operator" ∷ "src" ∷ [];
    loaded = [];
    world = record {
      sent = [];
      answers = answer_with 200 ∷ answer_with 200 ∷ answer_with 200 ∷ [];
    };
  };
  env = record { random = []; readings = 0 };
  output = [];
  diagnostics = [];
}

abbrev listed : List String
listed = "get" ∷ "clients" ∷ []

main-IsSilent_example :
    ((main tool files koanf vault validate demo_network demo_codec demo_jose demo listed terminal).0
      ≡ ok tt)
    ⊎ ((main tool files koanf vault validate demo_network demo_codec demo_jose demo listed
          terminal).1.output
        ≡ [])
main-IsSilent_example =
    main-IsSilent tool files koanf vault validate demo_network demo_codec demo_jose demo listed
      terminal

abbrev run : Terminal Wire
run =
    (main tool files koanf vault validate demo_network demo_codec demo_jose demo listed terminal).1
