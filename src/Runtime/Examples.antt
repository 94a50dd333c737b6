-- ===== src/Runtime/Examples.antt =====
-- The runtime started in the development environment, with a configuration from a file.
use altinn_k8s_operator.Base.{◌*◌, false, ◌≡◌, refl, none, [], ◌∷◌, ok}
use altinn_k8s_operator.Base.Int.{pos}
use altinn_k8s_operator.Base.Exec.{◌>>=◌, wrapping}
use altinn_k8s_operator.Time.{minute}
use altinn_k8s_operator.Caching.{new_cached_atom}
use altinn_k8s_operator.Crypto.Algorithms.{signature_algorithm_from_x509}
use altinn_k8s_operator.Crypto.Types.{sha512_with_rsa}
use altinn_k8s_operator.Crypto.Jwt.Examples.{demo_jwk}
use altinn_k8s_operator.OperatorContext.{Context}
use altinn_k8s_operator.Config.{Config}
use altinn_k8s_operator.Config.Koanf.{Process, KoanfCalls}
use altinn_k8s_operator.Config.Demo.{files, vault, validate}
use altinn_k8s_operator.Maskinporten.ClientState.{get_client_name_prefix}
use altinn_k8s_operator.Maskinporten.Http.Demo.{demo_codec, demo_config}
use altinn_k8s_operator.Runtime.{Runtime, new_runtime}
use altinn_k8s_operator.Runtime.Consistent.{IsConsistent, new_runtime-IsConsistent}

abbrev filled : Config
filled = record { maskinporten_api = demo_config; controller = record { requeue_after = pos 3600 } }

abbrev koanf : KoanfCalls
koanf = record { load = λ path held. ok (("file", path) ∷ held); unmarshal = λ held. ok filled }

abbrev start : Process (Unit {0})
start = record { cwd = "operator" ∷ "src" ∷ []; loaded = []; world = tt }

abbrev context : Context
context = record {
  service_owner_name = "local";
  service_owner_org_no = "991825827";
  environment = "dev";
  run_id = "1";
}

abbrev demo_runtime : Runtime (Unit {0})
demo_runtime = record {
  config = filled;
  operator_context = context;
  crypto = record {
    ctx = context;
    signature_algo = "RS512";
    x509_signature_algo = sha512_with_rsa;
    key_size_bits = 4096;
  };
  maskinporten_api_client = record {
    config = demo_config;
    context = context;
    jwk = demo_jwk;
    hydrated = false;
    client_name_prefix = get_client_name_prefix context;
  };
  session = record {
    well_known = new_cached_atom (pos (5 * minute));
    access_token = new_cached_atom (pos (1 * minute));
    world = tt;
  };
}

run :
    (new_runtime files koanf vault validate demo_codec none (ok "1") "dev" start).0
    ≡ ok demo_runtime
unfolding new_runtime ◌>>=◌ wrapping signature_algorithm_from_x509
run = refl

abbrev after : Process (Unit {0})
after = (new_runtime files koanf vault validate demo_codec none (ok "1") "dev" start).1

new_runtime-IsConsistent_example : IsConsistent validate "dev" demo_runtime
new_runtime-IsConsistent_example =
    new_runtime-IsConsistent files koanf vault validate demo_codec none (ok "1") "dev" start after
      demo_runtime (λ i. (run i, after))
