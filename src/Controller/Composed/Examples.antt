-- ===== src/Controller/Composed/Examples.antt =====
-- A reconciliation, on a cluster with a secret, and on the
-- network of the client's examples.
use altinn_k8s_operator.Base.{none, ◌≡◌, true, false, [], ◌∷◌}
use altinn_k8s_operator.Base.Exec.{pure}
use altinn_k8s_operator.Base.Int.{pos}
use altinn_k8s_operator.Crypto.Demo.{today, demo, demo_context, demo_service}
use altinn_k8s_operator.Crypto.Jwt.Examples.{demo_jose}
use altinn_k8s_operator.Maskinporten.DemoState.{config, crd, store}
use altinn_k8s_operator.Maskinporten.Http.{Session}
use altinn_k8s_operator.Maskinporten.Http.Demo.{
  Wire, demo_network, demo_codec, demo_client, demo-Retries, demo-IsInvariant, AllAllowed,
  answer_with, session_with,
}
use altinn_k8s_operator.Controller.{Running}
use altinn_k8s_operator.Controller.Loop.{reconcile_request}
use altinn_k8s_operator.Controller.Requeue.{Randomness}
use altinn_k8s_operator.Controller.Composed.{Cluster, services}
use altinn_k8s_operator.Controller.Composed.Allowed.{IsApart, reconcile_request-allowed}
use altinn_k8s_operator.Controller.Examples.{filled}
use altinn_k8s_operator.Maskinporten.SecretExamples.{codec}

abbrev demo_cluster : Cluster Wire
demo_cluster = record {
  get_instance = λ namespace name. pure (crd none);
  list_secrets = λ namespace label. pure (filled ∷ []);
  update_secret = λ secret. pure tt;
  update_instance = λ found. pure tt;
  update_instance_status = λ found. pure tt;
  is_not_found = λ e. false;
  contains_finalizer = λ name names. true;
  add_finalizer = λ name names. (true, name ∷ names);
  remove_finalizer = λ name names. (true, []);
  wall_clock = pure today;
}

abbrev random : Randomness Wire
random = record { ten_percent = λ d. pos 0; int64_n = λ bound. pure (pos 0) }

demo-IsApart : IsApart demo_cluster random (AllAllowed demo_client)
demo-IsApart = record {
  get_instance = λ namespace name w i. i;
  list_secrets = λ namespace label w i. i;
  update_secret = λ secret w i. i;
  update_instance = λ found w i. i;
  update_instance_status = λ found w i. i;
  wall_clock = λ w i. i;
  int64_n = λ bound w i. i;
}

abbrev starting : Running (Session Wire)
starting = record {
  store = store;
  world = session_with (
      answer_with 200 ∷ answer_with 200 ∷ answer_with 503 ∷ answer_with 200 ∷ answer_with 200 ∷ []);
}

abbrev ending : Running (Session Wire)
ending =
    (reconcile_request
      (services demo_cluster random codec demo_network demo_codec demo_jose demo config demo_client)
      demo demo_service demo_context config "default" "local-testapp" starting).1

reconcile_request-allowed_example : AllAllowed demo_client ending.world.world
reconcile_request-allowed_example =
    reconcile_request-allowed demo_cluster random codec demo_network demo_codec demo_jose demo
      config demo_client ◌≡◌ (AllAllowed demo_client) demo-Retries (demo-IsInvariant demo_client)
      demo-IsApart demo_service demo_context "default" "local-testapp" starting tt
