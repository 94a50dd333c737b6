-- ===== src/Controller/Examples.antt =====
-- The controller on a cluster and an API that only keep a log of the calls.
use altinn_k8s_operator.Base.{
  ◌*◌, ◌≡◌, refl, String, true, false, none, some, List, [], ◌∷◌, ◌++◌, ok, err, message,
}
use altinn_k8s_operator.Base.Exec.{Exec, lift, ◌>>=◌}
use altinn_k8s_operator.Base.Int.{pos}
use altinn_k8s_operator.Base.Text.Split.{split_on}
use altinn_k8s_operator.Time.{hour}
use altinn_k8s_operator.Crd.{Secret}
use altinn_k8s_operator.Crypto.Demo.{today, demo, demo_context, demo_service}
use altinn_k8s_operator.Maskinporten.Secret.{json_file_name, Codec, serialize_to}
use altinn_k8s_operator.Base.Map.{insert}
use altinn_k8s_operator.Maskinporten.SecretExamples.{codec, codec-Decodes, content}
use altinn_k8s_operator.Maskinporten.DemoState.{config, crd, manifest, state, store}
use altinn_k8s_operator.Maskinporten.Examples.{response}
use altinn_k8s_operator.Maskinporten.Dto.Convert.{map_client_response_to_add_request}
use altinn_k8s_operator.Maskinporten.ClientState.{ClientState, app_id_of, new_client_state}
use altinn_k8s_operator.Maskinporten.ClientState.Hydrated.{IsHydrated, new_client_state-IsHydrated}
use altinn_k8s_operator.Maskinporten.ClientState.Commands.{
  CommandList, update_secret_content, delete_client_in_api, read_content,
}
use altinn_k8s_operator.Maskinporten.ClientState.Reconcile.{plain}
use altinn_k8s_operator.Controller.{Services, Running, Request, request_delete, on_store, on_world}
use altinn_k8s_operator.Controller.Execute.{execute, execute_all}
use altinn_k8s_operator.Controller.Execute.Prefix.{IsPrefix, execute_all-IsPrefix}
use altinn_k8s_operator.Controller.Execute.Written.{IsWritten, execute-IsWritten}
use altinn_k8s_operator.Controller.Loop.{apply_state}
use altinn_k8s_operator.Controller.Loop.Idle.{apply_state-idle}

abbrev pub Log : Type 0
Log = List String

abbrev pub logged : {A : Type 0} → String → A → Exec Log A
logged call a log = (ok a, log ++ (call ∷ []))

abbrev pub filled : Secret
filled = record manifest { contents = some ((json_file_name, 1 ∷ []) ∷ []) }

abbrev pub services_for : Codec → Services Log
services_for codec = record {
  get_instance = λ namespace name. logged "get" (crd none);
  list_secrets = λ namespace label. logged "list" (filled ∷ []);
  update_secret = λ s. logged "update secret" tt;
  update_instance = λ i. logged "update" tt;
  update_instance_status = λ i. logged "update status" tt;
  is_not_found = λ e. false;
  contains_finalizer = λ f fs. true;
  add_finalizer = λ f fs. (true, fs ++ (f ∷ []));
  remove_finalizer = λ f fs. (true, []);
  get_client = λ id. logged "get client" (some response, none);
  get_all_clients = logged "get all clients" (response ∷ []);
  create_client = λ req jwks. logged "create client" response;
  update_client = λ id req. logged "update client" response;
  create_client_jwks = λ id jwks. logged "create jwks" tt;
  delete_client = λ id. lift (err (message "unavailable"));
  wall_clock = logged "now" today;
  requeue_after = logged "requeue" (pos (12 * hour));
  codec = codec;
}

abbrev pub services : Services Log
services = services_for codec

abbrev pub running : Running Log
running = record {
  store = record store { heap = record { apis = []; contents = content ∷ [] } };
  world = [];
}

abbrev pub commands : CommandList
commands = plain (update_secret_content 0) ∷ plain (delete_client_in_api "3f9a") ∷ []

abbrev pub wrote : Running Log
wrote = record running { world = "update secret" ∷ [] }

write_run :
    execute services manifest (plain (update_secret_content 0)) (update_secret_content 0) running
    ≡ (ok tt, wrote)
unfolding execute on_store on_world read_content serialize_to insert ◌>>=◌
write_run = refl

execute-IsWritten_example : IsWritten services codec-Decodes 0 running wrote
execute-IsWritten_example =
    execute-IsWritten services codec-Decodes manifest (plain (update_secret_content 0)) 0 running
      wrote write_run

execute_all-IsPrefix_example :
    IsPrefix
      ((execute_all services manifest commands [] running).0).0
      commands
      ((execute_all services manifest commands [] running).0).1
execute_all-IsPrefix_example = execute_all-IsPrefix services manifest commands running

abbrev pub emptied : ClientState
emptied = state (some today) none none

apply_state-idle_example :
    apply_state services demo demo_service demo_context config request_delete
      (crd (some today))
      emptied
      running
    ≡ (ok none, running)
apply_state-idle_example =
    apply_state-idle services demo demo_service demo_context config request_delete
      (crd (some today)) emptied today running refl refl refl

abbrev pub hydrated : ClientState
hydrated = record {
  app_id = "testapp";
  crd = crd none;
  api = some (record {
    client_id = "3f9a";
    req = some (map_client_response_to_add_request response);
    jwks = none;
  });
  secret = record { content = some content; manifest = filled };
}

hydration_run :
    new_client_state (some (crd none)) (some response) none (some filled) (some content)
    ≡ ok hydrated
unfolding new_client_state app_id_of split_on
hydration_run = refl

new_client_state-IsHydrated_example :
    (resource : _) × (some (crd none) ≡ some resource)
    × IsHydrated resource (some response) none (some filled) (some content) hydrated
new_client_state-IsHydrated_example =
    new_client_state-IsHydrated (some (crd none)) (some response) none (some filled) (some content)
      hydrated hydration_run

abbrev pub request : Request
request = record {
  name = "local-testapp";
  namespace = "default";
  app_id = "testapp";
  app_label = "local-testapp-deployment";
}
