-- ===== src/Controller/CreationExamples.antt =====
-- The controller at the creation of a client, on the cluster and the API of `Examples`.
use altinn_k8s_operator.Base.{Result, ap, ◌∙◌, ◌≡◌, refl, false, none, some, [], ◌∷◌, ◌++◌, ok}
use altinn_k8s_operator.Base.Exec.{◌>>=◌}
use altinn_k8s_operator.Crd.{MaskinportenClient}
use altinn_k8s_operator.Controller.Status.{key_ids}
use altinn_k8s_operator.Crypto.Demo.{today, demo, demo-KeepsValidity, demo_context, demo_service}
use altinn_k8s_operator.Maskinporten.Secret.{SecretStateContent, serialize_to}
use altinn_k8s_operator.Base.Map.{insert}
use altinn_k8s_operator.Maskinporten.Demo.{codec_for, codec_for-Decodes}
use altinn_k8s_operator.Maskinporten.DemoState.{
  first_private, first_public, key_until, month, config, crd, manifest, store,
}
use altinn_k8s_operator.Maskinporten.Examples.{new_client, creation_commands, created, creation_run}
use altinn_k8s_operator.Maskinporten.ClientState.{build_api_req}
use altinn_k8s_operator.Maskinporten.ClientState.Commands.{
  CommandList, read_content, read_api, write_api, write_content, set_client_id,
}
use altinn_k8s_operator.Maskinporten.ClientState.Reconcile.Plan.{output}
use altinn_k8s_operator.Controller.Execute.Creation.{IsCreated, reconcile_state-IsCreated}
use altinn_k8s_operator.Maskinporten.ClientState.Commands.{Store}
use altinn_k8s_operator.Controller.{Services, Running, finalizer_name, on_store, on_world}
use altinn_k8s_operator.Controller.Execute.{execute, execute_all, run_commands, reconcile_state}
use altinn_k8s_operator.Controller.Examples.{Log, services_for, services}

-- The content that a creation writes.
abbrev new_content : SecretStateContent
new_content =
    output demo_context config new_client "3f9a" first_private (key_until "5e1f.0" 77 month)

abbrev creating : Services Log
creating = services_for (codec_for new_content)

abbrev starting : Running Log
starting = record { store = store; world = [] }

abbrev ending : Running Log
ending = record {
  store = record {
    env = created.env;
    heap = record {
      apis =
          record {
            client_id = "3f9a";
            req = some (build_api_req demo_context new_client);
            jwks = some first_public;
          }
          ∷ [];
      contents = new_content ∷ [];
    };
  };
  world = "create client" ∷ "update secret" ∷ [];
}

executed_run :
    execute_all creating manifest creation_commands [] (record { store = created; world = [] })
    ≡ ((creation_commands, ok tt), ending)
unfolding execute_all execute on_store on_world read_api read_content write_api write_content
    set_client_id serialize_to insert ◌>>=◌
executed_run = refl

reconcile_state_run :
    reconcile_state creating demo demo_service demo_context config new_client starting
    ≡ ((some creation_commands, ok tt), ending)
unfolding reconcile_state on_store
reconcile_state_run =
    ap
      (λ (m : Result CommandList × Store).
        run_commands creating manifest m.0 (record { store = m.1; world = [] }))
      creation_run
    ∙ ap (λ (o : (CommandList × Result (Unit {0})) × Running Log). ((some (o.0).0, (o.0).1), o.1))
        executed_run

reconcile_state-IsCreated_example :
    IsCreated creating demo demo_context config new_client []
      ("create client" ∷ "update secret" ∷ [])
reconcile_state-IsCreated_example =
    reconcile_state-IsCreated creating (codec_for-Decodes new_content) demo demo-KeepsValidity
      demo_service demo_context config new_client creation_commands starting ending refl refl
      reconcile_state_run

abbrev recorded : MaskinportenClient
recorded = record (crd none) {
  status = record {
    client_id = "3f9a";
    authority = "https://test.maskinporten.no";
    key_ids = some ("5e1f.0" ∷ []);
    last_synced = some today;
    state = "reconciled";
    reason = "Reconciled 2 resources";
    observed_generation = 1;
    last_actions = some ("CreateClientInApiCommand" ∷ "UpdateSecretContentCommand" ∷ []);
  };
}

abbrev finished : Running Log
finished = record ending {
  world = "create client" ∷ "update secret" ∷ "now" ∷ "update status" ∷ "requeue" ∷ [];
}

-- A cluster in which the resource has no finalizer.
abbrev unfinalized : Services Log
unfinalized = record services { contains_finalizer = λ f fs. false }

abbrev first_seen : MaskinportenClient
first_seen = record (crd none) {
  finalizers = (crd none).finalizers ++ (finalizer_name ∷ []);
  status = record ((crd none).status) {
    state = "recorded";
    last_synced = some today;
    observed_generation = 1;
  };
}
