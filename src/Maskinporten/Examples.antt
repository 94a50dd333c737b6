-- ===== src/Maskinporten/Examples.antt =====
-- Reconciliations and secrets at concrete data.
use altinn_k8s_operator.Base.{
  ◌+◌, ◌*◌, ◌≡◌, refl, true, Option, none, some, List, [], ◌∷◌, ok, ◌↔◌, deep_equal,
}
use altinn_k8s_operator.Base.Exec.{Exec, ◌>>=◌}
use altinn_k8s_operator.Base.Text.Decimal.{format_int, digits, successor, atoi}
use altinn_k8s_operator.Base.Text.Split.{split_on, last?}
use altinn_k8s_operator.Crypto.Jwks.{Jwk, Jwks, new_jwk, new_jwks, public, public_keys, to_public}
use altinn_k8s_operator.Crypto.ActiveKey.{select, first_certificate, one_certificate, index_of}
use altinn_k8s_operator.Crypto.Service.{
  create_cert, create_jwks, create_jwks_at, now, template, check_not_after,
  generate_cert_serial_number, read_full, check_serial, set_bytes,
}
use altinn_k8s_operator.Crypto.Rotation.{rotate, rotate_if_due, rotate_if_needed}
use altinn_k8s_operator.Crypto.Demo.{
  day, today, demo, demo-KeepsValidity, demo_context, demo_service, demo_env,
}
use altinn_k8s_operator.Maskinporten.Dto.{AddClientRequest, ClientResponse}
use altinn_k8s_operator.Maskinporten.ClientState.{ApiState, ClientState, build_api_req}
use altinn_k8s_operator.Maskinporten.ClientState.Commands.{
  Store, CommandList, create_client_in_api, update_secret_content, update_client_in_api, on_env,
  new_api, new_content, set_client_id,
}
use altinn_k8s_operator.Maskinporten.ClientState.Describe.{Action, describe, create, write}
use altinn_k8s_operator.Maskinporten.ClientState.Reconcile.{
  plain, first_key, deletion, get_not_after, fresh_jwks, creation, update_secret, update_jwks,
  update_scopes, maintenance, reconcile,
}
use altinn_k8s_operator.Maskinporten.ClientState.Reconcile.Plan.{Plan, removals, output}
use altinn_k8s_operator.Maskinporten.ClientState.Reconcile.Refinement.{
  reconcile-Plan, reconcile-removals,
}
use altinn_k8s_operator.Maskinporten.ClientState.Reconcile.Settled.{reconcile-IsSettled, IsSettled}
use altinn_k8s_operator.Maskinporten.ClientState.Reconcile.Callback.{
  first_callback, reconcile-set_client_id,
}
use altinn_k8s_operator.Maskinporten.DemoState.{
  public_key, config, state, store, month, key_until, first_private, first_public,
}

abbrev pub new_client : ClientState
new_client = state none none none

abbrev pub creation_commands : CommandList
creation_commands =
    record { action = create_client_in_api 0; callback = some (set_client_id 0 0) }
    ∷ plain (update_secret_content 0)
    ∷ []

abbrev pub created : Store
created = record {
  env = record { random = []; readings = 2 };
  heap = record {
    apis =
        record {
          client_id = "";
          req = some (build_api_req demo_context new_client);
          jwks = some first_public;
        }
        ∷ [];
    contents =
        output demo_context config new_client "" first_private (key_until "5e1f.0" 77 month) ∷ [];
  };
}

pub creation_run :
    reconcile demo demo_service demo_context config new_client store
    ≡ (ok creation_commands, created)
unfolding reconcile creation fresh_jwks get_not_after first_key on_env new_api new_content to_public
    public_keys public create_jwks create_cert create_jwks_at now template check_not_after
    generate_cert_serial_number read_full check_serial set_bytes format_int digits new_jwk new_jwks
    ◌>>=◌
creation_run = refl

-- The response to a creation.
abbrev pub response : ClientResponse
response = record {
  client_id = "3f9a";
  client_name = some "altinnoperator-local-local-testapp";
  logo_uri = none;
  description = none;
  scopes = some ("altinn:read" ∷ []);
  redirect_uris = none;
  post_logout_redirect_uris = none;
  authorization_lifetime = none;
  access_token_lifetime = none;
  refresh_token_lifetime = none;
  refresh_token_usage = none;
  frontchannel_logout_uri = none;
  frontchannel_logout_session_required = none;
  token_endpoint_auth_method = none;
  grant_types = none;
  integration_type = none;
  application_type = none;
  sso_disabled = none;
  code_challenge_method = none;
  last_updated = none;
  created = none;
  client_secret = none;
  client_orgno = some "991825827";
  supplier_orgno = none;
  active = some true;
  jwks_uri = none;
  on_behalf_of = none;
  jwks = none;
}

reconcile-set_client_id_example :
    (callback : ClientResponse → Exec Store (Unit {0})) × (after : Store) × (private public : Jwks)
    × (jwk : Option Jwk) × (first_callback creation_commands ≡ some callback)
    × (callback response created ≡ (ok tt, after))
    × (to_public demo (some private) ≡ ok public)
    × (first_key private.keys ≡ ok jwk)
    × (describe after.heap creation_commands
        ≡ some (
            create (record {
              client_id = "3f9a";
              req = some (build_api_req demo_context new_client);
              jwks = some public;
            })
            ∷ write (output demo_context config new_client "3f9a" private jwk)
            ∷ []))
reconcile-set_client_id_example =
    reconcile-set_client_id demo demo-KeepsValidity demo_service demo_context config new_client
      creation_commands store created response refl refl creation_run

-- A client whose keys are these, with these scopes in the API.
abbrev request : AddClientRequest
unfolding build_api_req
request = build_api_req demo_context new_client

abbrev in_api : ApiState
in_api = record { client_id = "3f9a"; req = some request; jwks = none }

abbrev with_keys : List (Option Jwk) → ClientState
with_keys keys = state none (some in_api) (
    some (record {
      client_id = "3f9a";
      authority = "https://test.maskinporten.no";
      jwks = some (record { keys = keys });
      jwk = none;
    }))

abbrev ending : ClientState
ending = with_keys (key_until "a.3" 5 (today + 3 * day) ∷ [])

abbrev rotated : Jwks
rotated = record { keys = key_until "5e1f.4" 77 month ∷ key_until "a.3" 5 (today + 3 * day) ∷ [] }

abbrev rotated_public : Jwks
rotated_public = record { keys = public_key "5e1f.4" 77 ∷ public_key "a.3" 5 ∷ [] }

abbrev rotation_commands : CommandList
rotation_commands = plain (update_secret_content 0) ∷ plain (update_client_in_api 0) ∷ []

abbrev after_rotation : Store
after_rotation = record {
  env = record { random = []; readings = 3 };
  heap = record {
    apis = record { client_id = "3f9a"; req = none; jwks = some rotated_public } ∷ [];
    contents = output demo_context config ending "3f9a" rotated (key_until "5e1f.4" 77 month) ∷ [];
  };
}

rotation_run :
    reconcile demo demo_service demo_context config ending store
    ≡ (ok rotation_commands, after_rotation)
unfolding reconcile maintenance update_secret update_jwks update_scopes get_not_after first_key
    on_env new_api new_content to_public public_keys public rotate_if_needed rotate_if_due rotate
    select first_certificate one_certificate index_of split_on last? atoi successor create_cert
    create_jwks_at now template check_not_after generate_cert_serial_number read_full check_serial
    set_bytes format_int digits new_jwk new_jwks ◌>>=◌ build_api_req deep_equal
rotation_run = refl

reconcile-Plan_example :
    (actions : List Action) × (describe after_rotation.heap rotation_commands ≡ some actions)
    × Plan demo demo_context config ending (demo.clock 0) (demo.clock 1) actions
reconcile-Plan_example =
    reconcile-Plan demo demo-KeepsValidity demo_service demo_context config ending rotation_commands
      store after_rotation rotation_run

abbrev settled : ClientState
settled = with_keys (key_until "a.3" 5 month ∷ [])

settled_run :
    reconcile demo demo_service demo_context config settled store
    ≡ (ok [], record { env = record { random = demo_env.random; readings = 2 }; heap = store.heap })
unfolding reconcile maintenance update_secret update_jwks update_scopes get_not_after on_env
    rotate_if_needed rotate_if_due select first_certificate one_certificate now ◌>>=◌ build_api_req
    deep_equal
settled_run = refl

reconcile-IsSettled_example :
    (◌≡◌ {A = CommandList} [] []) ↔ IsSettled config settled (demo.clock 1)
reconcile-IsSettled_example =
    reconcile-IsSettled demo demo-KeepsValidity demo_service demo_context config settled [] store
      (record { env = record { random = demo_env.random; readings = 2 }; heap = store.heap }) refl
      settled_run

abbrev deleted : ClientState
deleted = state (some today) (some in_api) (ending.secret).content

reconcile-removals_example :
    (reconcile demo demo_service demo_context config deleted store ≡ (ok (deletion deleted), store))
    × (describe store.heap (deletion deleted) ≡ some (removals deleted))
reconcile-removals_example =
    reconcile-removals demo demo_service demo_context config deleted today store refl
