-- ===== src/Maskinporten/DemoState.antt =====
-- A configuration, a resource, a secret and keys for concrete runs.
use altinn_k8s_operator.Base.{ℕ, ◌+◌, ◌*◌, String, Option, none, some, [], ◌∷◌}
use altinn_k8s_operator.Base.Int.{pos}
use altinn_k8s_operator.Config.{Config}
use altinn_k8s_operator.Crd.{MaskinportenClient, Secret}
use altinn_k8s_operator.Time.{Time, hour}
use altinn_k8s_operator.Crypto.Types.{rsa_private, rsa_public}
use altinn_k8s_operator.Crypto.Jwks.{Jwk, Jwks}
use altinn_k8s_operator.Crypto.Demo.{day, today, certificate_until, pair_of, demo_env}
use altinn_k8s_operator.Maskinporten.Secret.{SecretStateContent}
use altinn_k8s_operator.Maskinporten.ClientState.{ApiState, ClientState}
use altinn_k8s_operator.Maskinporten.ClientState.Commands.{Store}

abbrev pub config : Config
config = record {
  maskinporten_api = record {
    client_id = "operator";
    authority_url = "https://test.maskinporten.no";
    self_service_url = "https://api.samarbeid.digdir.no";
    jwk = "{}";
    scope = "idporten:dcr.altinn";
  };
  controller = record { requeue_after = pos (12 * hour) };
}

abbrev pub crd : Option Time → MaskinportenClient
crd deleted = record {
  name = "local-testapp";
  namespace = "default";
  generation = 1;
  deletion_timestamp = deleted;
  finalizers = "client.altinn.operator/finalizer" ∷ [];
  spec = record { scopes = some ("altinn:read" ∷ []) };
  status = record {
    client_id = "";
    authority = "";
    key_ids = none;
    last_synced = none;
    state = "";
    reason = "";
    observed_generation = 0;
    last_actions = none;
  };
}

abbrev pub manifest : Secret
manifest = record {
  name = "local-testapp-deployment-secrets";
  secret_type = "Opaque";
  contents = none;
}

abbrev pub state : Option Time → Option ApiState → Option SecretStateContent → ClientState
state deleted api content = record {
  app_id = "testapp";
  crd = crd deleted;
  api = api;
  secret = record { content = content; manifest = manifest };
}

abbrev pub store : Store
store = record { env = demo_env; heap = record { apis = []; contents = [] } }

abbrev pub month : Time
month = today + 30 * day

abbrev pub key_until : String → ℕ → Time → Option Jwk
key_until id n t = some (record {
  inner = record {
    certificates = certificate_until t ∷ [];
    key = rsa_private (pair_of n);
    key_id = id;
    key_use = "sig";
    algorithm = "RS512";
  };
})

abbrev pub public_key : String → ℕ → Option Jwk
public_key id n = some (record {
  inner = record {
    certificates = [];
    key = rsa_public n;
    key_id = id;
    key_use = "sig";
    algorithm = "RS512";
  };
})

abbrev pub first_private : Jwks
first_private = record { keys = key_until "5e1f.0" 77 month ∷ [] }

abbrev pub first_public : Jwks
first_public = record { keys = public_key "5e1f.0" 77 ∷ [] }
