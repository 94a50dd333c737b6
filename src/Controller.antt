-- ===== src/Controller.antt =====
-- internal/controller: the reconciliation loop. The Kubernetes API server, the helpers of
-- controller-runtime, the HTTP client for the Maskinporten API and the wall clock are the
-- parameter `Services`. Logs and traces are left out.
pub mod Steps
pub mod Status
pub mod Fetch
pub mod Execute
pub mod Loop
pub mod Kept
pub mod Composed
pub mod Requeue
pub mod Examples
pub mod CreationExamples
use altinn_k8s_operator.Base.{ℕ, String, ◌<>◌, Bool, Option, List, Result, ok, Error, ◌>>=◌}
use altinn_k8s_operator.Base.Exec.{Exec}
use altinn_k8s_operator.Base.Text.Split.{split_on}
use altinn_k8s_operator.OperatorContext.{Context}
use altinn_k8s_operator.Time.{Time, Duration}
use altinn_k8s_operator.Crd.{MaskinportenClient, Secret}
use altinn_k8s_operator.Crypto.Jwks.{Jwks}
use altinn_k8s_operator.Maskinporten.Dto.{AddClientRequest, UpdateClientRequest, ClientResponse}
use altinn_k8s_operator.Maskinporten.Secret.{Codec}
use altinn_k8s_operator.Maskinporten.ClientState.{app_id_of}
use altinn_k8s_operator.Maskinporten.ClientState.Commands.{Store}

-- What the controller calls, on a state W of the cluster, the API and the network.
pub record Services (W : Type 0) : Type 0 where
  -- client.Client: Get, List by namespace and app label, Update and Status().Update
  pub get_instance : String → String → Exec W MaskinportenClient
  pub list_secrets : String → String → Exec W (List Secret)
  pub update_secret : Secret → Exec W (Unit {0})
  pub update_instance : MaskinportenClient → Exec W (Unit {0})
  pub update_instance_status : MaskinportenClient → Exec W (Unit {0})
  -- whether client.IgnoreNotFound drops the error
  pub is_not_found : Error → Bool
  -- controllerutil: ContainsFinalizer, and AddFinalizer and RemoveFinalizer with their results
  pub contains_finalizer : String → List String → Bool
  pub add_finalizer : String → List String → Bool × List String
  pub remove_finalizer : String → List String → Bool × List String
  -- HttpApiClient
  pub get_client : String → Exec W (Option ClientResponse × Option Jwks)
  pub get_all_clients : Exec W (List ClientResponse)
  pub create_client : Option AddClientRequest → Option Jwks → Exec W ClientResponse
  pub update_client : String → UpdateClientRequest → Exec W ClientResponse
  pub create_client_jwks : String → Jwks → Exec W (Unit {0})
  pub delete_client : String → Exec W (Unit {0})
  -- metav1.Now, and the randomized delay of getRequeueAfter
  pub wall_clock : Exec W Time
  pub requeue_after : Exec W Duration
  -- encoding/json for the content of a secret
  pub codec : Codec

-- What a reconciliation runs on.
pub record Running (W : Type 0) : Type 0 where
  pub store : Store
  pub world : W

module _ {W A : Type 0} where
  unfoldable pub on_store : Exec Store A → Exec (Running W) A
  on_store m s = let (r, st) = m s.store in (r, record s { store = st })

  unfoldable pub on_world : Exec W A → Exec (Running W) A
  on_world m s = let (r, w) = m s.world in (r, record s { world = w })

abbrev pub finalizer_name : String
finalizer_name = "client.altinn.operator/finalizer"

pub data RequestKind : Type 0 where
  request_create : RequestKind
  request_update : RequestKind
  request_delete : RequestKind

-- maskinportenClientRequest; the kind and the instance are set by `load_instance`.
pub record Request : Type 0 where
  pub name : String
  pub namespace : String
  pub app_id : String
  pub app_label : String

unfoldable pub map_request : Context → String → String → Result Request
unfolding app_id_of
map_request context namespace name = do
  app ← app_id_of name (split_on b'-' name)
  ok (record {
    name = name;
    namespace = namespace;
    app_id = app;
    app_label = context.service_owner_name <> ("-" <> (app <> "-deployment"));
  })
