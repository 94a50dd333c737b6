-- ===== src/Controller/Composed.antt =====
-- The controller of internal/controller/maskinportenclient_controller.go with the API client of
-- internal/maskinporten/http_api_client.go and the delay of getRequeueAfter. The cluster and the
-- network are parts of one world, on which the client adds its caches.
pub mod Allowed
mod Examples
use altinn_k8s_operator.Base.{String, Bool, Option, some, List, Error}
use altinn_k8s_operator.Base.Exec.{Exec, pure, ◌>>=◌}
use altinn_k8s_operator.Time.{Time}
use altinn_k8s_operator.Config.{Config}
use altinn_k8s_operator.Crd.{MaskinportenClient, Secret}
use altinn_k8s_operator.Crypto.Jwks.{Jwks}
use altinn_k8s_operator.Crypto.Jwt.{Jose}
use altinn_k8s_operator.Crypto.Types.{External}
use altinn_k8s_operator.Maskinporten.Dto.{ClientResponse}
use altinn_k8s_operator.Maskinporten.Secret.{Codec}
use altinn_k8s_operator.Maskinporten.Http.{Network, ApiCodec, HttpApiClient, Session, on_network}
use altinn_k8s_operator.Maskinporten.Http.Clients.{
  get_all_clients, get_client, create_client, update_client, create_client_jwks, delete_client,
}
use altinn_k8s_operator.Controller.{Services}
use altinn_k8s_operator.Controller.Requeue.{Randomness, get_requeue_after}

-- What the controller calls besides the API client: client.Client, controllerutil and metav1.Now.
pub record Cluster (W : Type 0) : Type 0 where
  pub get_instance : String → String → Exec W MaskinportenClient
  pub list_secrets : String → String → Exec W (List Secret)
  pub update_secret : Secret → Exec W (Unit {0})
  pub update_instance : MaskinportenClient → Exec W (Unit {0})
  pub update_instance_status : MaskinportenClient → Exec W (Unit {0})
  pub is_not_found : Error → Bool
  pub contains_finalizer : String → List String → Bool
  pub add_finalizer : String → List String → Bool × List String
  pub remove_finalizer : String → List String → Bool × List String
  pub wall_clock : Exec W Time

module _ {W : Type 0} (cluster : Cluster W) (random : Randomness W) (secret_codec : Codec)
    (n : Network W) (codec : ApiCodec) (jose : Jose) (x : External) (config : Config)
    (c : HttpApiClient) where
  -- GetClient returns pointers, which are not nil without an error.
  abbrev pub found_client : String → Exec (Session W) (Option ClientResponse × Option Jwks)
  found_client id = do found ← get_client n codec jose x c id; pure (some found.0, some found.1)

  abbrev pub services : Services (Session W)
  services = record {
    get_instance = λ namespace name. on_network (cluster.get_instance namespace name);
    list_secrets = λ namespace label. on_network (cluster.list_secrets namespace label);
    update_secret = λ secret. on_network (cluster.update_secret secret);
    update_instance = λ found. on_network (cluster.update_instance found);
    update_instance_status = λ found. on_network (cluster.update_instance_status found);
    is_not_found = cluster.is_not_found;
    contains_finalizer = cluster.contains_finalizer;
    add_finalizer = cluster.add_finalizer;
    remove_finalizer = cluster.remove_finalizer;
    get_client = found_client;
    get_all_clients = get_all_clients n codec jose x c;
    create_client = create_client n codec jose x c;
    update_client = update_client n codec jose x c;
    create_client_jwks = λ id keys. create_client_jwks n codec jose x c id (some keys);
    delete_client = delete_client n codec jose x c;
    wall_clock = on_network cluster.wall_clock;
    requeue_after = on_network (get_requeue_after random config);
    codec = secret_codec;
  }
