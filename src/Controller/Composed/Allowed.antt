-- ===== src/Controller/Composed/Allowed.antt =====
-- What a reconciliation of internal/controller/maskinportenclient_controller.go sends through the API
-- client of internal/maskinporten/http_api_client.go.
use altinn_k8s_operator.Base.{String, some}
use altinn_k8s_operator.Base.Int.{ℤ}
use altinn_k8s_operator.Base.Exec.Keeps.{Keeps-any, Keeps-then}
use altinn_k8s_operator.OperatorContext.{Context}
use altinn_k8s_operator.Config.{Config}
use altinn_k8s_operator.Crd.{MaskinportenClient, Secret}
use altinn_k8s_operator.Crypto.Jwt.{Jose}
use altinn_k8s_operator.Crypto.Types.{External}
use altinn_k8s_operator.Crypto.Service.{CryptoService}
use altinn_k8s_operator.Maskinporten.Secret.{Codec}
use altinn_k8s_operator.Maskinporten.Http.{Network, ApiCodec, HttpApiClient, Session, on_network}
use altinn_k8s_operator.Maskinporten.Http.Retry.{Retries}
use altinn_k8s_operator.Maskinporten.Http.Requests.{IsInvariant, OnWorld}
use altinn_k8s_operator.Maskinporten.Http.Requests.Methods.{
  all_clients, one_client, creation, update, upload, removal, call-kept,
}
use altinn_k8s_operator.Controller.{Running}
use altinn_k8s_operator.Controller.Loop.{reconcile_request}
use altinn_k8s_operator.Controller.Requeue.{Randomness, randomize_duration, get_requeue_after}
use altinn_k8s_operator.Controller.Kept.{Serves}
use altinn_k8s_operator.Controller.Kept.Whole.{reconcile_request-kept}
use altinn_k8s_operator.Controller.Composed.{Cluster, services, found_client}

-- The invariant is kept by the cluster and by the random generator.
pub record IsApart {W : Type 0} (cluster : Cluster W) (random : Randomness W) (I : W → Type 0)
    : Type 0 where
  pub get_instance :
      (namespace name : String) (w : W) → I w → I (cluster.get_instance namespace name w).1
  pub list_secrets :
      (namespace label : String) (w : W) → I w → I (cluster.list_secrets namespace label w).1
  pub update_secret : (secret : Secret) (w : W) → I w → I (cluster.update_secret secret w).1
  pub update_instance :
      (found : MaskinportenClient) (w : W) → I w → I (cluster.update_instance found w).1
  pub update_instance_status :
      (found : MaskinportenClient) (w : W) → I w → I (cluster.update_instance_status found w).1
  pub wall_clock : (w : W) → I w → I (cluster.wall_clock w).1
  pub int64_n : (bound : ℤ) (w : W) → I w → I (random.int64_n bound w).1

module _ {W : Type 0} (cluster : Cluster W) (random : Randomness W) (secret_codec : Codec)
    (n : Network W) (codec : ApiCodec) (jose : Jose) (x : External) (config : Config)
    (c : HttpApiClient) (Waited : W → W → Type 0) (I : W → Type 0) (law : Retries Waited n)
    (inv : IsInvariant n c Waited I) (apart : IsApart cluster random I) where
  get_requeue_after-kept : (w : W) → I w → I (get_requeue_after random config w).1
  unfolding get_requeue_after randomize_duration
  get_requeue_after-kept =
      (Keeps-then I _ _ (Keeps-any I _ (apart.int64_n _)) λ r. Keeps-any I _ (λ w i. i)).kept

  found_client-kept :
      (id : String) (s : Session W)
      → I s.world
      → I (found_client cluster random secret_codec n codec jose x config c id s).1.world
  found_client-kept id =
      (Keeps-then (OnWorld I) _ _
        (Keeps-any (OnWorld I) _ (call-kept n codec c jose x Waited I law inv (one_client id)))
        λ found. Keeps-any (OnWorld I) _ (λ s i. i)).kept

  services-Serves :
      Serves (services cluster random secret_codec n codec jose x config c) (OnWorld I)
  unfolding on_network
  services-Serves =
      let kept = call-kept n codec c jose x Waited I law inv in
      record {
        get_instance = λ namespace name s. apart.get_instance namespace name s.world;
        list_secrets = λ namespace label s. apart.list_secrets namespace label s.world;
        update_secret = λ secret s. apart.update_secret secret s.world;
        update_instance = λ found s. apart.update_instance found s.world;
        update_instance_status = λ found s. apart.update_instance_status found s.world;
        get_client = found_client-kept;
        get_all_clients = kept all_clients;
        create_client = λ req keys. kept (creation req keys);
        update_client = λ id req. kept (update id req);
        create_client_jwks = λ id keys. kept (upload id (some keys));
        delete_client = λ id. kept (removal id);
        wall_clock = λ s. apart.wall_clock s.world;
        requeue_after = λ s. get_requeue_after-kept s.world;
      }

  -- Suppose that the backoff only retries the operation it is given. Whatever the cluster and the
  -- API answer, and whether it succeeds or fails, a reconciliation keeps each invariant of the world
  -- that the cluster, the random generator, reading the clock, making an ID, waiting between attempts
  -- and sending an allowed request keep: one with the ID of the run, once, and with a bearer token or
  -- to an endpoint of the authority.
  pub reconcile_request-allowed :
      (crypto : CryptoService) (context : Context) (namespace name : String)
      (s : Running (Session W))
      → I s.world.world
      → I
          (reconcile_request
            (services cluster random secret_codec n codec jose x config c)
            x
            crypto
            context
            config
            namespace
            name
            s).1.world.world
  reconcile_request-allowed crypto context =
      reconcile_request-kept (OnWorld I)
        (services cluster random secret_codec n codec jose x config c) services-Serves x crypto
        context config
