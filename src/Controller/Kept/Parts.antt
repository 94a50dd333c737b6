-- ===== src/Controller/Kept/Parts.antt =====
-- updateStatus, loadInstance, fetchCurrentState and one turn of the loop of reconcile, in
-- internal/controller/maskinportenclient_controller.go: what they keep of the world.
use altinn_k8s_operator.Base.{String, Option, none, some, ok}
use altinn_k8s_operator.Base.Exec.{Exec, ◌>>=◌}
use altinn_k8s_operator.Base.Exec.Keeps.{Keeps-any, Keeps-then}
use altinn_k8s_operator.OperatorContext.{Context}
use altinn_k8s_operator.Crd.{MaskinportenClient, Secret}
use altinn_k8s_operator.Crypto.Jwks.{Jwks}
use altinn_k8s_operator.Maskinporten.Dto.{AddClientRequest, ClientResponse}
use altinn_k8s_operator.Maskinporten.Secret.{SecretStateContent}
use altinn_k8s_operator.Maskinporten.ClientState.Commands.{
  Command, CommandData, CommandList, create_client_in_api, update_secret_content,
  update_client_in_api, delete_client_in_api, delete_secret_content,
}
use altinn_k8s_operator.Controller.{Services, Request, RequestKind}
use altinn_k8s_operator.Controller.Status.{update_status}
use altinn_k8s_operator.Controller.Fetch.{
  kind_of, load_instance, client_of, find_client, fetch_current_state,
}
use altinn_k8s_operator.Controller.Execute.{send_request, send_jwks, execute}
use altinn_k8s_operator.Controller.Kept.{
  Serves, InWorld, Calm, Calm-on_store, Calm-on_world, Calm-lift, Calm-if, if_kept,
}

module _ {W : Type 0} (I : W → Type 0) (services : Services W) (serves : Serves services I) where
  pub Calm-update_status :
      (kind : Option RequestKind) (found : MaskinportenClient) (state reason : String)
      (commands : Option CommandList)
      → Calm I (update_status services kind found state reason commands)
  unfolding update_status
  Calm-update_status kind found state reason commands =
      Keeps-then (InWorld I) _ _ (Calm-on_world I _ serves.wall_clock) λ timestamp.
        Keeps-then (InWorld I) _ _ (Calm-on_store I _) λ status.
          Keeps-then (InWorld I) _ _ (Calm-lift I (ok _)) λ updated.
            Keeps-then (InWorld I) _ _
              (Calm-on_world I _ (
                if_kept I _ _ _ (serves.update_instance updated)
                  (serves.update_instance_status updated)))
              λ done. Calm-lift I (ok updated)

  Calm-kind_of : (found : MaskinportenClient) → Calm I (kind_of services found)
  unfolding kind_of
  Calm-kind_of found =
      Calm-if I _ _ _
        (Calm-if I _ _ _ (Calm-lift I (ok _)) (
          Keeps-then (InWorld I) _ _ (Calm-update_status _ found _ _ none)
            λ recorded. Calm-lift I (ok _)))
        (Calm-lift I (ok _))

  pub Calm-load_instance : (req : Request) → Calm I (load_instance services req)
  unfolding load_instance
  Calm-load_instance req =
      Keeps-then (InWorld I) _ _ (Calm-on_world I _ (serves.get_instance req.namespace req.name))
        λ found. Calm-kind_of found

  kept_then :
      {A B : Type 0} (m : Exec W A) (f : A → Exec W B)
      → ((w : W) → I w → I (m w).1)
      → ((a : A) (w : W) → I w → I (f a w).1)
      → (w : W) → I w
      → I ((m >>= f) w).1
  kept_then m f h k = (Keeps-then I m f (Keeps-any I m h) λ a. Keeps-any I (f a) (k a)).kept

  client_of-kept : (found : Option ClientResponse) (w : W) → I w → I (client_of services found w).1
  client_of-kept none w i = i
  client_of-kept (some c) w i = serves.get_client c.client_id w i

  find_client-kept :
      (context : Context) (app_id : String) (content : Option SecretStateContent) (w : W)
      → I w
      → I (find_client services context app_id content w).1
  unfolding find_client
  find_client-kept context app_id none =
      kept_then _ _ serves.get_all_clients λ clients. client_of-kept _
  find_client-kept context app_id (some content) =
      if_kept I _ _ _ (λ w i. i) (serves.get_client content.client_id)

  pub Calm-fetch_current_state :
      (context : Context) (req : Request) (found : MaskinportenClient)
      → Calm I (fetch_current_state services context req found)
  unfolding fetch_current_state
  Calm-fetch_current_state context req found =
      Keeps-then (InWorld I) _ _
        (Calm-on_world I _ (serves.list_secrets req.namespace req.app_label))
        λ secrets. Keeps-then (InWorld I) _ _ (Calm-lift I _) λ secret.
          Keeps-then (InWorld I) _ _ (Calm-lift I _) λ content.
            Keeps-then (InWorld I) _ _
              (Calm-on_world I _ (find_client-kept context req.app_id content))
              λ client. Calm-lift I _

  send_request-kept :
      (id : String) (req : Option AddClientRequest) (w : W)
      → I w
      → I (send_request services id req w).1
  send_request-kept id none w i = i
  send_request-kept id (some req) w i =
      kept_then _ _ (serves.update_client id _) (λ resp w i. i) w i

  send_jwks-kept :
      (id : String) (keys : Option Jwks) (w : W) → I w → I (send_jwks services id keys w).1
  send_jwks-kept id none w i = i
  send_jwks-kept id (some keys) w i = serves.create_client_jwks id keys w i

  pub Calm-execute :
      (manifest : Secret) (c : Command) (action : CommandData)
      → Calm I (execute services manifest c action)
  unfolding execute
  Calm-execute manifest c (create_client_in_api p) =
      Keeps-then (InWorld I) _ _ (Calm-on_store I _) λ api.
        Keeps-then (InWorld I) _ _ (Calm-on_world I _ (serves.create_client api.req api.jwks))
          λ resp. Calm-on_store I _
  Calm-execute manifest c (update_client_in_api p) =
      Keeps-then (InWorld I) _ _ (Calm-on_store I _) λ api.
        Keeps-then (InWorld I) _ _ (Calm-on_world I _ (send_request-kept api.client_id api.req))
          λ sent. Calm-on_world I _ (send_jwks-kept api.client_id api.jwks)
  Calm-execute manifest c (update_secret_content q) =
      Keeps-then (InWorld I) _ _ (Calm-on_store I _) λ content.
        Keeps-then (InWorld I) _ _ (Calm-lift I _) λ checked.
          Keeps-then (InWorld I) _ _ (Calm-lift I _)
            λ updated. Calm-on_world I _ (serves.update_secret updated)
  Calm-execute manifest c (delete_client_in_api id) = Calm-on_world I _ (serves.delete_client id)
  Calm-execute manifest c delete_secret_content = Calm-on_world I _ (serves.update_secret _)
