-- ===== src/Controller/Kept.antt =====
-- Reconcile of internal/controller/maskinportenclient_controller.go, as a client of its services: what
-- each call of a service keeps of the world, the reconciliation keeps.
pub mod Parts
pub mod Whole
use altinn_k8s_operator.Base.{
  String, Bool, true, false, Option, none, some, List, [], ◌∷◌, Result, ok, err, crash, Error,
  if◌then◌else◌,
}
use altinn_k8s_operator.Base.Exec.{Exec, pure, lift, handle, ◌>>=◌}
use altinn_k8s_operator.Base.Exec.Keeps.{Keeps, Keeps-any, Keeps-then, Keeps-handle}
use altinn_k8s_operator.OperatorContext.{Context}
use altinn_k8s_operator.Config.{Config}
use altinn_k8s_operator.Crd.{MaskinportenClient, Secret}
use altinn_k8s_operator.Crypto.Types.{External}
use altinn_k8s_operator.Crypto.Service.{CryptoService}
use altinn_k8s_operator.Crypto.Jwks.{Jwks}
use altinn_k8s_operator.Maskinporten.Dto.{AddClientRequest, UpdateClientRequest, ClientResponse}
use altinn_k8s_operator.Maskinporten.Secret.{SecretStateContent}
use altinn_k8s_operator.Maskinporten.ClientState.{ClientState}
use altinn_k8s_operator.Maskinporten.ClientState.Commands.{
  Store, Command, CommandData, CommandList, create_client_in_api, update_secret_content,
  update_client_in_api, delete_client_in_api, delete_secret_content,
}
use altinn_k8s_operator.Controller.{Services, Running, Request, RequestKind, on_store, on_world}
use altinn_k8s_operator.Controller.Status.{update_status, update_status_with_error}
use altinn_k8s_operator.Controller.Fetch.{
  kind_of, load_instance, client_of, find_client, fetch_current_state,
}
use altinn_k8s_operator.Controller.Execute.{
  send_request, send_jwks, execute, turn, execute_all, run_commands, reconcile_state,
}
use altinn_k8s_operator.Controller.Loop.{
  finish, fail_with, outcome, apply_state, reconcile_instance, load_and_reconcile,
  reconcile_request,
}

-- Each service keeps the invariant of the world, whatever it is called with.
pub record Serves {W : Type 0} (services : Services W) (I : W → Type 0) : Type 0 where
  pub get_instance :
      (namespace name : String) (w : W) → I w → I (services.get_instance namespace name w).1
  pub list_secrets :
      (namespace app_label : String) (w : W)
      → I w
      → I (services.list_secrets namespace app_label w).1
  pub update_secret : (secret : Secret) (w : W) → I w → I (services.update_secret secret w).1
  pub update_instance :
      (found : MaskinportenClient) (w : W) → I w → I (services.update_instance found w).1
  pub update_instance_status :
      (found : MaskinportenClient) (w : W) → I w → I (services.update_instance_status found w).1
  pub get_client : (id : String) (w : W) → I w → I (services.get_client id w).1
  pub get_all_clients : (w : W) → I w → I (services.get_all_clients w).1
  pub create_client :
      (req : Option AddClientRequest) (keys : Option Jwks) (w : W)
      → I w
      → I (services.create_client req keys w).1
  pub update_client :
      (id : String) (req : UpdateClientRequest) (w : W)
      → I w
      → I (services.update_client id req w).1
  pub create_client_jwks :
      (id : String) (keys : Jwks) (w : W) → I w → I (services.create_client_jwks id keys w).1
  pub delete_client : (id : String) (w : W) → I w → I (services.delete_client id w).1
  pub wall_clock : (w : W) → I w → I (services.wall_clock w).1
  pub requeue_after : (w : W) → I w → I (services.requeue_after w).1

module _ {W : Type 0} (I : W → Type 0) where
  abbrev pub InWorld : Running W → Type 0
  InWorld s = I s.world

  abbrev pub Calm : {A : Type 0} → Exec (Running W) A → Type 0
  Calm m = Keeps InWorld m (λ a. Unit {0})

  pub Calm-on_store : {A : Type 0} (m : Exec Store A) → Calm (on_store m)
  unfolding on_store
  Calm-on_store m = Keeps-any InWorld _ (λ s i. i)

  pub Calm-on_world : {A : Type 0} (m : Exec W A) → ((w : W) → I w → I (m w).1) → Calm (on_world m)
  unfolding on_world
  Calm-on_world m h = Keeps-any InWorld _ (λ s i. h s.world i)

  pub Calm-lift : {A : Type 0} (r : Result A) → Calm (lift r)
  Calm-lift r = Keeps-any InWorld _ (λ s i. i)

  pub if_kept :
      {A : Type 0} (b : Bool) (m n : Exec W A)
      → ((w : W) → I w → I (m w).1)
      → ((w : W) → I w → I (n w).1)
      → (w : W) → I w
      → I ((if b then m else n) w).1
  if_kept true m n h k w i = h w i
  if_kept false m n h k w i = k w i

  pub Calm-if :
      {A : Type 0} (b : Bool) (m n : Exec (Running W) A)
      → Calm m
      → Calm n
      → Calm (if b then m else n)
  Calm-if true m n h k = h
  Calm-if false m n h k = k
