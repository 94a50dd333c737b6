-- ===== src/Controller/Kept/Whole.antt =====
-- reconcile and Reconcile of internal/controller/maskinportenclient_controller.go: what they keep of
-- the world.
use altinn_k8s_operator.Base.{String, Option, none, some, [], ◌∷◌, Result, ok, err, crash, Error}
use altinn_k8s_operator.Base.Exec.Keeps.{Keeps-any, Keeps-then, Keeps-handle}
use altinn_k8s_operator.OperatorContext.{Context}
use altinn_k8s_operator.Config.{Config}
use altinn_k8s_operator.Crd.{MaskinportenClient, Secret}
use altinn_k8s_operator.Crypto.Types.{External}
use altinn_k8s_operator.Crypto.Service.{CryptoService}
use altinn_k8s_operator.Maskinporten.ClientState.{ClientState}
use altinn_k8s_operator.Maskinporten.ClientState.Commands.{Command, CommandList}
use altinn_k8s_operator.Controller.{Services, Running, Request, RequestKind, on_store}
use altinn_k8s_operator.Controller.Status.{update_status_with_error}
use altinn_k8s_operator.Controller.Execute.{
  execute, turn, execute_all, run_commands, reconcile_state,
}
use altinn_k8s_operator.Controller.Loop.{
  finish, fail_with, outcome, apply_state, reconcile_instance, load_and_reconcile,
  reconcile_request,
}
use altinn_k8s_operator.Controller.Kept.{Serves, InWorld, Calm, Calm-on_world, Calm-lift, Calm-if}
use altinn_k8s_operator.Controller.Kept.Parts.{
  Calm-update_status, Calm-fetch_current_state, Calm-load_instance, Calm-execute,
}

module _ {W : Type 0} (I : W → Type 0) (services : Services W) (serves : Serves services I) where
  turn-kept :
      (executed : CommandList) (c : Command)
      (rest : CommandList → Running W → (CommandList × Result (Unit {0})) × Running W)
      (r : Result (Unit {0})) (s : Running W)
      → I s.world
      → ((cs : CommandList) → I (rest cs s).1.world)
      → I (turn services executed c rest r s).1.world
  turn-kept executed c rest (ok done) s i k = k _
  turn-kept executed c rest (err e) s i k = i
  turn-kept executed c rest (crash m) s i k = i

  execute_all-kept :
      (manifest : Secret) (cs executed : CommandList) (s : Running W)
      → I s.world
      → I (execute_all services manifest cs executed s).1.world
  unfolding execute_all
  execute_all-kept manifest [] executed s i = i
  execute_all-kept manifest (c ∷ cs) executed s i =
      let (r, s') = execute services manifest c c.action s in
      let next = (Calm-execute I services serves manifest c c.action).kept s i in
      turn-kept executed c (execute_all services manifest cs) r s' next
        (λ done. execute_all-kept manifest cs done s' next)

  run_commands-kept :
      (manifest : Secret) (r : Result CommandList) (s : Running W)
      → I s.world
      → I (run_commands services manifest r s).1.world
  run_commands-kept manifest (ok cs) s i = execute_all-kept manifest cs [] s i
  run_commands-kept manifest (err e) s i = i
  run_commands-kept manifest (crash m) s i = i

  module _ (x : External) (crypto : CryptoService) (context : Context) (config : Config) where
    reconcile_state-kept :
        (current : ClientState) (s : Running W)
        → I s.world
        → I (reconcile_state services x crypto context config current s).1.world
    unfolding reconcile_state on_store
    reconcile_state-kept current s i = run_commands-kept _ _ _ i

    Calm-finish :
        (kind : RequestKind) (found : MaskinportenClient) (commands : CommandList)
        → Calm I (finish services x crypto context config kind found commands)
    unfolding finish
    Calm-finish kind found [] = Calm-lift I (ok none)
    Calm-finish kind found (c ∷ cs) =
        Keeps-then (InWorld I) _ _ (Calm-update_status I services serves _ found _ _ _) λ updated.
          Keeps-then (InWorld I) _ _ (Calm-on_world I _ serves.requeue_after)
            λ delay. Calm-lift I (ok (some delay))

    Calm-fail_with :
        (found : MaskinportenClient) (msg : String) (commands : Option CommandList) (e : Error)
        → Calm I (fail_with services x crypto context config found msg commands e)
    unfolding fail_with update_status_with_error
    Calm-fail_with found msg commands e =
        Keeps-then (InWorld I) _ _
          (Keeps-any (InWorld I) _
            (Calm-update_status I services serves none found "error" msg commands).kept)
          λ recorded. Calm-lift I (err e)

    Calm-outcome :
        (kind : RequestKind) (found : MaskinportenClient) (commands : Option CommandList)
        (r : Result (Unit {0}))
        → Calm I (outcome services x crypto context config kind found commands r)
    Calm-outcome kind found commands (ok done) = Calm-finish kind found _
    Calm-outcome kind found commands (err e) = Calm-fail_with found "reconcile failed" commands e
    Calm-outcome kind found commands (crash m) = Calm-lift I (crash m)

    Calm-apply_state :
        (kind : RequestKind) (found : MaskinportenClient) (current : ClientState)
        → Calm I (apply_state services x crypto context config kind found current)
    unfolding apply_state
    Calm-apply_state kind found current = Keeps-any (InWorld I) _ λ s i.
        (Calm-outcome kind found (reconcile_state services x crypto context config current s).0.0
            (reconcile_state services x crypto context config current s).0.1).kept
          (reconcile_state services x crypto context config current s).1
          (reconcile_state-kept current s i)

    Calm-reconcile_instance :
        (req : Request) (kind : RequestKind) (found : MaskinportenClient)
        → Calm I (reconcile_instance services x crypto context config req kind found)
    unfolding reconcile_instance
    Calm-reconcile_instance req kind found =
        Keeps-handle (InWorld I) _ _ _
          (Calm-fetch_current_state I services serves context req found)
          (λ e. Calm-fail_with found _ none e) (λ current got. Calm-apply_state kind found current)

    Calm-load_and_reconcile :
        (req : Request) → Calm I (load_and_reconcile services x crypto context config req)
    unfolding load_and_reconcile
    Calm-load_and_reconcile req =
        Keeps-handle (InWorld I) _ _ _ (Calm-load_instance I services serves req)
          (λ e. Calm-if I _ _ _ (Calm-lift I (ok none)) (Calm-lift I (err e)))
          (λ loaded got. Calm-reconcile_instance req loaded.0 loaded.1)

    -- Whatever the request, the cluster and the API give, and whether it succeeds or fails, a
    -- reconciliation keeps each invariant of the world that every service keeps.
    pub reconcile_request-kept :
        (namespace name : String) (s : Running W)
        → I s.world
        → I (reconcile_request services x crypto context config namespace name s).1.world
    unfolding reconcile_request
    reconcile_request-kept namespace name =
        (Keeps-then (InWorld I) _ _ (Calm-lift I _) λ req. Calm-load_and_reconcile req).kept
