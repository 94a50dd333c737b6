-- ===== src/Controller/Loop.antt =====
-- Reconcile of internal/controller/maskinportenclient_controller.go.
pub mod Idle
pub mod Finished
use altinn_k8s_operator.Base.{
  ℕ, String, ◌<>◌, Bool, Option, none, some, List, [], ◌∷◌, Result, ok, err, crash, Error, length,
  if◌then◌else◌,
}
use altinn_k8s_operator.Base.Int.{pos}
use altinn_k8s_operator.Base.Exec.{Exec, pure, lift, handle, ◌>>=◌}
use altinn_k8s_operator.Base.Text.Decimal.{format_int}
use altinn_k8s_operator.OperatorContext.{Context}
use altinn_k8s_operator.Config.{Config}
use altinn_k8s_operator.Time.{Duration}
use altinn_k8s_operator.Crd.{MaskinportenClient}
use altinn_k8s_operator.Crypto.Types.{External}
use altinn_k8s_operator.Crypto.Service.{CryptoService}
use altinn_k8s_operator.Maskinporten.ClientState.{ClientState}
use altinn_k8s_operator.Maskinporten.ClientState.Commands.{Command, CommandList}
use altinn_k8s_operator.Controller.{Services, Running, Request, RequestKind, on_world, map_request}
use altinn_k8s_operator.Controller.Status.{update_status, update_status_with_error}
use altinn_k8s_operator.Controller.Fetch.{load_instance, fetch_current_state}
use altinn_k8s_operator.Controller.Execute.{reconcile_state}

module _ {W : Type 0} (services : Services W) (x : External) (crypto : CryptoService)
    (context : Context) (config : Config) where
  -- The delay after which the request is queued again, if it is.
  unfoldable pub finish :
      RequestKind → MaskinportenClient → CommandList → Exec (Running W) (Option Duration)
  finish kind found [] = pure none
  finish kind found (c ∷ cs) = do
    updated ←
        update_status services (some kind) found "reconciled"
          ("Reconciled " <> (format_int (pos (length (c ∷ cs))) <> " resources")) (some (c ∷ cs))
    delay ← on_world services.requeue_after
    pure (some delay)

  abbrev pub commands_or_none : Option CommandList → CommandList
  commands_or_none none = []
  commands_or_none (some cs) = cs

  -- The error is returned after it was recorded in the status.
  unfoldable pub fail_with :
      MaskinportenClient → String → Option CommandList → Error → Exec (Running W) (Option Duration)
  fail_with found msg commands e = do
    recorded ← update_status_with_error services found msg commands
    lift (err e)

  abbrev pub outcome :
      RequestKind
      → MaskinportenClient
      → Option CommandList
      → Result (Unit {0})
      → Exec (Running W) (Option Duration)
  outcome kind found commands (ok done) = finish kind found (commands_or_none commands)
  outcome kind found commands (err e) = fail_with found "reconcile failed" commands e
  outcome kind found commands (crash m) = lift (crash m)

  unfoldable pub apply_state :
      RequestKind → MaskinportenClient → ClientState → Exec (Running W) (Option Duration)
  apply_state kind found current s =
      let ((commands, r), s') = reconcile_state services x crypto context config current s in
      outcome kind found commands r s'

  unfoldable pub reconcile_instance :
      Request → RequestKind → MaskinportenClient → Exec (Running W) (Option Duration)
  reconcile_instance req kind found =
      handle (fetch_current_state services context req found)
        (λ e. fail_with found "fetchCurrentState failed" none e)
        (λ current. apply_state kind found current)

  -- An instance that is not found was deleted.
  unfoldable pub load_and_reconcile : Request → Exec (Running W) (Option Duration)
  load_and_reconcile req =
      handle (load_instance services req)
        (λ e. if services.is_not_found e then pure none else lift (err e))
        (λ loaded. reconcile_instance req loaded.0 loaded.1)

  unfoldable pub reconcile_request : String → String → Exec (Running W) (Option Duration)
  reconcile_request namespace name = do
    req ← lift (map_request context namespace name)
    load_and_reconcile req
