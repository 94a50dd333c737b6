-- ===== src/Controller/Loop/Idle.antt =====
-- A reconciliation that finds nothing to do.
use altinn_k8s_operator.Base.{◌≡◌, refl, ap, ◌∙◌, none, some, [], ok}
use altinn_k8s_operator.OperatorContext.{Context}
use altinn_k8s_operator.Config.{Config}
use altinn_k8s_operator.Time.{Time}
use altinn_k8s_operator.Crd.{MaskinportenClient}
use altinn_k8s_operator.Crypto.Types.{External}
use altinn_k8s_operator.Crypto.Service.{CryptoService}
use altinn_k8s_operator.Maskinporten.ClientState.{ClientState}
use altinn_k8s_operator.Maskinporten.ClientState.Commands.{CommandList}
use altinn_k8s_operator.Maskinporten.ClientState.Reconcile.{deletion, reconcile}
use altinn_k8s_operator.Maskinporten.ClientState.Reconcile.Refinement.{reconcile-removals}
use altinn_k8s_operator.Controller.{Services, Running, RequestKind, on_store}
use altinn_k8s_operator.Controller.Execute.{execute_all, reconcile_state}
use altinn_k8s_operator.Controller.Loop.{finish, apply_state}

deletion-nil : (s : ClientState) → (s.secret).content ≡ none → s.api ≡ none → deletion s ≡ []
unfolding deletion
deletion-nil s e₁ e₂ = rw (e₁, e₂) refl

module _ {W : Type 0} (services : Services W) (x : External) (crypto : CryptoService)
    (context : Context) (config : Config) where
  nothing_computed :
      (kind : RequestKind) (found : MaskinportenClient) (current : ClientState) (s : Running W)
      → reconcile x crypto context config current s.store ≡ (ok [], s.store)
      → apply_state services x crypto context config kind found current s ≡ (ok none, s)
  unfolding apply_state reconcile_state execute_all finish on_store
  nothing_computed kind found current s e = rw e refl

  -- While a resource is being deleted that has neither content in its secret nor a client, a
  -- reconciliation of it ends without an error and without any call to the cluster or the API: the
  -- finalizer is not removed, and the request is not queued again.
  pub apply_state-idle :
      (kind : RequestKind) (found : MaskinportenClient) (current : ClientState) (t : Time)
      (s : Running W)
      → (current.crd).deletion_timestamp ≡ some t
      → (current.secret).content ≡ none
      → current.api ≡ none
      → apply_state services x crypto context config kind found current s ≡ (ok none, s)
  apply_state-idle kind found current t s deleted empty absent =
      nothing_computed kind found current s (
        (reconcile-removals x crypto context config current t s.store deleted).0
        ∙ ap (λ (cs : CommandList). (ok cs, s.store)) (deletion-nil current empty absent))
