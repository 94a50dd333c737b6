-- ===== src/Maskinporten/ClientState/Reconcile/Refinement.antt =====
-- ClientState.Reconcile does what the plan of the state says.
use altinn_k8s_operator.Base.{
  ◌+◌, ◌≡◌, refl, ap, Option, none, some, List, [], ◌∷◌, ◌++◌, ok, is_some, if◌then◌else◌,
}
use altinn_k8s_operator.Base.Exec.Ensures.{Ensures, Ensures-pure, Ensures-weaken}
use altinn_k8s_operator.OperatorContext.{Context}
use altinn_k8s_operator.Config.{Config}
use altinn_k8s_operator.Time.{Time}
use altinn_k8s_operator.Crypto.Types.{External, KeepsValidity}
use altinn_k8s_operator.Crypto.Service.{CryptoService}
use altinn_k8s_operator.Maskinporten.Secret.{SecretStateContent}
use altinn_k8s_operator.Maskinporten.ClientState.{ApiState, ClientState}
use altinn_k8s_operator.Maskinporten.ClientState.Commands.{
  Store, Heap, CommandList, delete_secret_content, delete_client_in_api,
}
use altinn_k8s_operator.Maskinporten.ClientState.Describe.{Action, describe, delete, clear}
use altinn_k8s_operator.Maskinporten.ClientState.Reconcile.{
  deletion, existing, by_api, by_deletion, reconcile, plain,
}
use altinn_k8s_operator.Maskinporten.ClientState.Reconcile.Plan.{
  removals, Plan, removing, creating, recovering,
}
use altinn_k8s_operator.Maskinporten.ClientState.Reconcile.Fresh.{
  creation-Ensures, recovery-Ensures,
}
use altinn_k8s_operator.Maskinporten.ClientState.Reconcile.Maintenance.{
  Follows, maintenance-Ensures,
}

describe-parts :
    (h : Heap) (content : Option SecretStateContent) (api : Option ApiState)
    → describe h (
        (elim content [ none ↦ [] | some c ↦ plain delete_secret_content ∷ [] ])
        ++ (elim api [ none ↦ [] | some a ↦ plain (delete_client_in_api a.client_id) ∷ [] ]))
      ≡ some (
          (if is_some content then clear ∷ [] else [])
          ++ (elim api [ none ↦ [] | some a ↦ delete a.client_id ∷ [] ]))
describe-parts h none none = refl
describe-parts h none (some a) = refl
describe-parts h (some c) none = refl
describe-parts h (some c) (some a) = refl

describe-deletion : (h : Heap) (s : ClientState) → describe h (deletion s) ≡ some (removals s)
unfolding deletion
describe-deletion h s = describe-parts h (s.secret).content s.api

module _ (x : External) (laws : KeepsValidity x) (crypto : CryptoService) (context : Context)
    (config : Config) (s : ClientState) where
  abbrev Refines : Store → CommandList → Store → Type 0
  Refines st =
      Follows x laws crypto context config s (x.clock (st.env).readings)
        (x.clock ((st.env).readings + 1))

  existing-Ensures :
      (api : ApiState) (content : Option SecretStateContent) (st : Store)
      → (s.crd).deletion_timestamp ≡ none
      → s.api ≡ some api
      → (s.secret).content ≡ content
      → Ensures (existing x crypto context config s api content) st (Refines st)
  existing-Ensures api none st alive has_api empty =
      Ensures-weaken _ st (recovery-Ensures x laws crypto context config s api st)
        λ cs st' (private, public, pair, told).
          (_, told, recovering api private public alive has_api empty pair refl)
  existing-Ensures api (some content) st alive has_api has_content =
      maintenance-Ensures x laws crypto context config s api content st alive has_api has_content

  by_api-Ensures :
      (api : Option ApiState) (st : Store)
      → (s.crd).deletion_timestamp ≡ none
      → s.api ≡ api
      → Ensures (by_api x crypto context config s api) st (Refines st)
  by_api-Ensures none st alive absent =
      Ensures-weaken _ st (creation-Ensures x laws crypto context config s st)
        λ cs st' (private, public, pair, told).
          (_, told, creating private public alive absent pair refl)
  by_api-Ensures (some api) st alive has_api =
      existing-Ensures api (s.secret).content st alive has_api refl

  by_deletion-Ensures :
      (deleted : Option Time) (st : Store)
      → (s.crd).deletion_timestamp ≡ deleted
      → Ensures (by_deletion x crypto context config s deleted) st (Refines st)
  by_deletion-Ensures none st alive = by_api-Ensures s.api st alive refl
  by_deletion-Ensures (some t) st deleted =
      Ensures-pure _ st _ (removals s, describe-deletion st.heap s, removing t deleted refl)

  -- A reconciliation that succeeds returns commands all of whose pointers lead to an object, and
  -- the actions they stand for are the ones that the plan of the state has for the instant that
  -- the clock gives and the one that it gives next.
  pub reconcile-Plan :
      (cs : CommandList) (st st' : Store)
      → reconcile x crypto context config s st ≡ (ok cs, st')
      → (actions : List Action) × (describe st'.heap cs ≡ some actions)
        × Plan x context config s
            (x.clock (st.env).readings)
            (x.clock ((st.env).readings + 1))
            actions
  unfolding reconcile
  reconcile-Plan cs st st' e =
      (by_deletion-Ensures (s.crd).deletion_timestamp st refl).returns cs st' e

-- While the resource is being deleted, a reconciliation succeeds, reads neither clock nor random
-- bytes and makes no object; its commands clear the content that the secret has, and then delete
-- the client that there is, and do nothing else.
pub reconcile-removals :
    (x : External) (crypto : CryptoService) (context : Context) (config : Config) (s : ClientState)
    (t : Time) (st : Store)
    → (s.crd).deletion_timestamp ≡ some t
    → (reconcile x crypto context config s st ≡ (ok (deletion s), st))
      × (describe st.heap (deletion s) ≡ some (removals s))
unfolding reconcile
reconcile-removals x crypto context config s t st e = (
  ap (λ (deleted : Option Time). by_deletion x crypto context config s deleted st) e,
  describe-deletion st.heap s,
)
