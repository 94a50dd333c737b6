-- ===== src/Maskinporten/ClientState/Reconcile/Settled.antt =====
-- When a reconciliation has nothing to do.
use altinn_k8s_operator.Base.{
  ◌+◌, ◌≡◌, refl, ap, ◌∙◌, sym, Bool, true, false, none, some, List, [], ◌∷◌, ok, ok_injective, ◌↔◌,
  ◌==◌, deep_equal, if◌then◌else◌, eq_iff,
}
use mathlib.Core.Path.{subst}
use altinn_k8s_operator.OperatorContext.{Context}
use altinn_k8s_operator.Config.{Config}
use altinn_k8s_operator.Time.{Time}
use altinn_k8s_operator.Crypto.Types.{Certificate, External, KeepsValidity}
use altinn_k8s_operator.Crypto.Jwks.{Jwks}
use altinn_k8s_operator.Crypto.ActiveKey.{first_certificate}
use altinn_k8s_operator.Base.{arith}
use altinn_k8s_operator.Crypto.Service.{CryptoService}
use altinn_k8s_operator.Crypto.Rotation.NewKey.{IsNotDue, IsRotation}
use altinn_k8s_operator.Maskinporten.Dto.{AddClientRequest}
use altinn_k8s_operator.Maskinporten.Secret.{SecretStateContent}
use altinn_k8s_operator.Maskinporten.ClientState.{ApiState, ClientState, build_api_req}
use altinn_k8s_operator.Maskinporten.ClientState.Commands.{Store, Heap, CommandList}
use altinn_k8s_operator.Maskinporten.ClientState.Describe.{
  Action, describe, cons?-eq-some, view, update,
}
use altinn_k8s_operator.Maskinporten.ClientState.Reconcile.{reconcile}
use altinn_k8s_operator.Maskinporten.ClientState.Reconcile.Plan.{
  Plan, removing, creating, recovering, rotating, moving, keeping,
}
use altinn_k8s_operator.Maskinporten.ClientState.Reconcile.Refinement.{reconcile-Plan}

-- What holds of a state for which nothing is to be done.
pub record IsSettled (config : Config) (s : ClientState) (now : Time) : Type 0 where
  pub api : ApiState
  pub content : SecretStateContent
  pub req : AddClientRequest
  pub keys : Jwks
  pub has_api : s.api ≡ some api
  pub has_content : (s.secret).content ≡ some content
  pub has_req : api.req ≡ some req
  pub has_keys : content.jwks ≡ some keys
  pub fresh : IsNotDue keys now
  pub same_authority : (config.maskinporten_api).authority_url ≡ content.authority
  pub same_scopes : deep_equal ((s.crd).spec).scopes req.scopes ≡ true

no_scopes : (b : Bool) (a : Action) → [] ≡ (if b then [] else a ∷ []) → b ≡ true
no_scopes true a e = refl
no_scopes false a e = cc

Plan-IsSettled :
    (x : External) (context : Context) (config : Config) (s : ClientState) (now later : Time)
    → (s.crd).deletion_timestamp ≡ none
    → Plan x context config s now later []
    → IsSettled config s later
Plan-IsSettled x context config s now later alive p = elim p [
  | removing t deleted e ↦ cc
  | creating private public _ absent pair e ↦ cc
  | recovering api private public _ has_api empty pair e ↦ cc
  | rotating api content req private public old _ has_api has_content has_req has_jwks new half e ↦
      cc
  | moving api content req old jwk _ has_api has_content has_req has_jwks quiet other first e ↦ cc
  | keeping api content req old _ has_api has_content has_req has_jwks quiet same e ↦ record {
    api = api;
    content = content;
    req = req;
    keys = old;
    has_api = has_api;
    has_content = has_content;
    has_req = has_req;
    has_keys = has_jwks;
    fresh = quiet;
    same_authority = (eq_iff _ _).0 same;
    same_scopes = no_scopes _ _ e;
  }
]

some_content : (c d : SecretStateContent) → some c ≡ some d → c ≡ d
some_content c d e = cc

true-false : (b : Bool) → b ≡ true → b ≡ false → ⊥
true-false b e f = cc

same_keys :
    (s : ClientState) (c d : SecretStateContent) (j k : Jwks)
    → (s.secret).content ≡ some c
    → (s.secret).content ≡ some d
    → c.jwks ≡ some j
    → d.jwks ≡ some k
    → j ≡ k
same_keys s c d j k e₁ e₂ e₃ e₄ = cc

same_scopes :
    (s : ClientState) (a b : ApiState) (q r : AddClientRequest)
    → s.api ≡ some a
    → s.api ≡ some b
    → a.req ≡ some q
    → b.req ≡ some r
    → deep_equal ((s.crd).spec).scopes q.scopes ≡ true
    → deep_equal ((s.crd).spec).scopes r.scopes ≡ true
same_scopes s a b q r e₁ e₂ e₃ e₄ e₅ = cc

-- No set of keys is due and not due at one instant.
clash :
    (deadline later : Time) (old private : Jwks)
    → IsNotDue old later
    → IsRotation deadline old later (some private)
    → ⊥
clash deadline later old private quiet new =
    let active : quiet.active ≡ new.active = ok_injective (sym quiet.selected ∙ new.selected) in
    let cert : quiet.cert ≡ new.cert =
      ok_injective (sym quiet.first ∙ (ap first_certificate active ∙ new.first)) in
    let ends = ap (λ (c : Certificate). c.not_after) cert in
    omega (arith, ends, quiet.later, new.due)

IsSettled-Plan :
    (x : External) (context : Context) (config : Config) (s : ClientState) (now later : Time)
    (actions : List Action)
    → (s.crd).deletion_timestamp ≡ none
    → IsSettled config s later
    → Plan x context config s now later actions
    → actions ≡ []
IsSettled-Plan x context config s now later actions alive h p = elim p [
  | removing t deleted e ↦ cc
  | creating private public _ absent pair e ↦ cc (absent, h.has_api)
  | recovering api private public _ has_api empty pair e ↦ cc (empty, h.has_content)
  | rotating api content req private public old _ has_api has_content has_req has_jwks new half e ↦
      absurd (
        clash _ later old private
          (subst (λ (j : Jwks). IsNotDue j later)
            (same_keys s h.content content h.keys old h.has_content has_content h.has_keys has_jwks)
            h.fresh)
          new)
  | moving api content req old jwk _ has_api has_content has_req has_jwks quiet other first e ↦
      absurd (
        true-false ((config.maskinporten_api).authority_url == content.authority)
          ((eq_iff _ _).1 (
            h.same_authority
            ∙ ap (λ (c : SecretStateContent). c.authority)
                (some_content _ _ (sym h.has_content ∙ has_content))))
          other)
  | keeping api content req old _ has_api has_content has_req has_jwks quiet same e ↦
      e
      ∙ ap
          (λ (b : Bool).
            if b
            then []
            else update (record {
              client_id = api.client_id;
              req = some (build_api_req context s);
              jwks = none;
            })
              ∷ [])
          (same_scopes s h.api api h.req req h.has_api has_api h.has_req has_req h.same_scopes)
]

describe-nil : (h : Heap) (cs : CommandList) → describe h cs ≡ some [] → cs ≡ []
describe-nil h [] e = refl
describe-nil h (c ∷ cs) e =
    let (a, tail, _, _, impossible) = cons?-eq-some (view h c.action) (describe h cs) [] e in cc

nothing :
    (h : Heap) (cs : CommandList) (actions : List Action)
    → cs ≡ []
    → describe h cs ≡ some actions
    → actions ≡ []
nothing h cs actions e told = cc

-- A reconciliation of a resource that is not being deleted, when it succeeds, returns no command
-- exactly if the state is settled: the client and the content of the secret are there, no key is
-- due at the instant that the second reading of the clock gives, the authority of the secret is
-- the configured one, and the scopes in the API are the ones of the resource.
pub reconcile-IsSettled :
    (x : External) (laws : KeepsValidity x) (crypto : CryptoService) (context : Context)
    (config : Config) (s : ClientState) (cs : CommandList) (st st' : Store)
    → (s.crd).deletion_timestamp ≡ none
    → reconcile x crypto context config s st ≡ (ok cs, st')
    → (cs ≡ []) ↔ IsSettled config s (x.clock ((st.env).readings + 1))
reconcile-IsSettled x laws crypto context config s cs st st' alive e =
    let (actions, told, plan) = reconcile-Plan x laws crypto context config s cs st st' e in
    let now = x.clock (st.env).readings in
    let later = x.clock ((st.env).readings + 1) in
    (
      λ empty. Plan-IsSettled x context config s now later alive (
          subst (λ (xs : List Action). Plan x context config s now later xs)
            (nothing (st'.heap) cs actions empty told) plan),
      λ settled.
          describe-nil st'.heap cs (
            told
            ∙ ap some (IsSettled-Plan x context config s now later actions alive settled plan)),
    )
