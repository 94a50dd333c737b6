-- ===== src/Maskinporten/ClientState/Reconcile/Parts.antt =====
-- What each part of the maintenance of a client ensures.
use altinn_k8s_operator.Base.{
  ℕ, ◌+◌, ◌≡◌, refl, ap, ◌∙◌, sym, String, Bool, true, false, not, Option, none, some, List, [],
  ◌∷◌, ok, ok_injective, ◌⊎◌, inl, inr, ◌==◌, deep_equal, Bool-cases, if◌then◌else◌,
}
use altinn_k8s_operator.Base.Exec.Ensures.{
  Ensures, Ensures-bind, Ensures-pure, Ensures-lift, Ensures-weaken,
}
use mathlib.Core.Path.{subst, subst₂, ap₂}
use mathlib.Core.Option
use altinn_k8s_operator.OperatorContext.{Context}
use altinn_k8s_operator.Config.{Config}
use altinn_k8s_operator.Time.{Time}
use altinn_k8s_operator.Crypto.Types.{Env, External, KeepsValidity}
use altinn_k8s_operator.Crypto.Jwks.{Jwk, Jwks, to_public}
use altinn_k8s_operator.Crypto.Service.{CryptoService}
use altinn_k8s_operator.Crypto.Rotation.{rotate_if_needed}
use altinn_k8s_operator.Crypto.Rotation.NewKey.{Outcome, rotate_if_needed-Ensures}
use altinn_k8s_operator.Maskinporten.Dto.{AddClientRequest}
use altinn_k8s_operator.Maskinporten.Secret.{SecretStateContent}
use altinn_k8s_operator.Maskinporten.ClientState.{ApiState, ClientState}
use altinn_k8s_operator.Maskinporten.ClientState.Commands.{Store, CommandList}
use altinn_k8s_operator.Maskinporten.ClientState.Describe.{
  Action, Extends, Extends-refl, describe, cons?, write, update, Ensures-new_api,
  Ensures-new_content,
}
use altinn_k8s_operator.Maskinporten.ClientState.Reconcile.{
  certificate_life, first_key, get_not_after, scopes_differ, update_secret, update_jwks,
  update_scopes,
}
use altinn_k8s_operator.Base.Exec.{◌>>=◌}
use altinn_k8s_operator.Maskinporten.ClientState.Reconcile.Plan.{output, new_scopes}
use altinn_k8s_operator.Maskinporten.ClientState.Reconcile.Fresh.{get_not_after-Ensures}

-- The scopes are compared with the ones in the API, if it is known what the API has.
pub scopes_differ-eq-ok :
    (s : ClientState) (o : Option AddClientRequest) (b : Bool)
    → scopes_differ s o ≡ ok b
    → (req : AddClientRequest) × (o ≡ some req)
      × (b ≡ not (deep_equal ((s.crd).spec).scopes req.scopes))
scopes_differ-eq-ok s none b e = cc
scopes_differ-eq-ok s (some req) b e = (req, refl, sym (ok_injective e))

module _ (x : External) (laws : KeepsValidity x) (crypto : CryptoService) (name : String) where
  pub rotation-Ensures :
      (o : Option Jwks) (e : Env)
      → Ensures
          (do not_after ← get_not_after x; rotate_if_needed x crypto name not_after o)
          e
          (λ r e'.
            (old : Jwks) × (o ≡ some old)
            × Outcome x laws crypto name
                (x.clock e.readings + certificate_life)
                old
                (x.clock (e.readings + 1))
                r)
  unfolding rotate_if_needed
  rotation-Ensures none e =
      Ensures-bind _ _ e (get_not_after-Ensures x e)
        λ t e₁ h₁. Ensures-weaken _ e₁ (Ensures-lift _ e₁) λ r e' h. cc
  rotation-Ensures (some old) e = Ensures-bind _ _ e (get_not_after-Ensures x e) λ t e₁ h₁.
      Ensures-weaken _ e₁ (rotate_if_needed-Ensures x laws crypto name t old e₁) λ r e' h. (
        old,
        refl,
        subst₂ (λ (u : Time) (n : ℕ). Outcome x laws crypto name u old (x.clock n) r) h₁.0 h₁.1 h,
      )

chosen : (b : Bool) (xs : List Action) → true ≡ not b → xs ≡ (if b then [] else xs)
chosen false xs e = refl
chosen true xs e = cc

omitted : (b : Bool) (xs : List Action) → false ≡ not b → [] ≡ (if b then [] else xs)
omitted true xs e = refl
omitted false xs e = cc

module _ (x : External) (crypto : CryptoService) (context : Context) (config : Config)
    (s : ClientState) (api : ApiState) where
  -- The commands write this set of keys, and its first key, to the secret.
  abbrev pub Writes : Jwks → CommandList → Store → Type 0
  Writes jwks cs st' =
      (jwk : Option Jwk) × (first_key jwks.keys ≡ ok jwk)
      × (describe st'.heap cs ≡ some (write (output context config s api.client_id jwks jwk) ∷ []))

  pub new_secret-Ensures :
      (content : SecretStateContent) (jwks : Jwks) (st : Store)
      → Ensures
          (update_secret x crypto context config api content (some jwks))
          st
          (λ cs st'. Extends st.heap st'.heap × Writes jwks cs st')
  unfolding update_secret
  new_secret-Ensures content jwks st =
      Ensures-bind _ _ st (Ensures-lift _ st) λ jwk st₁ (first, same).
        Ensures-bind _ _ st₁ (Ensures-new_content _ st₁) λ q st₂ (at, more). Ensures-pure _ st₂ _ (
          subst (λ (t : Store). Extends t.heap st₂.heap) same more,
          (jwk, first, ap₂ cons? (ap (Option.map write) at) refl),
        )

  pub same_secret-Ensures :
      (content : SecretStateContent) (old : Jwks) (st : Store)
      → content.jwks ≡ some old
      → Ensures (update_secret x crypto context config api content none) st (λ cs st'.
        Extends st.heap st'.heap
        × ((((config.maskinporten_api).authority_url == content.authority) ≡ true × (cs ≡ []))
            ⊎ (((config.maskinporten_api).authority_url == content.authority) ≡ false
                × Writes old cs st')))
  unfolding update_secret
  same_secret-Ensures content old st known =
      elim (Bool-cases ((config.maskinporten_api).authority_url == content.authority)) [
        | inl same ↦ rw same (Ensures-pure [] st _ (Extends-refl _ _ refl, inl (refl, refl)))
        | inr other ↦
            rw (other, known)
              (Ensures-bind _ _ st (Ensures-lift _ st) λ jwks st₁ (is_old, same).
                Ensures-bind _ _ st₁ (Ensures-lift _ st₁) λ jwk st₂ (first, same₂).
                  Ensures-bind _ _ st₂ (Ensures-new_content _ st₂) λ q st₃ (at, more).
                    Ensures-pure _ st₃ _ (
                      subst (λ (t : Store). Extends t.heap st₃.heap) (same₂ ∙ same) more,
                      inr (
                        refl,
                        (
                          jwk,
                          ap (λ (j : Jwks). first_key j.keys) (ok_injective is_old) ∙ first,
                          ap₂ cons? (ap (Option.map write) at) refl
                              ∙ ap
                                  (λ (j : Jwks).
                                    some (write (output context config s api.client_id j jwk) ∷ []))
                                  (sym (ok_injective is_old)),
                        ),
                      ),
                    ))
      ]

  pub new_api-Ensures :
      (jwks : Jwks) (st : Store)
      → Ensures (update_jwks x crypto context config api (some jwks)) st (λ cs st'.
        Extends st.heap st'.heap
        × (public : Jwks) × (to_public x (some jwks) ≡ ok public)
        × (describe st'.heap cs
            ≡ some (
                update (record { client_id = api.client_id; req = none; jwks = some public })
                ∷ [])))
  unfolding update_jwks
  new_api-Ensures jwks st = Ensures-bind _ _ st (Ensures-lift _ st) λ public st₁ (half, same).
      Ensures-bind _ _ st₁ (Ensures-new_api _ st₁) λ p st₂ (at, more). Ensures-pure _ st₂ _ (
        subst (λ (t : Store). Extends t.heap st₂.heap) same more,
        public,
        half,
        ap₂ cons? (ap (Option.map update) at) refl,
      )

  pub scopes-Ensures :
      (req : AddClientRequest) (differ : Bool) (st : Store)
      → differ ≡ not (deep_equal ((s.crd).spec).scopes req.scopes)
      → Ensures (update_scopes x crypto context config s api differ) st (λ cs st'.
        Extends st.heap st'.heap
        × (describe st'.heap cs ≡ some (new_scopes context config s api.client_id req)))
  unfolding update_scopes
  scopes-Ensures req true st e = Ensures-bind _ _ st (Ensures-new_api _ st) λ p st₂ (at, more).
      Ensures-pure _ st₂ _ (
        more,
        ap₂ cons? (ap (Option.map update) at) refl
            ∙ ap some (chosen (deep_equal ((s.crd).spec).scopes req.scopes) _ e),
      )
  scopes-Ensures req false st e =
      Ensures-pure _ st _
        (Extends-refl _ _ refl, ap some (omitted (deep_equal ((s.crd).spec).scopes req.scopes) _ e))
