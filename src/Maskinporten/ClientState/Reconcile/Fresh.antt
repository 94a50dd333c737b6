-- ===== src/Maskinporten/ClientState/Reconcile/Fresh.antt =====
-- The branches that create keys: there is no client, or the secret is empty.
use altinn_k8s_operator.Base.{
  ℕ, ◌+◌, ◌≡◌, refl, ap, ◌∙◌, sym, Option, some, ok, ok_injective, get_elem?,
}
use altinn_k8s_operator.Base.Exec.Ensures.{Ensures, Ensures-bind, Ensures-pure, Ensures-lift}
use mathlib.Core.Path.{subst, ap₂}
use mathlib.Core.Option
use altinn_k8s_operator.Base.Int.{pos}
use altinn_k8s_operator.OperatorContext.{Context}
use altinn_k8s_operator.Config.{Config}
use altinn_k8s_operator.Time.{Time}
use altinn_k8s_operator.Crypto.Types.{Env, External, KeepsValidity}
use altinn_k8s_operator.Crypto.Jwks.{Jwk, Jwks}
use altinn_k8s_operator.Crypto.Service.{CryptoService}
use altinn_k8s_operator.Crypto.Service.Certificates.{Ensures-now, create_jwks-Ensures, IsNewKey}
use altinn_k8s_operator.Maskinporten.ClientState.{ApiState, ClientState}
use altinn_k8s_operator.Maskinporten.ClientState.Commands.{Store}
use altinn_k8s_operator.Maskinporten.ClientState.Describe.{
  describe, cons?, create, write, update, Ensures-on_env, Ensures-new_api, Ensures-new_content,
}
use altinn_k8s_operator.Maskinporten.ClientState.Reconcile.{
  certificate_life, first_key, get_not_after, fresh_jwks, creation, recovery,
}
use altinn_k8s_operator.Maskinporten.ClientState.Reconcile.Plan.{
  IsFreshPair, output, creations, recoveries,
}

pub get_not_after-Ensures :
    (x : External) (e : Env)
    → Ensures
        (get_not_after x)
        e
        (λ t e'. (t ≡ x.clock e.readings + certificate_life) × (e'.readings ≡ e.readings + 1))
unfolding get_not_after
get_not_after-Ensures x e =
    Ensures-bind _ _ e (Ensures-now x e)
      λ t e₁ h₁. Ensures-pure _ e₁ _ (ap (λ (u : ℕ). u + certificate_life) h₁.0, h₁.1)

-- The first key of a set with one new key is the new key.
fresh_key :
    (x : External) (deadline : Time) (private public : Jwks)
    (pair : IsFreshPair x deadline private public) (jwk : Option Jwk)
    → first_key private.keys ≡ ok jwk
    → jwk ≡ pair.fresh
unfolding first_key
fresh_key x deadline private public pair jwk e = ok_injective (sym e ∙ ap first_key pair.keys)

module _ (x : External) (laws : KeepsValidity x) (crypto : CryptoService) where
  pub fresh_jwks-Ensures :
      (s : ClientState) (e : Env)
      → Ensures
          (fresh_jwks x crypto s)
          e
          (λ made e'. IsFreshPair x (x.clock e.readings + certificate_life) made.0 made.1)
  unfolding fresh_jwks
  fresh_jwks-Ensures s e = Ensures-bind _ _ e (get_not_after-Ensures x e) λ t e₁ h₁.
      Ensures-bind _ _ e₁ (create_jwks-Ensures x laws crypto s.app_id t e₁)
        λ private e₂ (_, fresh, keys, new). Ensures-bind _ _ e₂ (Ensures-lift _ e₂) λ public e₃ h₃.
          Ensures-pure _ e₃ _ (record {
            fresh = fresh;
            keys = keys;
            new = subst (λ (d : Time). IsNewKey d (pos 0) fresh) h₁.0 new;
            half = h₃.0;
          })

  module _ (context : Context) (config : Config) (s : ClientState) where
    pub creation-Ensures :
        (st : Store)
        → Ensures (creation x crypto context config s) st (λ cs st'.
          (private public : Jwks) × (pair : IsFreshPair x
            (x.clock (st.env).readings + certificate_life)
            private
            public)
          × (describe st'.heap cs ≡ some (creations context config s private public pair.fresh)))
    unfolding creation
    creation-Ensures st =
        Ensures-bind _ _ st (Ensures-on_env _ st (fresh_jwks-Ensures s st.env)) λ made st₁ h₁.
          Ensures-bind _ _ st₁ (Ensures-new_api _ st₁) λ p st₂ (at₂, _).
            Ensures-bind _ _ st₂ (Ensures-lift _ st₂) λ jwk st₃ (first, same).
              Ensures-bind _ _ st₃ (Ensures-new_content _ st₃) λ q st₄ (at₄, more).
                Ensures-pure _ st₄ _ (
                  made.0,
                  made.1,
                  h₁.0,
                  ap₂ cons?
                      (ap (Option.map create) (
                        more.keeps_api p _
                          (ap (λ (t : Store). get_elem? (t.heap).apis p) same ∙ at₂)))
                      (ap₂ cons?
                        (ap (Option.map write) at₄
                          ∙ ap (λ k. some (write (output context config s "" made.0 k)))
                              (fresh_key _ _ made.0 made.1 h₁.0 jwk first))
                        refl),
                )

    pub recovery-Ensures :
        (api : ApiState) (st : Store)
        → Ensures (recovery x crypto context config s api) st (λ cs st'.
          (private public : Jwks) × (pair : IsFreshPair x
            (x.clock (st.env).readings + certificate_life)
            private
            public)
          × (describe st'.heap cs
              ≡ some (recoveries context config s api.client_id private public pair.fresh)))
    unfolding recovery
    recovery-Ensures api st =
        Ensures-bind _ _ st (Ensures-on_env _ st (fresh_jwks-Ensures s st.env)) λ made st₁ h₁.
          Ensures-bind _ _ st₁ (Ensures-new_api _ st₁) λ p st₂ (at₂, _).
            Ensures-bind _ _ st₂ (Ensures-lift _ st₂) λ jwk st₃ (first, same).
              Ensures-bind _ _ st₃ (Ensures-new_content _ st₃) λ q st₄ (at₄, more).
                Ensures-pure _ st₄ _ (
                  made.0,
                  made.1,
                  h₁.0,
                  ap₂ cons?
                      (ap (Option.map update) (
                        more.keeps_api p _
                          (ap (λ (t : Store). get_elem? (t.heap).apis p) same ∙ at₂)))
                      (ap₂ cons?
                        (ap (Option.map write) at₄
                          ∙ ap (λ k. some (write (output context config s api.client_id made.0 k)))
                              (fresh_key _ _ made.0 made.1 h₁.0 jwk first))
                        refl),
                )
