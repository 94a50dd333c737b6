-- ===== src/Maskinporten/ClientState/Reconcile/Maintenance.antt =====
-- The branch where there are a client and a secret with content.
use altinn_k8s_operator.Base.{
  ◌+◌, ◌≡◌, refl, ap, ◌∙◌, sym, Bool, true, false, not, Option, none, some, List, [], ◌∷◌, ◌++◌, ok,
  ok_injective, ◌⊎◌, inl, inr, ◌==◌, deep_equal,
}
use altinn_k8s_operator.Base.Exec.Ensures.{Ensures, Ensures-bind, Ensures-pure, Ensures-lift}
use mathlib.Core.Path.{subst, ap₂}
use altinn_k8s_operator.OperatorContext.{Context}
use altinn_k8s_operator.Config.{Config}
use altinn_k8s_operator.Time.{Time}
use altinn_k8s_operator.Crypto.Types.{External, KeepsValidity}
use altinn_k8s_operator.Crypto.Jwks.{Jwk, Jwks}
use altinn_k8s_operator.Crypto.Service.{CryptoService}
use altinn_k8s_operator.Crypto.Rotation.NewKey.{IsNotDue, IsRotation, Outcome}
use altinn_k8s_operator.Maskinporten.Dto.{AddClientRequest}
use altinn_k8s_operator.Maskinporten.Secret.{SecretStateContent}
use altinn_k8s_operator.Maskinporten.ClientState.{ApiState, ClientState}
use altinn_k8s_operator.Maskinporten.ClientState.Commands.{Store, CommandList}
use altinn_k8s_operator.Maskinporten.ClientState.Describe.{
  Action, Extends, Extends-trans, describe, describe-Extends, describe-append, write,
  Ensures-on_env,
}
use altinn_k8s_operator.Maskinporten.ClientState.Reconcile.{
  certificate_life, first_key, update_secret, update_jwks, update_scopes, maintenance,
}
use altinn_k8s_operator.Base.Exec.{pure, ◌>>=◌}
use altinn_k8s_operator.Maskinporten.ClientState.Reconcile.Plan.{
  output, new_keys, new_scopes, Plan, rotating, moving, keeping,
}
use altinn_k8s_operator.Maskinporten.ClientState.Reconcile.Parts.{
  scopes_differ-eq-ok, rotation-Ensures, Writes, new_secret-Ensures, same_secret-Ensures,
  new_api-Ensures, scopes-Ensures,
}

some_injective : (a b : Jwks) → some a ≡ some b → a ≡ b
some_injective a b e = cc

none-some : (a : Jwks) → none ≡ some a → ⊥
none-some a e = cc

-- The first key of a rotated set is the new key.
rotated_key :
    (deadline : Time) (old : Jwks) (later : Time) (jwks : Jwks)
    (new : IsRotation deadline old later (some jwks)) (jwk : Option Jwk)
    → first_key jwks.keys ≡ ok jwk
    → jwk ≡ new.fresh
unfolding first_key
rotated_key deadline old later jwks new jwk e = ok_injective (
    sym e
    ∙ ap (λ (j : Jwks). first_key j.keys)
        (some_injective jwks (record { keys = new.fresh ∷ new.active ∷ [] }) new.keys))

-- The plan of a state with a client and content, for the actions that some commands stand for.
module _ (x : External) (laws : KeepsValidity x) (crypto : CryptoService) (context : Context)
    (config : Config) (s : ClientState) where
  abbrev pub Follows : Time → Time → CommandList → Store → Type 0
  Follows now later cs st' =
      (actions : List Action) × (describe st'.heap cs ≡ some actions)
      × Plan x context config s now later actions

  module _ (api : ApiState) (content : SecretStateContent) (req : AddClientRequest) (old : Jwks)
      (alive : (s.crd).deletion_timestamp ≡ none) (has_api : s.api ≡ some api)
      (has_content : (s.secret).content ≡ some content) (has_req : api.req ≡ some req)
      (has_jwks : content.jwks ≡ some old) (now later : Time) (differ : Bool)
      (compared : differ ≡ not (deep_equal ((s.crd).spec).scopes req.scopes)) where
    planned :
        (st₁ st₃ : Store) (secret jwks scopes : CommandList)
        → (((config.maskinporten_api).authority_url == content.authority) ≡ true × (secret ≡ []))
          ⊎ (((config.maskinporten_api).authority_url == content.authority) ≡ false
              × Writes x crypto context config s api old secret st₁)
        → jwks ≡ []
        → Extends st₁.heap st₃.heap
        → describe (st₃.heap) scopes ≡ some (new_scopes context config s api.client_id req)
        → IsNotDue old later
        → Follows now later (secret ++ (jwks ++ scopes)) st₃
    planned st₁ st₃ secret jwks scopes (inl (same, nothing)) empty more told quiet = (
      new_scopes context config s api.client_id req,
      ap₂ (λ (cs ds : CommandList). describe (st₃.heap) (cs ++ (ds ++ scopes))) nothing empty
          ∙ told,
      keeping api content req old alive has_api has_content has_req has_jwks quiet same refl,
    )
    planned st₁ st₃ secret jwks scopes (inr (other, (jwk, first, written))) empty more told quiet =
        (
          write (output context config s api.client_id old jwk)
              ∷ new_scopes context config s api.client_id req,
          describe-append st₃.heap secret (jwks ++ scopes) _ _
              (describe-Extends st₁.heap st₃.heap secret _ more written)
              (ap (λ (ds : CommandList). describe (st₃.heap) (ds ++ scopes)) empty ∙ told),
          moving api content req old jwk alive has_api has_content has_req has_jwks quiet other
              first refl,
        )

    unchanged-Ensures :
        (st : Store)
        → IsNotDue old later
        → Ensures
            (do
              secret_commands ← update_secret x crypto context config api content none
              jwks_commands ← update_jwks x crypto context config api none
              scope_commands ← update_scopes x crypto context config s api differ
              pure (secret_commands ++ (jwks_commands ++ scope_commands)))
            st
            (Follows now later)
    unfolding update_jwks
    unchanged-Ensures st quiet =
        Ensures-bind _ _ st
          (same_secret-Ensures x crypto context config s api content old st has_jwks)
          λ secret st₁ (more₁, which).
            Ensures-bind _ _ st₁
              (Ensures-pure [] st₁ (λ cs st'. (cs ≡ []) × (st' ≡ st₁)) (refl, refl))
              λ jwks st₂ (empty, same).
                Ensures-bind _ _ st₂
                  (scopes-Ensures x crypto context config s api req differ st₂ compared)
                  λ scopes st₃ (more₃, told). Ensures-pure _ st₃ _ (
                    planned st₁ st₃ secret jwks scopes which empty
                      (subst (λ (t : Store). Extends t.heap st₃.heap) same more₃) told quiet)

    rotated-Ensures :
        (jwks : Jwks) (st : Store)
        → (new : IsRotation (now + certificate_life) old later (some jwks))
        → Ensures
            (do
              secret_commands ← update_secret x crypto context config api content (some jwks)
              jwks_commands ← update_jwks x crypto context config api (some jwks)
              scope_commands ← update_scopes x crypto context config s api differ
              pure (secret_commands ++ (jwks_commands ++ scope_commands)))
            st
            (Follows now later)
    rotated-Ensures jwks st new =
        Ensures-bind _ _ st (new_secret-Ensures x crypto context config s api content jwks st)
          λ secret st₁ (more₁, (jwk, first, written)).
            Ensures-bind _ _ st₁ (new_api-Ensures x crypto context config s api jwks st₁)
              λ uploads st₂ (more₂, public, half, sent).
                Ensures-bind _ _ st₂
                  (scopes-Ensures x crypto context config s api req differ st₂ compared)
                  λ scopes st₃ (more₃, told). Ensures-pure _ st₃ _ (
                    new_keys context config s api.client_id jwks public new.fresh
                        ++ new_scopes context config s api.client_id req,
                    describe-append st₃.heap secret (uploads ++ scopes) _ _
                        (describe-Extends st₁.heap st₃.heap secret _
                          (Extends-trans _ _ _ more₂ more₃)
                          (written
                            ∙ ap
                                (λ k.
                                  some (write (output context config s api.client_id jwks k) ∷ []))
                                (rotated_key _ old later jwks new jwk first)))
                        (describe-append st₃.heap uploads scopes _ _
                          (describe-Extends st₂.heap st₃.heap uploads _ more₃ sent) told),
                    rotating api content req jwks public old alive has_api has_content has_req
                        has_jwks new half refl,
                  )

    rest-Ensures :
        (rotated : Option Jwks) (st : Store)
        → Outcome x laws crypto s.app_id (now + certificate_life) old later rotated
        → Ensures
            (do
              secret_commands ← update_secret x crypto context config api content rotated
              jwks_commands ← update_jwks x crypto context config api rotated
              scope_commands ← update_scopes x crypto context config s api differ
              pure (secret_commands ++ (jwks_commands ++ scope_commands)))
            st
            (Follows now later)
    rest-Ensures none st (inl (e, quiet)) = unchanged-Ensures st quiet
    rest-Ensures none st (inr new) = absurd (none-some _ new.keys)
    rest-Ensures (some jwks) st (inl (e, quiet)) = absurd (none-some _ (sym e))
    rest-Ensures (some jwks) st (inr new) = rotated-Ensures jwks st new

  pub maintenance-Ensures :
      (api : ApiState) (content : SecretStateContent) (st : Store)
      → (s.crd).deletion_timestamp ≡ none
      → s.api ≡ some api
      → (s.secret).content ≡ some content
      → Ensures
          (maintenance x crypto context config s api content)
          st
          (Follows (x.clock (st.env).readings) (x.clock ((st.env).readings + 1)))
  unfolding maintenance
  maintenance-Ensures api content st alive has_api has_content =
      Ensures-bind _ _ st (Ensures-lift _ st) λ differ st₁ (asked, same).
        Ensures-bind _ _ st₁
          (Ensures-on_env _ st₁ (rotation-Ensures x laws crypto s.app_id content.jwks st₁.env))
          λ rotated st₂ ((old, has_jwks, outcome), same₂).
            let (req, has_req, compared) = scopes_differ-eq-ok s api.req differ asked in
            rest-Ensures api content req old alive has_api has_content has_req has_jwks
              (x.clock (st.env).readings) (x.clock ((st.env).readings + 1)) differ compared rotated
              st₂
              (subst
                (λ (t : Store).
                  Outcome x laws crypto s.app_id (x.clock (t.env).readings + certificate_life) old
                    (x.clock ((t.env).readings + 1)) rotated)
                same outcome)
