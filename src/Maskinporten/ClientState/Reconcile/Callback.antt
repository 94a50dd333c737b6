-- ===== src/Maskinporten/ClientState/Reconcile/Callback.antt =====
-- The callback of a creation: it runs with the response of the API, after the request and before
-- the secret is written, so that the secret gets the ID of the new client.
use altinn_k8s_operator.Base.{
  ℕ, ◌≡◌, refl, ap, ◌∙◌, sym, String, Option, none, some, [], ◌∷◌, ok, get_elem?,
  get_elem?-set_self, set,
}
use altinn_k8s_operator.Base.Exec.Ensures.{Ensures, Ensures-bind, Ensures-pure, Ensures-lift}
use altinn_k8s_operator.OperatorContext.{Context}
use altinn_k8s_operator.Config.{Config}
use altinn_k8s_operator.Time.{Time}
use altinn_k8s_operator.Crypto.Types.{External, KeepsValidity}
use altinn_k8s_operator.Crypto.Jwks.{Jwk, Jwks, to_public}
use altinn_k8s_operator.Crypto.Service.{CryptoService}
use altinn_k8s_operator.Maskinporten.Dto.{ClientResponse}
use altinn_k8s_operator.Base.Exec.{Exec, ◌>>=◌}
use mathlib.Core.Option
use mathlib.Core.Path.{ap₂}
use altinn_k8s_operator.Maskinporten.ClientState.Describe.{
  Ensures-on_env, Ensures-new_api, Ensures-new_content, create,
}
use altinn_k8s_operator.Maskinporten.Secret.{SecretStateContent}
use altinn_k8s_operator.Maskinporten.ClientState.{ApiState, ClientState, build_api_req}
use altinn_k8s_operator.Maskinporten.ClientState.Commands.{
  Store, CommandList, set_client_id, read_api, read_content, write_api, write_content,
  create_client_in_api, update_secret_content,
}
use altinn_k8s_operator.Maskinporten.ClientState.Describe.{describe, cons?, write}
use altinn_k8s_operator.Maskinporten.ClientState.Reconcile.{
  creation, by_api, by_deletion, reconcile, plain, first_key,
}
use altinn_k8s_operator.Maskinporten.ClientState.Reconcile.Plan.{output}
use altinn_k8s_operator.Maskinporten.ClientState.Reconcile.Fresh.{fresh_jwks-Ensures}

-- The callback of the first command.
abbrev pub first_callback : CommandList → Option (ClientResponse → Exec Store (Unit {0}))
first_callback [] = none
first_callback (c ∷ _) = c.callback

-- The store after the client's ID has been written to both objects.
abbrev pub written : ℕ → ℕ → ApiState → SecretStateContent → String → Store → Store
written p q a c id st = record st {
  heap = record {
    apis = set (st.heap).apis p (record a { client_id = id });
    contents = set (st.heap).contents q (record c { client_id = id });
  };
}

pub set_client_id-written :
    (p q : ℕ) (a : ApiState) (c : SecretStateContent) (resp : ClientResponse) (st : Store)
    → get_elem? (st.heap).apis p ≡ some a
    → get_elem? (st.heap).contents q ≡ some c
    → set_client_id p q resp st ≡ (ok tt, written p q a c resp.client_id st)
unfolding set_client_id ◌>>=◌ read_api read_content write_api write_content
set_client_id-written p q a c resp st e₁ e₂ = rw (e₁, e₂) refl

module _ (x : External) (laws : KeepsValidity x) (crypto : CryptoService) (context : Context)
    (config : Config) (s : ClientState) where
  -- The commands of a creation and the objects that their pointers lead to.
  pub record IsCreation (cs : CommandList) (st' : Store) : Type 0 where
    pub place : ℕ
    pub content_place : ℕ
    pub private : Jwks
    pub public : Jwks
    pub jwk : Option Jwk
    pub half : to_public x (some private) ≡ ok public
    pub first : first_key private.keys ≡ ok jwk
    pub commands :
        cs
        ≡ record {
          action = create_client_in_api place;
          callback = some (set_client_id place content_place);
        }
          ∷ plain (update_secret_content content_place)
          ∷ []
    pub api :
        get_elem? (st'.heap).apis place
        ≡ some (record { client_id = ""; req = some (build_api_req context s); jwks = some public })
    pub content :
        get_elem? (st'.heap).contents content_place ≡ some (output context config s "" private jwk)

  creation-IsCreation : (st : Store) → Ensures (creation x crypto context config s) st IsCreation
  unfolding creation
  creation-IsCreation st =
      Ensures-bind _ _ st (Ensures-on_env _ st (fresh_jwks-Ensures x laws crypto s st.env))
        λ made st₁ (pair, _). Ensures-bind _ _ st₁ (Ensures-new_api _ st₁) λ p st₂ (at₂, _).
          Ensures-bind _ _ st₂ (Ensures-lift _ st₂) λ jwk st₃ (first, same).
            Ensures-bind _ _ st₃ (Ensures-new_content _ st₃) λ q st₄ (at₄, more).
              Ensures-pure _ st₄ _ (record {
                place = p;
                content_place = q;
                private = made.0;
                public = made.1;
                jwk = jwk;
                half = pair.half;
                first = first;
                commands = refl;
                api = more.keeps_api p _ (ap (λ (t : Store). get_elem? (t.heap).apis p) same ∙ at₂);
                content = at₄;
              })

  pub reconcile-IsCreation :
      (cs : CommandList) (st st' : Store)
      → (s.crd).deletion_timestamp ≡ none
      → s.api ≡ none
      → reconcile x crypto context config s st ≡ (ok cs, st')
      → IsCreation cs st'
  unfolding reconcile
  reconcile-IsCreation cs st st' alive absent e = (creation-IsCreation st).returns cs st' (
      sym (
        ap (λ (d : Option Time). by_deletion x crypto context config s d st) alive
        ∙ ap (λ (a : Option ApiState). by_api x crypto context config s a st) absent)
      ∙ e)

  -- When there is no client and the resource is not being deleted, the first command of a
  -- reconciliation that succeeds has a callback. Run with a response, it succeeds, and then the
  -- commands stand for the creation of a client with a public set of keys and, after it, for
  -- writing to the secret the private set that it is the public half of, both under the client ID of the response.
  pub reconcile-set_client_id :
      (cs : CommandList) (st st' : Store) (resp : ClientResponse)
      → (s.crd).deletion_timestamp ≡ none
      → s.api ≡ none
      → reconcile x crypto context config s st ≡ (ok cs, st')
      → (callback : ClientResponse → Exec Store (Unit {0})) × (after : Store) × (private
          public : Jwks)
        × (jwk : Option Jwk) × (first_callback cs ≡ some callback)
        × (callback resp st' ≡ (ok tt, after))
        × (to_public x (some private) ≡ ok public)
        × (first_key private.keys ≡ ok jwk)
        × (describe after.heap cs
            ≡ some (
                create (record {
                  client_id = resp.client_id;
                  req = some (build_api_req context s);
                  jwks = some public;
                })
                ∷ write (output context config s resp.client_id private jwk)
                ∷ []))
  reconcile-set_client_id cs st st' resp alive absent e =
      let h = reconcile-IsCreation cs st st' alive absent e in
      let a : ApiState = record {
        client_id = "";
        req = some (build_api_req context s);
        jwks = some h.public;
      } in
      let c = output context config s "" h.private h.jwk in
      (
        set_client_id h.place h.content_place,
        written h.place h.content_place a c resp.client_id st',
        h.private,
        h.public,
        h.jwk,
        ap first_callback h.commands,
        set_client_id-written h.place h.content_place a c resp st' h.api h.content,
        h.half,
        h.first,
        ap (describe ((written h.place h.content_place a c resp.client_id st').heap)) h.commands
            ∙ ap₂ cons?
                (ap (Option.map create) (
                  get_elem?-set_self (st'.heap).apis h.place a
                    (record a { client_id = resp.client_id }) h.api))
                (ap₂ cons?
                  (ap (Option.map write) (
                    get_elem?-set_self (st'.heap).contents h.content_place c
                      (record c { client_id = resp.client_id }) h.content))
                  refl),
      )
