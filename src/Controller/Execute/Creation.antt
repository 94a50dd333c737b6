-- ===== src/Controller/Execute/Creation.antt =====
-- A reconciliation that creates a client, from the state to the cluster and the API.
use altinn_k8s_operator.Base.{
  ℕ, ◌≡◌, refl, ap, ◌∙◌, sym, ◌≢◌, Option, none, some, [], ◌∷◌, ◌++◌, Result, ok, err, crash,
  get_elem?, get_elem?-set_self,
}
use altinn_k8s_operator.Base.Exec.Ensures.{Ensures, Ensures-bind, Ensures-weaken}
use mathlib.Core.Path.{subst}
use altinn_k8s_operator.OperatorContext.{Context}
use altinn_k8s_operator.Config.{Config}
use altinn_k8s_operator.Crd.{Secret}
use altinn_k8s_operator.Crypto.Types.{External, KeepsValidity}
use altinn_k8s_operator.Crypto.Jwks.{Jwk, Jwks, to_public}
use altinn_k8s_operator.Crypto.Service.{CryptoService}
use altinn_k8s_operator.Maskinporten.Dto.{ClientResponse}
use altinn_k8s_operator.Maskinporten.Secret.{
  SecretStateContent, Decodes, deserialize_secret_state_content,
}
use altinn_k8s_operator.Maskinporten.ClientState.{ApiState, ClientState, build_api_req}
use altinn_k8s_operator.Maskinporten.ClientState.Commands.{
  Store, Command, CommandList, create_client_in_api, update_secret_content, set_client_id,
}
use altinn_k8s_operator.Maskinporten.ClientState.Reconcile.{first_key, plain, reconcile}
use altinn_k8s_operator.Maskinporten.ClientState.Reconcile.Plan.{output}
use altinn_k8s_operator.Maskinporten.ClientState.Reconcile.Callback.{
  IsCreation, reconcile-IsCreation, written, set_client_id-written,
}
use altinn_k8s_operator.Controller.{Services, Running, on_store}
use altinn_k8s_operator.Controller.Steps.{Ensures-on_store, Ensures-on_world, Ensures-read_api}
use altinn_k8s_operator.Controller.Execute.{
  execute, execute_all, turn, Outcome, run_commands, reconcile_state,
}
use altinn_k8s_operator.Controller.Execute.Written.{IsWritten, execute-IsWritten}

module _ {W : Type 0} (services : Services W) (manifest : Secret) where
  turn-ok :
      (before : CommandList) (c : Command) (rest : CommandList → Running W → Outcome services)
      (r : Result (Unit {0})) (t : Running W) (done : CommandList) (s' : Running W)
      → turn services before c rest r t ≡ ((done, ok tt), s')
      → (r ≡ ok tt) × (rest (before ++ (c ∷ [])) t ≡ ((done, ok tt), s'))
  turn-ok before c rest (ok tt) t done s' e = (refl, e)
  turn-ok before c rest (err x) t done s' e = cc (ap (λ o. (o.0).1) e)
  turn-ok before c rest (crash m) t done s' e = cc (ap (λ o. (o.0).1) e)

  -- A loop that succeeds has executed its first command, and then the others.
  execute_all-ok :
      (before cs : CommandList) (c : Command) (s : Running W) (done : CommandList) (s' : Running W)
      → execute_all services manifest (c ∷ cs) before s ≡ ((done, ok tt), s')
      → (t : Running W) × (execute services manifest c c.action s ≡ (ok tt, t))
        × (execute_all services manifest cs (before ++ (c ∷ [])) t ≡ ((done, ok tt), s'))
  unfolding execute_all
  execute_all-ok before cs c s done s' e =
      let r = execute services manifest c c.action s in
      let (first, rest) = turn-ok before c (execute_all services manifest cs) r.0 r.1 done s' e in
      (r.1, (λ i. (first i, r.1)), rest)

  -- The execution of a command that creates a client, with its callback.
  create-Ensures :
      (p q : ℕ) (s : Running W)
      → Ensures
          (execute services manifest
            (record { action = create_client_in_api p; callback = some (set_client_id p q) })
            (create_client_in_api p))
          s
          (λ done s'.
            (api : ApiState) × (resp : ClientResponse) × (get_elem? ((s.store).heap).apis p
              ≡ some api)
            × (services.create_client api.req api.jwks s.world ≡ (ok resp, s'.world))
            × (set_client_id p q resp s.store ≡ (ok tt, s'.store)))
  unfolding execute
  create-Ensures p q s = Ensures-bind _ _ s (Ensures-read_api p s) λ api s₁ (found, same).
      Ensures-bind _ _ s₁ (Ensures-on_world _ s₁) λ resp s₂ (sent, kept).
        Ensures-weaken _ s₂ (Ensures-on_store _ s₂) λ done s₃ (called, still). (
          api,
          resp,
          found,
          ap (λ (t : Running W). services.create_client api.req api.jwks t.world) (sym same)
              ∙ (sent ∙ ap (λ (w : W). (ok resp, w)) (sym still)),
          ap (set_client_id p q resp) (sym (kept ∙ ap (λ (t : Running W). t.store) same)) ∙ called,
        )

  some_inj : (cs ds : CommandList) → some cs ≡ some ds → cs ≡ ds
  some_inj cs ds e = cc

  -- Commands that were all executed had been computed.
  run_commands-ok :
      (r : Result CommandList) (t : Running W) (cs : CommandList) (s' : Running W)
      → run_commands services manifest r t ≡ ((some cs, ok tt), s')
      → (commands : CommandList) × (r ≡ ok commands)
        × (execute_all services manifest commands [] t ≡ ((cs, ok tt), s'))
  run_commands-ok (ok commands) t cs s' e = (
    commands,
    refl,
    λ i. (
      (
        some_inj (((execute_all services manifest commands [] t).0).0) cs (ap (λ o. (o.0).0) e) i,
        ((e i).0).1,
      ),
      (e i).1,
    ),
  )
  run_commands-ok (err x) t cs s' e = cc (ap (λ o. (o.0).0) e)
  run_commands-ok (crash m) t cs s' e = cc (ap (λ o. (o.0).0) e)

api_injective : (a b : ApiState) → some a ≡ some b → a ≡ b
api_injective a b e = cc

content_injective : (a b : SecretStateContent) → some a ≡ some b → a ≡ b
content_injective a b e = cc

-- What a creation that succeeded has done: one request for a client, with a public set of keys,
-- and then one update of the secret, which holds the private set and the client's ID.
pub record IsCreated {W : Type 0} (services : Services W) (x : External) (context : Context)
    (config : Config) (current : ClientState) (before after : W) : Type 0 where
  pub response : ClientResponse
  pub private : Jwks
  pub public : Jwks
  pub jwk : Option Jwk
  pub updated : Secret
  pub between : W
  pub half : to_public x (some private) ≡ ok public
  pub first : first_key private.keys ≡ ok jwk
  pub sent :
      services.create_client (some (build_api_req context current)) (some public) before
      ≡ (ok response, between)
  pub named : response.client_id ≢ ""
  pub content :
      deserialize_secret_state_content services.codec (some updated)
      ≡ ok (some (output context config current response.client_id private jwk))
  pub saved : services.update_secret updated between ≡ (ok tt, after)

module _ {W : Type 0} (services : Services W) (laws : Decodes services.codec) (x : External)
    (keeps : KeepsValidity x) (crypto : CryptoService) (context : Context) (config : Config)
    (current : ClientState) where
  -- The objects that the two commands share, before and after the callback.
  abbrev api_before : Jwks → ApiState
  api_before public = record {
    client_id = "";
    req = some (build_api_req context current);
    jwks = some public;
  }

  steps-IsCreated :
      (commands : CommandList) (t t₁ t₂ : Running W)
      (h : IsCreation x keeps crypto context config current commands t.store) (api : ApiState)
      (resp : ClientResponse)
      → get_elem? ((t.store).heap).apis h.place ≡ some api
      → services.create_client api.req api.jwks t.world ≡ (ok resp, t₁.world)
      → set_client_id h.place h.content_place resp t.store ≡ (ok tt, t₁.store)
      → IsWritten services laws h.content_place t₁ t₂
      → IsCreated services x context config current t.world t₂.world
  steps-IsCreated commands t t₁ t₂ h api resp found sent called
        (content, updated, found₂, named, reads, saved, _) =
      let before = output context config current "" h.private h.jwk in
      let after = output context config current resp.client_id h.private h.jwk in
      let same : api ≡ api_before h.public =
        api_injective api (api_before h.public) (sym found ∙ h.api) in
      let store : t₁.store
          ≡ written h.place h.content_place (api_before h.public) before resp.client_id t.store =
        ap (λ r. r.1)
          (sym called
            ∙ set_client_id-written h.place h.content_place (api_before h.public) before resp
                t.store h.api h.content) in
      let told : content ≡ after = content_injective content after (
        sym found₂
        ∙ (ap (λ (st : Store). get_elem? (st.heap).contents h.content_place) store
            ∙ get_elem?-set_self ((t.store).heap).contents h.content_place before after
                h.content)) in
      record {
        response = resp;
        private = h.private;
        public = h.public;
        jwk = h.jwk;
        updated = updated;
        between = t₁.world;
        half = h.half;
        first = h.first;
        sent = ap (λ (a : ApiState). services.create_client a.req a.jwks t.world) (sym same) ∙ sent;
        named = λ empty. named (ap (λ (c : SecretStateContent). c.client_id) told ∙ empty);
        content = reads ∙ ap (λ (c : SecretStateContent). ok (some c)) told;
        saved = saved;
      }

  executed-IsCreated :
      (commands cs : CommandList) (t s' : Running W)
      → IsCreation x keeps crypto context config current commands t.store
      → execute_all services (current.secret).manifest commands [] t ≡ ((cs, ok tt), s')
      → IsCreated services x context config current t.world s'.world
  unfolding execute_all
  executed-IsCreated commands cs t s' h e =
      let manifest = (current.secret).manifest in
      let create : Command = record {
        action = create_client_in_api h.place;
        callback = some (set_client_id h.place h.content_place);
      } in
      let save = plain (update_secret_content h.content_place) in
      let (t₁, e₁, rest) =
        execute_all-ok services manifest [] (save ∷ []) create t cs s'
          (ap (λ (ds : CommandList). execute_all services manifest ds [] t) (sym h.commands) ∙ e) in
      let (t₂, e₂, last) = execute_all-ok services manifest (create ∷ []) [] save t₁ cs s' rest in
      let (api, resp, found, sent, called) =
        (create-Ensures services manifest h.place h.content_place t).returns tt t₁ e₁ in
      subst (λ (u : Running W). IsCreated services x context config current t.world u.world)
        (ap (λ o. o.1) last)
        (steps-IsCreated commands t t₁ t₂ h api resp found sent called
          (execute-IsWritten services laws manifest save h.content_place t₁ t₂ e₂))

  -- When there is no client and the resource is not being deleted, a reconciliation all of whose
  -- commands succeed has asked the API once for a client, with the request for the resource and a
  -- public set of keys, and has then sent the secret to the cluster, once; the secret's content
  -- is read back with the private set that the public set was made from, the first key of it, the
  -- authority, and the client ID of the API's response, which is not empty.
  pub reconcile_state-IsCreated :
      (cs : CommandList) (s s' : Running W)
      → (current.crd).deletion_timestamp ≡ none
      → current.api ≡ none
      → reconcile_state services x crypto context config current s ≡ ((some cs, ok tt), s')
      → IsCreated services x context config current s.world s'.world
  unfolding reconcile_state
  reconcile_state-IsCreated cs s s' alive absent e =
      let m = on_store (reconcile x crypto context config current) in
      let (commands, computed, executed) =
        run_commands-ok services (current.secret).manifest (m s).0 (m s).1 cs s' e in
      let (made, kept) =
        (Ensures-on_store (reconcile x crypto context config current) s).returns commands (m s).1
          (λ i. (computed i, (m s).1)) in
      subst (λ (w : W). IsCreated services x context config current w s'.world) kept
        (executed-IsCreated commands cs (m s).1 s'
          (reconcile-IsCreation x keeps crypto context config current commands s.store
            ((m s).1).store alive absent made)
          executed)
