-- ===== src/Maskinporten/ClientState/Hydrated.antt =====
-- What NewClientState puts into a state.
use altinn_k8s_operator.Base.{
  String, ◌≡◌, refl, sym, ◌≢◌, Bool, true, false, ◌&&◌, not, Option, none, some, ok, ok_injective,
  Error, fail_if, >>=-eq-ok, is_some, ◌==◌, eq_iff,
}
use mathlib.Core.Path.{subst}
use altinn_k8s_operator.Base.Text.Split.{split_on}
use altinn_k8s_operator.Crypto.Jwks.{Jwks}
use altinn_k8s_operator.Crd.{MaskinportenClient, Secret}
use altinn_k8s_operator.Maskinporten.Dto.{ClientResponse}
use altinn_k8s_operator.Maskinporten.Dto.Convert.{map_client_response_to_add_request}
use altinn_k8s_operator.Maskinporten.Secret.{SecretStateContent}
use altinn_k8s_operator.Maskinporten.ClientState.{
  ApiState, ClientState, app_id_of, with_api, new_client_state,
}

-- The client of a state is the one of the API, and has an ID; without a client there are no keys.
abbrev pub IsClient : Option ClientResponse → Option Jwks → Option ApiState → Type 0
IsClient none jwks o = (jwks ≡ none) × (o ≡ none)
IsClient (some api) jwks o =
    (api.client_id ≢ "")
    × (o
        ≡ some (record {
          client_id = api.client_id;
          req = some (map_client_response_to_add_request api);
          jwks = jwks;
        }))

pub record IsHydrated (crd : MaskinportenClient) (api : Option ClientResponse) (jwks : Option Jwks)
    (secret : Option Secret) (content : Option SecretStateContent) (s : ClientState) : Type 0 where
  pub resource : s.crd ≡ crd
  pub manifest : secret ≡ some (s.secret).manifest
  pub held : (s.secret).content ≡ content
  pub app : app_id_of crd.name (split_on b'-' crd.name) ≡ ok s.app_id
  pub client : IsClient api jwks s.api

fail_if-eq-ok : (b : Bool) (e : Error) (u : Unit {0}) → fail_if b e ≡ ok u → b ≡ false
fail_if-eq-ok false e u h = refl
fail_if-eq-ok true e u h = cc

no_jwks : (jwks : Option Jwks) → (true && is_some jwks) ≡ false → jwks ≡ none
no_jwks none e = refl
no_jwks (some j) e = cc

not_empty : (id : String) → (id == "") ≡ false → id ≢ ""
not_empty id e h = cc ((eq_iff id "").1 h, e)

-- The state that is built, by its client.
abbrev state_of :
    String → MaskinportenClient → Secret → Option SecretStateContent → Option ApiState → ClientState
state_of app crd secret content api = record {
  app_id = app;
  crd = crd;
  api = api;
  secret = record { content = content; manifest = secret };
}

with_api-IsClient :
    (api : Option ClientResponse) (jwks : Option Jwks) (app : String) (crd : MaskinportenClient)
    (secret : Secret) (content : Option SecretStateContent) (s : ClientState)
    → (not (is_some api) && is_some jwks) ≡ false
    → with_api api jwks (state_of app crd secret content none) ≡ ok s
    → (o : Option ApiState) × (s ≡ state_of app crd secret content o) × IsClient api jwks o
with_api-IsClient none jwks app crd secret content s checked e =
    (none, sym (ok_injective e), (no_jwks jwks checked, refl))
with_api-IsClient (some api) jwks app crd secret content s checked e =
    let (u, named, rest) = >>=-eq-ok (fail_if (api.client_id == "") _) _ e in
    (
      _,
      sym (ok_injective rest),
      (not_empty api.client_id (fail_if-eq-ok (api.client_id == "") _ u named), refl),
    )

IsHydrated-of :
    (crd : MaskinportenClient) (api : Option ClientResponse) (jwks : Option Jwks) (secret : Secret)
    (content : Option SecretStateContent) (app : String) (o : Option ApiState)
    → app_id_of crd.name (split_on b'-' crd.name) ≡ ok app
    → IsClient api jwks o
    → IsHydrated crd api jwks (some secret) content (state_of app crd secret content o)
IsHydrated-of crd api jwks secret content app o named client = record {
  resource = refl;
  manifest = refl;
  held = refl;
  app = named;
  client = client;
}

-- A call of NewClientState succeeds only if there are a resource, whose name has a second part
-- between dashes, and a secret, and if there are no keys without a client and no client without an
-- ID. The state then holds the resource, the secret, its content, the app's ID, and the client
-- with its keys and with the request that the response is mapped to.
pub new_client_state-IsHydrated :
    (resource : Option MaskinportenClient) (api : Option ClientResponse) (jwks : Option Jwks)
    (secret : Option Secret) (content : Option SecretStateContent) (s : ClientState)
    → new_client_state resource api jwks secret content ≡ ok s
    → (crd : MaskinportenClient) × (resource ≡ some crd) × IsHydrated crd api jwks secret content s
unfolding new_client_state
new_client_state-IsHydrated none api jwks secret content s e = cc
new_client_state-IsHydrated (some crd) api jwks none content s e = cc
new_client_state-IsHydrated (some crd) api jwks (some secret) content s e =
    let (u, checked, rest) = >>=-eq-ok (fail_if (not (is_some api) && is_some jwks) _) _ e in
    let (app, named, rest₂) = >>=-eq-ok (app_id_of crd.name (split_on b'-' crd.name)) _ rest in
    let (o, built, client) =
      with_api-IsClient api jwks app crd secret content s (fail_if-eq-ok _ _ u checked) rest₂ in
    (
      crd,
      refl,
      subst (λ (t : ClientState). IsHydrated crd api jwks (some secret) content t) (sym built)
          (IsHydrated-of crd api jwks secret content app o named client),
    )
