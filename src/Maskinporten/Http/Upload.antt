-- ===== src/Maskinporten/Http/Upload.antt =====
-- The keys that internal/maskinporten/http_api_client.go uploads: CreateClientJwks and CreateClient.
use altinn_k8s_operator.Base.{
  ◌≡◌, refl, sym, ◌≢◌, String, ◌==◌, Bool, true, false, Option, some, List, [], ◌∷◌, All, Member,
  Result, ok, err, Error, crash, Bool-cases, inl, inr,
}
use mathlib.Core.Path.{subst}
use altinn_k8s_operator.Base.Exec.{Exec, continue, ◌>>=◌}
use altinn_k8s_operator.Base.Exec.Ensures.{Ensures}
use altinn_k8s_operator.Crypto.Types.{External}
use altinn_k8s_operator.Crypto.Jwks.{Jwk, Jwks, is_public}
use altinn_k8s_operator.Crypto.Jwt.{Jose}
use altinn_k8s_operator.Maskinporten.Dto.{AddClientRequest, ClientResponse}
use altinn_k8s_operator.Maskinporten.Http.{
  HttpRequest, HttpResponse, Network, ApiCodec, HttpApiClient, Session, on_network,
}
use altinn_k8s_operator.Maskinporten.Http.Send.{expect}
use altinn_k8s_operator.Maskinporten.Http.Clients.{
  check_public, if_public, create_client_jwks, upload_jwks, clients_path, authorized, sends_json,
}

if_public_ok :
    (id : String) (rest : Result (Unit {0})) (b : Result Bool)
    → if_public id rest b ≡ ok tt
    → (b ≡ ok true) × (rest ≡ ok tt)
if_public_ok id rest (ok true) e = (refl, e)
if_public_ok id rest (ok false) e = absurd (let stuck = e in cc)
if_public_ok id rest (err x) e = absurd (let stuck = e in cc)
if_public_ok id rest (crash m) e = absurd (let stuck = e in cc)

check_public-All :
    (x : External) (id : String) (keys : List (Option Jwk))
    → check_public x id keys ≡ ok tt
    → All (λ k. is_public x k ≡ ok true) keys
unfolding check_public
check_public-All x id [] e = tt
check_public-All x id (k ∷ keys) e =
    let (public, rest) = if_public_ok id (check_public x id keys) (is_public x k) e in
    (public, check_public-All x id keys rest)

member_of_All : {A : Type 0} (P : A → Type 0) (a : A) (xs : List A) → All P xs → Member a xs → P a
member_of_All P a [] h m = absurd m
member_of_All P a (x ∷ xs) h (inl same) = subst P (sym same) h.0
member_of_All P a (x ∷ xs) h (inr later) = member_of_All P a xs h.1 later

err-ne-ok : {A : Type 0} (x : Error) (a : A) → err x ≢ ok a
err-ne-ok x a e = absurd (let stuck = e in cc)

crash-ne-ok : {A : Type 0} (m : String) (a : A) → crash m ≢ ok a
crash-ne-ok m a e = absurd (let stuck = e in cc)

-- A call that fails, and leaves the state as it was.
abbrev pub IsRefused : {S A : Type 0} → S → Result A × S → Type 0
IsRefused {A = A} s out = ((a : A) → out.0 ≢ ok a) × (out.1 ≡ s)

refused :
    {S A B : Type 0} (r : Result A) (f : A → Exec S B) (s : S)
    → ((a : A) → r ≢ ok a)
    → IsRefused s (continue r f s)
refused (ok a) f s h = absurd (h a refl)
refused (err e) f s h = (λ a. err-ne-ok e a, refl)
refused (crash m) f s h = (λ a. crash-ne-ok m a, refl)

module _ {W : Type 0} (n : Network W) (codec : ApiCodec) (jose : Jose) (x : External)
    (c : HttpApiClient) where
  -- A set with a key that is not public is not uploaded: CreateClientJwks fails and has neither sent
  -- a request nor read the clock or a cache.
  pub create_client_jwks-IsRefused :
      (id : String) (jwks : Jwks) (k : Option Jwk) (s : Session W)
      → Member k jwks.keys
      → is_public x k ≢ ok true
      → IsRefused s (create_client_jwks n codec jose x c id (some jwks) s)
  unfolding create_client_jwks ◌>>=◌
  create_client_jwks-IsRefused id jwks k s m private = elim (Bool-cases (id == "")) [
    | inl empty ↦ rw empty (λ a. err-ne-ok _ a, refl)
    | inr named ↦ rw named (
        refused (check_public x id jwks.keys) _ s
          λ a e. private (member_of_All _ k jwks.keys (check_public-All x id jwks.keys e) m))
  ]

  -- The requests of a creation that succeeds.
  pub record IsCreated (req : Option AddClientRequest) (keys : Option Jwks) (s : Session W)
      (result : ClientResponse) (s' : Session W) : Type 0 where
    pub jwks : Jwks
    pub given : keys ≡ some jwks
    pub all_public : All (λ k. is_public x k ≡ ok true) jwks.keys
    -- the creation of the client, and its answer
    pub url : String
    pub at_url : n.join_path c.config.self_service_url (clients_path ∷ []) ≡ ok url
    pub body : String
    pub encoded : codec.write_add_request req ≡ ok body
    pub request : HttpRequest
    pub authorized_at : Session W
    pub is_authorized :
        authorized n codec jose x c url "POST" (some body) s ≡ (ok request, authorized_at)
    pub response : HttpResponse
    pub created_at : Session W
    pub is_created :
        on_network (expect n c 200 (sends_json request)) authorized_at ≡ (ok response, created_at)
    pub decoded : codec.read_client response ≡ ok result
    -- then the upload of the keys under the ID of the answer
    pub named : result.client_id ≢ ""
    pub is_uploaded : upload_jwks n codec jose x c result.client_id jwks created_at ≡ (ok tt, s')

  -- The upload of a set, with the checks of CreateClientJwks.
  abbrev Uploaded : String → Jwks → Session W → Session W → Type 0
  Uploaded id jwks s s' =
      (id ≢ "")
      × All (λ k. is_public x k ≡ ok true) jwks.keys
      × (upload_jwks n codec jose x c id jwks s ≡ (ok tt, s'))
