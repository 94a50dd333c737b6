-- ===== src/Maskinporten/Http/Requests/Tokens.antt =====
-- The requests to the authority, and the headers of a request with a token:
-- internal/maskinporten/http_api_client.go.
use altinn_k8s_operator.Base.{ℕ, ◌≡◌, refl, String, ◌<>◌, Option, none, List, [], ◌∷◌, inl, inr}
use altinn_k8s_operator.Base.Exec.Keeps.{
  Keeps, Keeps-pure, Keeps-lift, Keeps-bind, Keeps-wrapping, Keeps-weaken, Keeps-any,
}
use altinn_k8s_operator.Base.Map.{lookup, insert}
use altinn_k8s_operator.Time.{Time}
use altinn_k8s_operator.Crypto.Jwks.{Jwk}
use altinn_k8s_operator.Crypto.Types.{External}
use altinn_k8s_operator.Crypto.Jwt.{Jose}
use altinn_k8s_operator.Crypto.Jwt.NewJwt.{new_jwt}
use altinn_k8s_operator.Maskinporten.Http.{
  HttpRequest, set_header, Network, ApiCodec, HttpApiClient, on_network,
}
use altinn_k8s_operator.Maskinporten.Http.Send.{expect}
use altinn_k8s_operator.Maskinporten.Http.Tokens.{
  new_request, well_known_fetcher, get_well_known_configuration, create_grant, access_token_fetcher,
  get_access_token, create_req,
}
use altinn_k8s_operator.Maskinporten.Http.Retry.{Retries}
use altinn_k8s_operator.Maskinporten.Http.Requests.{
  IsForAuthority, IsInvariant, IsReady, OnWorld, IsReady-of, Keeps-expect, Keeps-on_network,
  Keeps-get_atom,
}

abbrev pub MadeFor : String → HttpRequest → Type 0
MadeFor url req = (req.url ≡ url) × (req.headers ≡ [])

-- A request with the token, before other headers are set.
abbrev pub Authorized : HttpRequest → Type 0
Authorized req =
    (token : String) × (req.headers ≡ ("Authorization", ("Bearer " <> token) ∷ []) ∷ [])

module _ {W : Type 0} (n : Network W) (codec : ApiCodec) (c : HttpApiClient) (jose : Jose)
    (x : External) (Waited : W → W → Type 0) (I : W → Type 0) (law : Retries Waited n)
    (inv : IsInvariant n c Waited I) where
  Keeps-new_request :
      (method url : String) (body : Option String)
      → Keeps (OnWorld I) (new_request n method url body) (MadeFor url)
  unfolding new_request
  Keeps-new_request method url body =
      Keeps-bind (OnWorld I) _ _ (Keeps-lift (OnWorld I) _)
        λ checked passed. Keeps-pure (OnWorld I) _ _ (refl, refl)

  pub Keeps-expect_session :
      (status : ℕ) (req : HttpRequest)
      → IsReady n c req
      → Keeps (OnWorld I) (on_network (expect n c status req)) (λ a. Unit {0})
  Keeps-expect_session status req ready =
      Keeps-on_network I _ (Keeps-expect n c Waited I law inv status req ready)

  Authorized-of :
      (req : HttpRequest) (token : String)
      → req.headers ≡ []
      → Authorized (set_header "Authorization" ("Bearer " <> token) req)
  unfolding set_header insert
  Authorized-of req token bare = (token, rw bare refl)

  -- A request for the authority, with or without a content type.
  authority-IsReady :
      (url : String) (req : HttpRequest)
      → MadeFor url req
      → IsForAuthority n c url
      → IsReady n c req
  unfolding lookup
  authority-IsReady url req (at, bare) authority =
      IsReady-of n c req (rw bare refl) (inr (rw at authority))

  typed-IsReady :
      (url : String) (req : HttpRequest)
      → MadeFor url req
      → IsForAuthority n c url
      → IsReady n c (set_header "Content-Type" "application/x-www-form-urlencoded" req)
  unfolding lookup insert set_header
  typed-IsReady url req (at, bare) authority =
      IsReady-of n c (set_header "Content-Type" "application/x-www-form-urlencoded" req)
        (rw bare refl) (inr (rw at authority))

  Keeps-well_known_fetcher : Keeps (OnWorld I) (well_known_fetcher n codec c) (λ a. Unit {0})
  unfolding well_known_fetcher
  Keeps-well_known_fetcher =
      Keeps-bind (OnWorld I) _ _ (Keeps-lift (OnWorld I) _) λ endpoint joined.
        Keeps-bind (OnWorld I) _ _ (Keeps-new_request "GET" endpoint none) λ req made.
          Keeps-bind (OnWorld I) _ _
            (Keeps-expect_session 200 req
              (authority-IsReady endpoint req made (inl (endpoint, joined, refl))))
            λ resp answered.
              Keeps-bind (OnWorld I) _ _ (Keeps-lift (OnWorld I) _)
                λ well_known decoded. Keeps-pure (OnWorld I) _ _ tt

  pub Keeps-get_well_known_configuration :
      Keeps (OnWorld I) (get_well_known_configuration n codec c) (λ a. Unit {0})
  unfolding get_well_known_configuration
  Keeps-get_well_known_configuration =
      Keeps-get_atom n I _ (λ a s. record s { well_known = a }) _ (λ a s. refl) inv.reads_clock
        Keeps-well_known_fetcher

  Keeps-new_jwt :
      (jwk : Option Jwk) (audience : List String) (issuer scope : String) (expiry : Time)
      → Keeps I (new_jwt jose x n.now n.new_id jwk audience issuer scope expiry) (λ a. Unit {0})
  unfolding new_jwt
  Keeps-new_jwt jwk audience issuer scope expiry = Keeps-bind I _ _ (Keeps-lift I _) λ public known.
      Keeps-bind I _ _ (Keeps-lift I _) λ checked passed.
        Keeps-bind I _ _ (Keeps-any I n.now inv.reads_clock) λ issued read.
          Keeps-bind I _ _ (Keeps-any I n.new_id inv.makes_id)
            λ id made. Keeps-weaken I _ (Keeps-lift I _) λ a e. tt

  Keeps-create_grant : Keeps (OnWorld I) (create_grant n codec c jose x) (λ a. Unit {0})
  unfolding create_grant
  Keeps-create_grant = Keeps-bind (OnWorld I) _ _ Keeps-get_well_known_configuration λ known got.
      Keeps-bind (OnWorld I) _ _ (Keeps-lift (OnWorld I) _) λ well_known read.
        Keeps-bind (OnWorld I) _ _ (Keeps-on_network I _ (Keeps-any I n.now inv.reads_clock))
          λ now done. Keeps-on_network I _ (Keeps-new_jwt _ _ _ _ _)

  Keeps-access_token_fetcher :
      Keeps (OnWorld I) (access_token_fetcher n codec c jose x) (λ a. Unit {0})
  unfolding access_token_fetcher
  Keeps-access_token_fetcher = Keeps-bind (OnWorld I) _ _ Keeps-create_grant λ grant signed.
      Keeps-bind (OnWorld I) _ _ (Keeps-lift (OnWorld I) _) λ endpoint joined.
        Keeps-bind (OnWorld I) _ _ (Keeps-new_request "POST" _ none) λ req made.
          Keeps-bind (OnWorld I) _ _
            (Keeps-expect_session 200 _
              (typed-IsReady _ req made (inr (endpoint, _, joined, refl))))
            λ resp answered.
              Keeps-bind (OnWorld I) _ _ (Keeps-lift (OnWorld I) _)
                λ token decoded. Keeps-pure (OnWorld I) _ _ tt

  pub Keeps-get_access_token : Keeps (OnWorld I) (get_access_token n codec c jose x) (λ a. Unit {0})
  unfolding get_access_token
  Keeps-get_access_token =
      Keeps-get_atom n I _ (λ a s. record s { access_token = a }) _ (λ a s. refl) inv.reads_clock
        Keeps-access_token_fetcher

  pub Keeps-create_req :
      (url method : String) (body : Option String)
      → Keeps (OnWorld I) (create_req n codec c jose x url method body) Authorized
  unfolding create_req
  Keeps-create_req url method body =
      Keeps-bind (OnWorld I) _ _ (Keeps-wrapping (OnWorld I) _ _ Keeps-get_access_token)
        λ token got. Keeps-bind (OnWorld I) _ _ (Keeps-lift (OnWorld I) _) λ response read.
          Keeps-bind (OnWorld I) _ _
            (Keeps-wrapping (OnWorld I) _ _ (Keeps-new_request method url body))
            λ req made. Keeps-pure (OnWorld I) _ _ (Authorized-of req response.access_token made.1)
