-- ===== src/Maskinporten/Http/Tokens.antt =====
-- The cached calls of internal/maskinporten/http_api_client.go: the configuration of the authority,
-- the access token, and the requests that carry it. A call of `Get` of a cache runs alone here.
use altinn_k8s_operator.Base.{◌+◌, ◌*◌, String, ◌<>◌, Option, none, some, [], ◌∷◌}
use altinn_k8s_operator.Base.Exec.{Exec, pure, lift, ◌>>=◌, wrapping}
use altinn_k8s_operator.Time.{Time, second}
use altinn_k8s_operator.Caching.{CachedAtom, read_section, write_section}
use altinn_k8s_operator.Crypto.Types.{External}
use altinn_k8s_operator.Crypto.Jwt.{Jose}
use altinn_k8s_operator.Crypto.Jwt.NewJwt.{new_jwt}
use altinn_k8s_operator.Maskinporten.Http.{
  HttpRequest, set_header, WellKnownResponse, TokenResponse, Network, ApiCodec, HttpApiClient,
  Session, on_network, pointer,
}
use altinn_k8s_operator.Maskinporten.Http.Send.{deserialize, expect}

module _ {W : Type 0} (n : Network W) where
  -- http.NewRequestWithContext
  unfoldable pub new_request : String → String → Option String → Exec (Session W) HttpRequest
  new_request method url body = do
    checked ← lift (n.check_request method url)
    pure (record { method = method; url = url; headers = []; body = body })

  module _ {T : Type 0} (atom : Session W → CachedAtom T)
      (with_atom : CachedAtom T → Session W → Session W)
      (retriever : Exec (Session W) (Option T)) where
    unfoldable pub refill : Time → Exec (Session W) (Option T)
    unfolding write_section
    refill now s = let (r, a, s') = write_section retriever (atom s) now s in (r, with_atom a s')

    -- The result of the section under the read lock, or the section under the write lock.
    unfoldable pub found_or_refill : Option (Option T) → Exec (Session W) (Option T)
    unfolding refill
    found_or_refill (some value) = pure value
    found_or_refill none = do now ← on_network n.now; refill now

    -- A call of `Get` of the cache, which reads the clock in each of its sections.
    unfoldable pub get_atom : Exec (Session W) (Option T)
    unfolding found_or_refill
    get_atom = do
      now ← on_network n.now
      found ← (λ s. pure (read_section (atom s) now) s)
      found_or_refill found

  module _ (codec : ApiCodec) (c : HttpApiClient) where
    unfoldable pub well_known_fetcher : Exec (Session W) (Option WellKnownResponse)
    unfolding new_request
    well_known_fetcher = do
      endpoint ←
          lift (n.join_path c.config.authority_url ("/.well-known/oauth-authorization-server" ∷ []))
      req ← new_request "GET" endpoint none
      resp ← on_network (expect n c 200 req)
      well_known ← lift (deserialize codec.read_well_known resp)
      pure (some well_known)

    unfoldable pub get_well_known_configuration : Exec (Session W) (Option WellKnownResponse)
    unfolding get_atom
    get_well_known_configuration =
        get_atom (λ s. s.well_known) (λ a s. record s { well_known = a }) well_known_fetcher

    module _ (jose : Jose) (x : External) where
      unfoldable pub create_grant : Exec (Session W) String
      create_grant = do
        known ← get_well_known_configuration
        well_known ← lift (pointer known)
        now ← on_network n.now
        on_network (
            new_jwt jose x n.now n.new_id (some c.jwk) (well_known.issuer ∷ []) c.config.client_id
              c.config.scope (now + 60 * second))

      unfoldable pub access_token_fetcher : Exec (Session W) (Option TokenResponse)
      unfolding create_grant
      access_token_fetcher = do
        grant ← create_grant
        endpoint ← lift (n.join_path c.config.authority_url ("/token" ∷ []))
        let values =
            ("grant_type", "urn:ietf:params:oauth:grant-type:jwt-bearer")
            ∷ ("assertion", grant)
            ∷ []
        req ← new_request "POST" (endpoint <> ("?" <> n.encode_values values)) none
        resp ←
            on_network
              (expect n c 200 (set_header "Content-Type" "application/x-www-form-urlencoded" req))
        token ← lift (deserialize codec.read_token resp)
        pure (some token)

      unfoldable pub get_access_token : Exec (Session W) (Option TokenResponse)
      unfolding get_atom
      get_access_token =
          get_atom (λ s. s.access_token) (λ a s. record s { access_token = a }) access_token_fetcher

      -- A request with the access token.
      unfoldable pub create_req : String → String → Option String → Exec (Session W) HttpRequest
      unfolding set_header
      create_req url method body = do
        token ← wrapping "failed to get access token" get_access_token
        response ← lift (pointer token)
        req ← wrapping "failed to create new request" (new_request method url body)
        pure (set_header "Authorization" ("Bearer " <> response.access_token) req)
