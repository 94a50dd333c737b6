-- ===== src/Fakes/Handlers/Token.antt =====
-- The token endpoint and the well-known document of cmd/maskinporten_fakes/main.go.
use altinn_k8s_operator.Base.{
  String, ◌==◌, not, Bool, true, false, Option, none, some, List, [], ◌∷◌, Result, ok, err, crash,
  if◌then◌else◌,
}
use altinn_k8s_operator.Base.Exec.{Exec, pure, lift, ◌>>=◌, handle}
use altinn_k8s_operator.Base.Int.{pos}
use altinn_k8s_operator.Crypto.Types.{External}
use altinn_k8s_operator.Crypto.Jwks.{Jwk, key_id}
use altinn_k8s_operator.Crypto.Jwt.{
  Jose, Jwt, Claims, contains, parse_jwt, decode_claims, key_id as token_key_id,
  signature_algorithms,
}
use altinn_k8s_operator.Maskinporten.Http.{HttpRequest}
use altinn_k8s_operator.Fakes.Db.{ClientRecord}
use altinn_k8s_operator.Fakes.State.{State, Stamps, get_db}
use altinn_k8s_operator.Fakes.Handlers.{
  Answer, only_status, reply, WireCodec, token_response, well_known, run_id_of, values,
}
use altinn_k8s_operator.Fakes.Handlers.Clients.{or_bad_request}

abbrev if_key : String → Result Bool → Result String → Result Bool
if_key kid rest (ok id) = if id == kid then ok true else rest
if_key kid rest (err e) = err e
if_key kid rest (crash m) = crash m

-- The loop of the predicate of the query; the ID of a nil key panics.
unfoldable pub has_key : String → List (Option Jwk) → Result Bool
has_key kid [] = ok false
has_key kid (jwk ∷ keys) = let rest = has_key kid keys in if_key kid rest (key_id jwk)

abbrev pub knows_key : String → ClientRecord → Result Bool
knows_key kid r = elim r.jwks [ none ↦ ok false | some jwks ↦ has_key kid jwks.keys ]

abbrev keep_if :
    ClientRecord → Result Bool → Result (List ClientRecord) → Result (List ClientRecord)
keep_if r (ok b) (ok rest) = ok (if b then r ∷ rest else rest)
keep_if r (err e) rest = err e
keep_if r (crash m) rest = crash m
keep_if r (ok b) (err e) = err e
keep_if r (ok b) (crash m) = crash m

-- The loop of Query at this predicate.
unfoldable pub clients_with_key : String → List ClientRecord → Result (List ClientRecord)
unfolding has_key
clients_with_key kid [] = ok []
clients_with_key kid (r ∷ rs) =
    let rest = clients_with_key kid rs in keep_if r (knows_key kid r) rest

-- client.Jwks.Keys[0]
abbrev pub first_key_of : ClientRecord → Result (Option Jwk)
first_key_of r = elim r.jwks [
  | none ↦ crash "invalid memory address or nil pointer dereference"
  | some jwks ↦ elim jwks.keys [ [] ↦ crash "index out of range" | jwk ∷ keys ↦ ok jwk ]
]

-- The loop over the requested scopes.
unfoldable pub has_all_scopes : Option (List String) → List String → Bool
unfolding contains
has_all_scopes held [] = true
has_all_scopes held (scope ∷ scopes) =
    let rest = has_all_scopes held scopes in if contains (values held) scope then rest else false

module _ (wire : WireCodec) (stamps : Stamps) (read_jwk : String → Result Jwk) (x : External)
    (jose : Jose) where
  -- The answer for the claims and scopes of an accepted token.
  unfoldable pub grant_token : ClientRecord → List String → Exec State Answer
  grant_token client scopes =
      handle
        (lift (wire.marshal_token (record { scopes = some scopes; client_id = client.client_id })))
        (λ e. pure (only_status 500))
        (λ json. lift (
          reply 500 (
            wire.encode (
              token_response (record {
                access_token = wire.base64_encode json;
                token_type = "Bearer";
                expires_in = pos 120;
                scope = wire.join scopes;
              })))))

  unfoldable pub check_claims : ClientRecord → Claims → Exec State Answer
  check_claims client claims =
      if claims.issuer == ""
      then pure (only_status 400)
      else if not (claims.issuer == client.client_id)
      then pure (only_status 400)
      else if claims.scope == ""
      then pure (only_status 400)
      else if has_all_scopes client.client.scopes (wire.fields claims.scope)
      then grant_token client (wire.fields claims.scope)
      else pure (only_status 400)

  -- The only client that has the key.
  abbrev pub for_client : Jwt → List ClientRecord → Exec State Answer
  for_client token (client ∷ []) = do
    jwk ← lift (first_key_of client)
    or_bad_request (lift (decode_claims jose token jwk)) (check_claims client)
  for_client token _ = pure (only_status 400)

  unfoldable pub check_assertion : HttpRequest → String → Exec State Answer
  check_assertion req assertion = or_bad_request (lift (parse_jwt jose assertion)) (λ token. do
    kid ← lift (token_key_id token)
    (if kid == "" then pure (only_status 400) else (do
      db ← get_db stamps read_jwk x (run_id_of req)
      clients ← lift (clients_with_key kid db.clients)
      for_client token clients)))

  unfoldable pub handle_token : HttpRequest → Exec State Answer
  handle_token req =
      if not (req.method == "POST")
      then pure (only_status 404)
      else if not
          (wire.query_get req.url "grant_type" == "urn:ietf:params:oauth:grant-type:jwt-bearer")
      then pure (only_status 400)
      else if wire.query_get req.url "assertion" == ""
      then pure (only_status 400)
      else check_assertion req (wire.query_get req.url "assertion")

  unfoldable pub handle_well_known : HttpRequest → Result Answer
  handle_well_known req =
      if not (req.method == "GET")
      then ok (only_status 404)
      else reply 500 (
          wire.encode (
            well_known (record {
              issuer = "http://localhost:8050";
              token_endpoint = "http://localhost:8050/token";
              jwks_uri = "http://localhost:8050/jwks";
              token_endpoint_auth_methods_supported = some ("private_key_jwt" ∷ []);
              grant_types_supported = some ("urn:ietf:params:oauth:grant-type:jwt-bearer" ∷ []);
              token_endpoint_auth_signing_alg_values_supported = some signature_algorithms;
            })))
