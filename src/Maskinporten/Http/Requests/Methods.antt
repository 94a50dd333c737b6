-- ===== src/Maskinporten/Http/Requests/Methods.antt =====
-- The methods of internal/maskinporten/http_api_client.go that the controller calls: no request
-- leaves without the ID of the run, and none leaves for the self-service API without a token.
use altinn_k8s_operator.Base.{ℕ, refl, String, Option, some, List, [], ◌∷◌, inl}
use altinn_k8s_operator.Base.Exec.{Exec, ◌>>=◌}
use altinn_k8s_operator.Base.Exec.Keeps.{
  Keeps, Keeps-pure, Keeps-lift, Keeps-bind, Keeps-wrapping, Keeps-weaken,
}
use altinn_k8s_operator.Base.Map.{lookup, insert}
use altinn_k8s_operator.Crypto.Types.{External}
use altinn_k8s_operator.Crypto.Jwks.{Jwks}
use altinn_k8s_operator.Crypto.Jwt.{Jose}
use altinn_k8s_operator.Maskinporten.Dto.{AddClientRequest, UpdateClientRequest}
use altinn_k8s_operator.Maskinporten.Http.{
  HttpRequest, HttpResponse, set_header, Network, ApiCodec, HttpApiClient, Session, on_network,
}
use altinn_k8s_operator.Maskinporten.Http.Send.{expect}
use altinn_k8s_operator.Maskinporten.Http.Tokens.{create_req}
use altinn_k8s_operator.Maskinporten.Http.Clients.{
  accepts_json, sends_json, get_all_clients, get_client, get_client_jwks, create_client,
  update_client, upload_jwks, create_client_jwks, delete_client,
}
use altinn_k8s_operator.Maskinporten.Http.Retry.{Retries}
use altinn_k8s_operator.Maskinporten.Http.Requests.{IsInvariant, IsReady, OnWorld, IsReady-of}
use altinn_k8s_operator.Maskinporten.Http.Requests.Tokens.{
  Authorized, Keeps-expect_session, Keeps-create_req,
}

module _ {W : Type 0} (n : Network W) (c : HttpApiClient) where
  plain-IsReady : (req : HttpRequest) → Authorized req → IsReady n c req
  unfolding lookup
  plain-IsReady req (token, h) = IsReady-of n c req (rw h refl) (inl (token, rw h refl))

  accepts-IsReady : (req : HttpRequest) → Authorized req → IsReady n c (accepts_json req)
  unfolding lookup insert set_header
  accepts-IsReady req (token, h) =
      IsReady-of n c (accepts_json req) (rw h refl) (inl (token, rw h refl))

  sends-IsReady : (req : HttpRequest) → Authorized req → IsReady n c (sends_json req)
  unfolding lookup insert set_header
  sends-IsReady req (token, h) =
      IsReady-of n c (sends_json req) (rw h refl) (inl (token, rw h refl))

-- The calls that the controller makes, and the state after them.
pub data Call : Type 0 where
  all_clients : Call
  one_client : String → Call
  creation : Option AddClientRequest → Option Jwks → Call
  update : String → UpdateClientRequest → Call
  upload : String → Option Jwks → Call
  removal : String → Call

module _ {W : Type 0} (n : Network W) (codec : ApiCodec) (jose : Jose) (x : External)
    (c : HttpApiClient) where
  abbrev pub after : Call → Session W → Session W
  after all_clients s = (get_all_clients n codec jose x c s).1
  after (one_client id) s = (get_client n codec jose x c id s).1
  after (creation req keys) s = (create_client n codec jose x c req keys s).1
  after (update id req) s = (update_client n codec jose x c id req s).1
  after (upload id keys) s = (create_client_jwks n codec jose x c id keys s).1
  after (removal id) s = (delete_client n codec jose x c id s).1

  abbrev pub after_all : List Call → Session W → Session W
  after_all [] s = s
  after_all (call ∷ calls) s = after_all calls (after call s)

module _ {W : Type 0} (n : Network W) (codec : ApiCodec) (c : HttpApiClient) (jose : Jose)
    (x : External) (Waited : W → W → Type 0) (I : W → Type 0) (law : Retries Waited n)
    (inv : IsInvariant n c Waited I) where
  -- A request with the token, and what follows its answer.
  Keeps-request :
      {A : Type 0} (url method : String) (body : Option String)
      (headers : HttpRequest → HttpRequest) (status : ℕ) (rest : HttpResponse → Exec (Session W) A)
      → ((req : HttpRequest) → Authorized req → IsReady n c (headers req))
      → ((resp : HttpResponse) → Keeps (OnWorld I) (rest resp) (λ a. Unit {0}))
      → Keeps
          (OnWorld I)
          (create_req n codec c jose x url method body >>= λ req.
            (on_network (expect n c status (headers req)) >>= rest))
          (λ a. Unit {0})
  Keeps-request url method body headers status rest ready next =
      Keeps-bind (OnWorld I) _ _
        (Keeps-create_req n codec c jose x Waited I law inv url method body)
        λ req made.
          Keeps-bind (OnWorld I) _ _
            (Keeps-expect_session n codec c jose x Waited I law inv status _ (ready req made))
            λ resp answered. next resp

  Keeps-delete_client :
      (id : String) → Keeps (OnWorld I) (delete_client n codec jose x c id) (λ a. Unit {0})
  unfolding delete_client
  Keeps-delete_client id = Keeps-bind (OnWorld I) _ _ (Keeps-lift (OnWorld I) _) λ url joined.
      Keeps-request _ _ _ _ _ _ (plain-IsReady n c) λ resp. Keeps-pure (OnWorld I) _ _ tt

  Keeps-get_all_clients : Keeps (OnWorld I) (get_all_clients n codec jose x c) (λ a. Unit {0})
  unfolding get_all_clients
  Keeps-get_all_clients = Keeps-bind (OnWorld I) _ _ (Keeps-lift (OnWorld I) _) λ url joined.
      Keeps-request _ _ _ _ _ _ (accepts-IsReady n c) λ resp.
        Keeps-bind (OnWorld I) _ _ (Keeps-lift (OnWorld I) _) λ found decoded.
          Keeps-bind (OnWorld I) _ _ (Keeps-lift (OnWorld I) _)
            λ dtos given. Keeps-pure (OnWorld I) _ _ tt

  Keeps-get_client_jwks :
      (id : String) → Keeps (OnWorld I) (get_client_jwks n codec jose x c id) (λ a. Unit {0})
  unfolding get_client_jwks
  Keeps-get_client_jwks id = Keeps-bind (OnWorld I) _ _ (Keeps-lift (OnWorld I) _) λ checked named.
      Keeps-bind (OnWorld I) _ _ (Keeps-lift (OnWorld I) _) λ url joined.
        Keeps-request _ _ _ _ _ _ (accepts-IsReady n c)
          λ resp. Keeps-weaken (OnWorld I) _ (Keeps-lift (OnWorld I) _) λ jwks decoded. tt

  Keeps-get_client :
      (id : String) → Keeps (OnWorld I) (get_client n codec jose x c id) (λ a. Unit {0})
  unfolding get_client
  Keeps-get_client id = Keeps-bind (OnWorld I) _ _ (Keeps-lift (OnWorld I) _) λ url joined.
      Keeps-request _ _ _ _ _ _ (accepts-IsReady n c) λ resp.
        Keeps-bind (OnWorld I) _ _ (Keeps-lift (OnWorld I) _) λ dto decoded.
          Keeps-bind (OnWorld I) _ _ (Keeps-lift (OnWorld I) _) λ checked named.
            Keeps-bind (OnWorld I) _ _ (Keeps-get_client_jwks id)
              λ jwks got. Keeps-pure (OnWorld I) _ _ tt

  Keeps-upload_jwks :
      (id : String) (jwks : Jwks)
      → Keeps (OnWorld I) (upload_jwks n codec jose x c id jwks) (λ a. Unit {0})
  unfolding upload_jwks
  Keeps-upload_jwks id jwks = Keeps-bind (OnWorld I) _ _ (Keeps-lift (OnWorld I) _) λ url joined.
      Keeps-bind (OnWorld I) _ _ (Keeps-lift (OnWorld I) _) λ buf encoded.
        Keeps-request _ _ _ _ _ _ (sends-IsReady n c) λ resp. Keeps-pure (OnWorld I) _ _ tt

  Keeps-create_client_jwks :
      (id : String) (keys : Option Jwks)
      → Keeps (OnWorld I) (create_client_jwks n codec jose x c id keys) (λ a. Unit {0})
  unfolding create_client_jwks
  Keeps-create_client_jwks id keys =
      Keeps-bind (OnWorld I) _ _ (Keeps-lift (OnWorld I) _) λ checked named.
        Keeps-bind (OnWorld I) _ _ (Keeps-lift (OnWorld I) _) λ jwks given.
          Keeps-bind (OnWorld I) _ _ (Keeps-lift (OnWorld I) _)
            λ public passed. Keeps-upload_jwks id jwks

  Keeps-create_client :
      (req : Option AddClientRequest) (keys : Option Jwks)
      → Keeps (OnWorld I) (create_client n codec jose x c req keys) (λ a. Unit {0})
  unfolding create_client
  Keeps-create_client req keys = Keeps-bind (OnWorld I) _ _ (Keeps-lift (OnWorld I) _) λ jwks given.
      Keeps-bind (OnWorld I) _ _ (Keeps-lift (OnWorld I) _) λ url joined.
        Keeps-bind (OnWorld I) _ _ (Keeps-lift (OnWorld I) _) λ buf encoded.
          Keeps-request _ _ _ _ _ _ (sends-IsReady n c) λ resp.
            Keeps-bind (OnWorld I) _ _ (Keeps-lift (OnWorld I) _) λ result decoded.
              Keeps-bind (OnWorld I) _ _
                (Keeps-wrapping (OnWorld I) _ _
                  (Keeps-create_client_jwks result.client_id (some jwks)))
                λ done created. Keeps-pure (OnWorld I) _ _ tt

  Keeps-update_client :
      (id : String) (req : UpdateClientRequest)
      → Keeps (OnWorld I) (update_client n codec jose x c id req) (λ a. Unit {0})
  unfolding update_client
  Keeps-update_client id req =
      Keeps-bind (OnWorld I) _ _ (Keeps-lift (OnWorld I) _) λ checked named.
        Keeps-bind (OnWorld I) _ _ (Keeps-lift (OnWorld I) _) λ url joined.
          Keeps-bind (OnWorld I) _ _ (Keeps-lift (OnWorld I) _) λ buf encoded.
            Keeps-request _ _ _ _ _ _ (sends-IsReady n c)
              λ resp. Keeps-weaken (OnWorld I) _ (Keeps-lift (OnWorld I) _) λ dto decoded. tt

  pub call-kept :
      (call : Call) (s : Session W) → I s.world → I (after n codec jose x c call s).world
  call-kept all_clients s i = Keeps-get_all_clients.kept s i
  call-kept (one_client id) s i = (Keeps-get_client id).kept s i
  call-kept (creation req keys) s i = (Keeps-create_client req keys).kept s i
  call-kept (update id req) s i = (Keeps-update_client id req).kept s i
  call-kept (upload id keys) s i = (Keeps-create_client_jwks id keys).kept s i
  call-kept (removal id) s i = (Keeps-delete_client id).kept s i
