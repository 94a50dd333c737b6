-- ===== src/Maskinporten/Http/Listing.antt =====
-- GetAllClients of internal/maskinporten/http_api_client.go: which clients of the answer it returns.
use text.Mathlib.TextLemmas.{append_cancel_right, append-eq-nil_iff, nil-append, cons-ne-nil}
use altinn_k8s_operator.Base.{
  ◌≡◌, refl, ap, sym, ◌∙◌, ◌≢◌, ◌<>◌, String, true, Option, none, some, List, [], ◌∷◌, Member, ok,
  inl, inr, Bool-cases, Option-cases, arith, eq_iff,
}
use altinn_k8s_operator.Base.Exec.Ensures.{Ensures-bind, Ensures-lift, Ensures-pure, Ensures-self}
use altinn_k8s_operator.Base.Text.Split.{strip?, strip?-append, strip?_sound}
use altinn_k8s_operator.OperatorContext.{Context}
use altinn_k8s_operator.Crypto.Types.{External}
use altinn_k8s_operator.Crypto.Jwt.{Jose}
use altinn_k8s_operator.Maskinporten.Dto.{ClientResponse}
use altinn_k8s_operator.Maskinporten.ClientState.{get_client_name_prefix, get_client_name}
use altinn_k8s_operator.Maskinporten.Http.{
  HttpRequest, HttpResponse, Network, ApiCodec, HttpApiClient, Session, on_network,
}
use altinn_k8s_operator.Maskinporten.Http.Send.{expect}
use altinn_k8s_operator.Maskinporten.Http.Clients.{
  trim_prefix, has_client_name, own_clients, clients_or_error, accepts_json, get_all_clients,
}

-- A text behind a prefix that is not empty differs from it all.
longer : (prefix rest : String) → prefix ≢ "" → prefix <> rest ≢ rest
longer prefix rest h e = h (append_cancel_right prefix "" rest (e ∙ sym (nil-append rest)))

prefix-ne-nil : (c : Context) → get_client_name_prefix c ≢ ""
unfolding get_client_name_prefix
prefix-ne-nil c e = let (nil, _) = append-eq-nil_iff.0 e in cons-ne-nil "a" "ltinnoperator-" nil

-- The name starts with the prefix.
abbrev pub StartsWith : String → Option String → Type 0
StartsWith prefix name = (rest : String) × (name ≡ some (prefix <> rest))

has_client_name-StartsWith :
    (prefix : String) (name : Option String)
    → has_client_name prefix name ≡ true
    → StartsWith prefix name
unfolding has_client_name trim_prefix
has_client_name-StartsWith prefix none e = absurd (let stuck = e in cc)
has_client_name-StartsWith prefix (some name) e = elim (Option-cases (strip? prefix name)) [
  | inl without ↦ absurd (ground (arith, eq_iff name name, without))
  | inr (rest, found) ↦ (rest, ap some (strip?_sound prefix name rest found))
]

has_client_name_of_StartsWith :
    (prefix : String) (name : Option String)
    → prefix ≢ ""
    → StartsWith prefix name
    → has_client_name prefix name ≡ true
unfolding has_client_name trim_prefix
has_client_name_of_StartsWith prefix name h (rest, e) =
    rw (e, strip?-append prefix rest)
      (ground (arith, eq_iff rest (prefix <> rest), longer prefix rest h))

-- The clients that are kept are those whose name starts with the prefix.
own_clients-Member :
    (prefix : String) (cl : ClientResponse) (dtos : List ClientResponse)
    → Member cl (own_clients prefix dtos)
    → Member cl dtos × StartsWith prefix cl.client_name
unfolding own_clients
own_clients-Member prefix cl [] m = absurd m
own_clients-Member prefix cl (d ∷ dtos) m =
    elim (Bool-cases (has_client_name prefix d.client_name)) [
      | inl kept ↦ elim (rw kept at m) [
        | inl same ↦ (inl same, rw same (has_client_name-StartsWith prefix d.client_name kept))
        | inr later ↦
            let (member, starts) = own_clients-Member prefix cl dtos later in (inr member, starts)
      ]
      | inr dropped ↦
          let (member, starts) = own_clients-Member prefix cl dtos (rw dropped at m) in
          (inr member, starts)
    ]

Member-own_clients :
    (prefix : String) (cl : ClientResponse) (dtos : List ClientResponse)
    → prefix ≢ ""
    → StartsWith prefix cl.client_name
    → Member cl dtos
    → Member cl (own_clients prefix dtos)
unfolding own_clients
Member-own_clients prefix cl (d ∷ dtos) h starts (inl same) =
    rw (← same, has_client_name_of_StartsWith prefix cl.client_name h starts) (inl refl)
Member-own_clients prefix cl (d ∷ dtos) h starts (inr later) =
    elim (Bool-cases (has_client_name prefix d.client_name)) [
      | inl kept ↦ rw kept (inr (Member-own_clients prefix cl dtos h starts later))
      | inr dropped ↦ rw dropped (Member-own_clients prefix cl dtos h starts later)
    ]
Member-own_clients prefix cl [] h starts m = absurd m

-- The answer, and which of its clients are returned.
pub record IsListed (codec : ApiCodec) (context : Context) (result : List ClientResponse)
    (response : HttpResponse) : Type 0 where
  pub all : List ClientResponse
  pub decoded : codec.read_clients response ≡ ok (some all)
  pub only_own :
      (cl : ClientResponse)
      → Member cl result
      → Member cl all × StartsWith (get_client_name_prefix context) cl.client_name
  pub every_app :
      (cl : ClientResponse) (app : String)
      → Member cl all
      → cl.client_name ≡ some (get_client_name context app)
      → Member cl result

clients_of :
    (found : Option (List ClientResponse)) (dtos : List ClientResponse)
    → clients_or_error found ≡ ok dtos
    → found ≡ some dtos
clients_of none dtos e = absurd (let stuck = e in cc)
clients_of (some d) dtos e = cc

own_clients-IsListed :
    (codec : ApiCodec) (context : Context) (response : HttpResponse)
    (found : Option (List ClientResponse)) (dtos : List ClientResponse)
    → codec.read_clients response ≡ ok found
    → clients_or_error found ≡ ok dtos
    → IsListed codec context (own_clients (get_client_name_prefix context) dtos) response
unfolding get_client_name
own_clients-IsListed codec context response found dtos e h = record {
  all = dtos;
  decoded = e ∙ ap ok (clients_of found dtos h);
  only_own = λ cl m. own_clients-Member (get_client_name_prefix context) cl dtos m;
  every_app = λ cl app m named.
      Member-own_clients (get_client_name_prefix context) cl dtos (prefix-ne-nil context)
        (app, named) m;
}

module _ {W : Type 0} (n : Network W) (codec : ApiCodec) (jose : Jose) (x : External)
    (c : HttpApiClient) where
  -- The client asked once for all clients, with the status 200, and filtered the answer.
  abbrev pub Listed : Session W → List ClientResponse → Session W → Type 0
  Listed s result s' =
      (request : HttpRequest) × (response : HttpResponse) × (s₁ : Session W) × (on_network
          (expect n c 200 request) s₁
        ≡ (ok response, s'))
      × IsListed codec c.context result response

  -- When GetAllClients succeeds, for a client whose prefix is the one of its context, it returns
  -- clients of the answer whose names start with the prefix, and among them each one that has the
  -- name of an app.
  pub get_all_clients-IsListed :
      (s s' : Session W) (result : List ClientResponse)
      → c.client_name_prefix ≡ get_client_name_prefix c.context
      → get_all_clients n codec jose x c s ≡ (ok result, s')
      → Listed s result s'
  unfolding get_all_clients
  get_all_clients-IsListed s s' result own e =
      (Ensures-bind _ _ s {Q = Listed s} (Ensures-lift _ s) λ url s₁ h₁.
          Ensures-bind _ _ s₁ (Ensures-self _ s₁) λ request s₂ h₂.
            Ensures-bind _ _ s₂ (Ensures-self _ s₂) λ response s₃ answered.
              Ensures-bind _ _ s₃ (Ensures-lift _ s₃) λ found s₄ (decoded, at₄).
                Ensures-bind _ _ s₄ (Ensures-lift _ s₄) λ dtos s₅ (given, at₅).
                  Ensures-pure _ s₅ _ (
                    accepts_json request,
                    response,
                    s₂,
                    rw (at₅ ∙ at₄) answered,
                    rw own (own_clients-IsListed codec c.context response found dtos decoded given),
                  )).returns
        result s' e
