-- ===== src/Maskinporten/Http/Requests.antt =====
-- What internal/maskinporten/http_api_client.go sends: an invariant of the world that requests with
-- the right headers keep is kept by a request with its retries, and by the caches.
pub mod Tokens
pub mod Methods
use altinn_k8s_operator.Base.{
  ◌≡◌, refl, ap, sym, ◌∙◌, ◌⊎◌, String, ◌<>◌, Bool, true, false, Option, none, some, List, [], ◌∷◌,
  ◌++◌, Result, ok, err, crash, fail_if, leb, formatted, inl, inr, Bool-cases, if◌then◌else◌,
  nat_eq, ℕ,
}
use mathlib.Core.Path.{subst}
use altinn_k8s_operator.Base.Exec.{Exec, lift, pure, ◌>>=◌}
use altinn_k8s_operator.Base.Exec.Keeps.{Keeps, Keeps-pure, Keeps-lift, Keeps-bind, Keeps-any}
use altinn_k8s_operator.Base.Map.{Map, lookup, insert, lookup-insert}
use altinn_k8s_operator.Time.{Time}
use altinn_k8s_operator.Caching.{CachedAtom, write_section, expired, store}
use altinn_k8s_operator.Maskinporten.Http.{
  HttpRequest, HttpResponse, add_header, set_header, Attempt, Network, HttpApiClient, Session,
  on_network, pointer, values_or_none,
}
use altinn_k8s_operator.Maskinporten.Http.Send.{
  settle, operation, backoff_strategy, run_id_header, first_attempt, response_of, retryable_http_do,
  expect, handle_error_response,
}
use altinn_k8s_operator.Maskinporten.Http.Tokens.{refill, found_or_refill, get_atom}
use altinn_k8s_operator.Maskinporten.Http.Retry.{
  Runs, succeeds, gives_up, panics, again, Retries, operation-request,
}

abbrev pub Headers : Type 0
Headers = Map (List String)

-- The request goes to one of the two endpoints of the authority.
abbrev pub IsForAuthority : {W : Type 0} → Network W → HttpApiClient → String → Type 0
IsForAuthority n c url =
    ((endpoint : String) × (n.join_path c.config.authority_url
          ("/.well-known/oauth-authorization-server" ∷ [])
        ≡ ok endpoint)
      × (url ≡ endpoint))
    ⊎ ((endpoint : String) × (values : List (String × String)) × (n.join_path c.config.authority_url
            ("/token" ∷ [])
          ≡ ok endpoint)
        × (url ≡ endpoint <> ("?" <> n.encode_values values)))

abbrev pub HasToken : Headers → Type 0
HasToken headers =
    (token : String) × (lookup "Authorization" headers ≡ some (("Bearer " <> token) ∷ []))

-- The request has a bearer token, or is one for the authority.
abbrev pub IsEntitled : {W : Type 0} → Network W → HttpApiClient → String → Headers → Type 0
IsEntitled n c url headers = HasToken headers ⊎ IsForAuthority n c url

-- What every request that is sent has: the ID of the run, once, and an entitlement.
abbrev pub IsAllowed : {W : Type 0} → Network W → HttpApiClient → String → Headers → Type 0
IsAllowed n c url headers =
    (lookup "X-Altinn-Operator-RunId" headers ≡ some (c.context.run_id ∷ []))
    × IsEntitled n c url headers

-- What it has before the ID of the run is added.
abbrev pub IsReady : {W : Type 0} → Network W → HttpApiClient → HttpRequest → Type 0
IsReady n c req =
    IsAllowed n c req.url (add_header "X-Altinn-Operator-RunId" c.context.run_id req).headers

-- The ID of the run is added to a request that does not have it yet, and leaves the token.
added_id :
    (id : String) (headers : Headers)
    → lookup "X-Altinn-Operator-RunId" headers ≡ none
    → lookup "X-Altinn-Operator-RunId" (
        insert "X-Altinn-Operator-RunId"
          (values_or_none (lookup "X-Altinn-Operator-RunId" headers) ++ (id ∷ []))
          headers)
      ≡ some (id ∷ [])
added_id id headers missing =
    rw missing (lookup-insert "X-Altinn-Operator-RunId" "X-Altinn-Operator-RunId" (id ∷ []) headers)

pub IsReady-of :
    {W : Type 0} (n : Network W) (c : HttpApiClient) (req : HttpRequest)
    → lookup "X-Altinn-Operator-RunId" req.headers ≡ none
    → IsEntitled n c req.url req.headers
    → IsReady n c req
unfolding add_header
IsReady-of n c req missing (inl (token, e)) = (
  added_id c.context.run_id req.headers missing,
  inl (token, lookup-insert "X-Altinn-Operator-RunId" "Authorization" _ req.headers ∙ e),
)
IsReady-of n c req missing (inr authority) =
    (added_id c.context.run_id req.headers missing, inr authority)

-- The invariant is kept by all that touches the world, and by sending an allowed request.
pub record IsInvariant {W : Type 0} (n : Network W) (c : HttpApiClient) (Waited : W → W → Type 0)
    (I : W → Type 0) : Type 0 where
  pub reads_clock : (w : W) → I w → I (n.now w).1
  pub makes_id : (w : W) → I w → I (n.new_id w).1
  pub waits : (w w' : W) → Waited w w' → I w → I w'
  pub sends :
      (req : HttpRequest) (w : W) → IsAllowed n c req.url req.headers → I w → I (n.send req w).2

module _ {W : Type 0} (n : Network W) (c : HttpApiClient) (Waited : W → W → Type 0) (I : W → Type 0)
    (law : Retries Waited n) (inv : IsInvariant n c Waited I) where
  settle-world : (r : Result HttpResponse) (s : Attempt W) → (settle n r s).1.world ≡ s.world
  settle-world (ok resp) s = refl
  settle-world (err e) s = refl
  settle-world (crash m) s = refl

  operation-kept :
      (s : Attempt W)
      → IsAllowed n c s.request.url s.request.headers
      → I s.world
      → I (operation n s).1.world
  unfolding operation
  operation-kept s allowed i =
      subst I (sym (settle-world _ _)) (inv.sends s.request s.world allowed i)

  Runs-kept :
      {s s' : Attempt W} {r : Result (Unit {0})}
      → Runs Waited (operation n) s r s'
      → IsAllowed n c s.request.url s.request.headers
      → I s.world
      → I s'.world
  Runs-kept (succeeds {s} e) allowed i = subst (λ p. I p.1.world) e (operation-kept s allowed i)
  Runs-kept (gives_up {s} e) allowed i = subst (λ p. I p.1.world) e (operation-kept s allowed i)
  Runs-kept (panics {s} e) allowed i = subst (λ p. I p.1.world) e (operation-kept s allowed i)
  Runs-kept (again {s} {s₁} w e waited rest) allowed i =
      Runs-kept rest
        (subst (λ q. IsAllowed n c q.url q.headers) (sym (operation-request Waited n s s₁ _ e))
          allowed)
        (inv.waits s₁.world w waited (subst (λ p. I p.1.world) e (operation-kept s allowed i)))

  Keeps-retryable_http_do :
      (req : HttpRequest) → IsReady n c req → Keeps I (retryable_http_do n c req) (λ a. Unit {0})
  unfolding retryable_http_do
  Keeps-retryable_http_do req ready = record {
    kept = λ w i.
        Runs-kept (law.runs (backoff_strategy n) (operation n) (first_attempt n c req w)) ready i;
    result = λ w i a e. tt;
  }

  pub Keeps-expect :
      (status : ℕ) (req : HttpRequest)
      → IsReady n c req
      → Keeps I (expect n c status req) (λ a. Unit {0})
  unfolding expect
  Keeps-expect status req ready =
      Keeps-bind I _ _ (Keeps-retryable_http_do req ready) λ answer done.
        Keeps-bind I _ _ (Keeps-lift I _)
          λ resp given. Keeps-bind I _ _ (Keeps-lift I _) λ checked passed. Keeps-pure I resp _ tt

abbrev pub OnWorld : {W : Type 0} → (W → Type 0) → Session W → Type 0
OnWorld I s = I s.world

module _ {W : Type 0} (I : W → Type 0) where
  pub Keeps-on_network :
      {A : Type 0} (m : Exec W A) {Q : A → Type 0}
      → Keeps I m Q
      → Keeps (OnWorld I) (on_network m) Q
  unfolding on_network
  Keeps-on_network m h = record {
    kept = λ s i. h.kept s.world i;
    result = λ s i. h.result s.world i;
  }

module _ {W T : Type 0} (n : Network W) (I : W → Type 0) (atom : Session W → CachedAtom T)
    (with_atom : CachedAtom T → Session W → Session W) (retriever : Exec (Session W) (Option T))
    (same_world : (a : CachedAtom T) (s : Session W) → (with_atom a s).world ≡ s.world)
    (reads_clock : (w : W) → I w → I (n.now w).1)
    (fetches : Keeps (OnWorld I) retriever (λ a. Unit {0})) where
  refill-kept :
      (now : Time) (s : Session W) → I s.world → I (refill n atom with_atom retriever now s).1.world
  unfolding refill write_section
  refill-kept now s i = elim (Bool-cases (expired (atom s) now)) [
    | inl old ↦
        rw (old, same_world (store (atom s) now (retriever s).0).1 (retriever s).1)
          (fetches.kept s i)
    | inr fresh ↦ rw (fresh, same_world (atom s) s) i
  ]

  Keeps-found_or_refill :
      (found : Option (Option T))
      → Keeps (OnWorld I) (found_or_refill n atom with_atom retriever found) (λ a. Unit {0})
  unfolding found_or_refill
  Keeps-found_or_refill (some value) = Keeps-pure (OnWorld I) value _ tt
  Keeps-found_or_refill none =
      Keeps-bind (OnWorld I) _ _ (Keeps-on_network I n.now (Keeps-any I n.now reads_clock))
        λ now done. record { kept = refill-kept now; result = λ s i a e. tt }

  pub Keeps-get_atom : Keeps (OnWorld I) (get_atom n atom with_atom retriever) (λ a. Unit {0})
  unfolding get_atom
  Keeps-get_atom =
      Keeps-bind (OnWorld I) _ _ (Keeps-on_network I n.now (Keeps-any I n.now reads_clock))
        λ now done.
          Keeps-bind (OnWorld I) _ _ {P = λ a. Unit {0}}
            (record { kept = λ s i. i; result = λ s i a e. tt })
            λ found read. Keeps-found_or_refill found
