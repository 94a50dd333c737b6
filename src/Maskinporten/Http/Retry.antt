-- ===== src/Maskinporten/Http/Retry.antt =====
-- retryableHTTPDo of internal/maskinporten/http_api_client.go: which request is answered, and what
-- a request that is sent again holds. The backoff is taken by what it documents.
pub mod First
use altinn_k8s_operator.Base.{
  ℕ, ◌<◌, ◌≡◌, refl, ap, sym, ◌∙◌, String, Option, some, List, [], ◌∷◌, Result, ok, err, crash,
  Error, fail_if, leb, arith, ok_injective,
}
use mathlib.Core.Path.{subst, subst₂}
use altinn_k8s_operator.Base.Exec.{Exec}
use altinn_k8s_operator.Base.Map.{Map}
use altinn_k8s_operator.Maskinporten.Http.{
  HttpRequest, HttpResponse, add_header, ExponentialBackOff, Attempt, Network, HttpApiClient,
}
use altinn_k8s_operator.Maskinporten.Http.Send.{
  settle, operation, backoff_strategy, run_id_header, first_attempt, response_of, retryable_http_do,
}

module _ {W : Type 0} (n : Network W) where
  -- The response is the one to a request with this method, URL and headers, sent last.
  pub record IsAnswered (method url : String) (headers : Map (List String))
      (answer : Option HttpResponse) (w' : W) : Type 0 where
    pub sent : HttpRequest
    pub response : HttpResponse
    pub before : W
    pub rest : Option String
    pub answered : answer ≡ some response
    pub no_server_error : response.status_code < 500
    pub send : n.send sent before ≡ (ok response, rest, w')
    pub same_method : sent.method ≡ method
    pub same_url : sent.url ≡ url
    pub same_headers : sent.headers ≡ headers

  passed : (code : ℕ) (e : Error) → fail_if (leb 500 code) e ≡ ok tt → code < 500
  passed code e h = ground arith

  -- One attempt that succeeds.
  settle-IsAnswered :
      (s s' : Attempt W) (r : Result HttpResponse) (rest : Option String) (w : W)
      → n.send s.request s.world ≡ (r, rest, w)
      → settle n r (record s { request = record s.request { body = rest }; world = w })
        ≡ (ok tt, s')
      → IsAnswered s.request.method s.request.url s.request.headers s'.response s'.world
  settle-IsAnswered s s' (ok resp) rest w sent e = record {
    sent = s.request;
    response = resp;
    before = s.world;
    rest = rest;
    answered = sym (ap (λ p. p.1.response) e);
    no_server_error = passed resp.status_code _ (ap (λ p. p.0) e);
    send = rw (sym (ap (λ p. p.1.world) e)) sent;
    same_method = refl;
    same_url = refl;
    same_headers = refl;
  }
  settle-IsAnswered s s' (err x) rest w sent e = absurd (let stuck = e in cc)
  settle-IsAnswered s s' (crash m) rest w sent e = absurd (let stuck = e in cc)

  -- A failed attempt leaves the method, the URL and the headers of the request.
  settle-same : (s : Attempt W) (r : Result HttpResponse) → ((settle n r s).1.request) ≡ s.request
  settle-same s (ok resp) = refl
  settle-same s (err x) = refl
  settle-same s (crash m) = refl

module _ {W : Type 0} (Waited : W → W → Type 0) where
  -- The runs of an operation that is tried again after an error until the policy stops. The time
  -- that passes in between changes the world only.
  pub data Runs (op : Exec (Attempt W) (Unit {0}))
      : Attempt W → Result (Unit {0}) → Attempt W → Type 0 where
    succeeds : {s s' : Attempt W} → op s ≡ (ok tt, s') → Runs op s (ok tt) s'
    gives_up : {s s' : Attempt W} {e : Error} → op s ≡ (err e, s') → Runs op s (err e) s'
    panics : {s s' : Attempt W} {m : String} → op s ≡ (crash m, s') → Runs op s (crash m) s'
    again :
        {s s₁ s' : Attempt W} {e : Error} {r : Result (Unit {0})} (w : W)
        → op s ≡ (err e, s₁)
        → Waited s₁.world w
        → Runs op (record s₁ { world = w }) r s'
        → Runs op s r s'

  -- What backoff.Retry documents.
  pub record Retries (n : Network W) : Type 0 where
    pub runs :
        (b : ExponentialBackOff) (op : Exec (Attempt W) (Unit {0})) (s : Attempt W)
        → Runs op s (n.retry b op s).0 (n.retry b op s).1

  -- The bodies that the attempts of a run send.
  abbrev pub bodies :
      {op : Exec (Attempt W) (Unit {0})} {s s' : Attempt W} {r : Result (Unit {0})}
      → Runs op s r s'
      → List (Option String)
  bodies (succeeds {s} e) = s.request.body ∷ []
  bodies (gives_up {s} e) = s.request.body ∷ []
  bodies (panics {s} e) = s.request.body ∷ []
  bodies (again {s} w e waited rest) = s.request.body ∷ bodies rest

  module _ (n : Network W) where
    pub operation-request :
        (s s₁ : Attempt W) (r : Result (Unit {0}))
        → operation n s ≡ (r, s₁)
        → s₁.request ≡ record s.request { body = (n.send s.request s.world).1 }
    unfolding operation
    operation-request s s₁ r e =
        sym (ap (λ p. p.1.request) e)
        ∙ settle-same n
            (record s {
              request = record s.request { body = (n.send s.request s.world).1 };
              world = (n.send s.request s.world).2;
            })
            (n.send s.request s.world).0

    Runs-IsAnswered :
        {s s' : Attempt W} {r : Result (Unit {0})}
        → Runs (operation n) s r s'
        → r ≡ ok tt
        → IsAnswered n s.request.method s.request.url s.request.headers s'.response s'.world
    unfolding operation
    Runs-IsAnswered (succeeds {s} {s'} e) done =
        settle-IsAnswered n s s' (n.send s.request s.world).0 (n.send s.request s.world).1
          (n.send s.request s.world).2 refl e
    Runs-IsAnswered (gives_up e) done = absurd (let stuck = done in cc)
    Runs-IsAnswered (panics e) done = absurd (let stuck = done in cc)
    Runs-IsAnswered (again {s} {s₁} {s'} w e waited rest) done =
        subst (λ q. IsAnswered n q.method q.url q.headers s'.response s'.world)
          (operation-request s s₁ _ e) (Runs-IsAnswered rest done)

    answer_of_run :
        (s s' : Attempt W) (r : Result (Unit {0})) (answer : Option HttpResponse) (w' : W)
        → Runs (operation n) s r s'
        → response_of r s' ≡ ok answer
        → s'.world ≡ w'
        → IsAnswered n s.request.method s.request.url s.request.headers answer w'
    answer_of_run s s' (ok done) answer w' run e h =
        subst₂ (IsAnswered n s.request.method s.request.url s.request.headers) (ok_injective e) h
          (Runs-IsAnswered run refl)
    answer_of_run s s' (err x) answer w' run e h = absurd (let stuck = e in cc)
    answer_of_run s s' (crash m) answer w' run e h = absurd (let stuck = e in cc)

    module _ (law : Retries n) (c : HttpApiClient) (req : HttpRequest) (w : W) where
      abbrev pub run_of :
          Runs
            (operation n)
            (first_attempt n c req w)
            (n.retry (backoff_strategy n) (operation n) (first_attempt n c req w)).0
            (n.retry (backoff_strategy n) (operation n) (first_attempt n c req w)).1
      run_of = law.runs (backoff_strategy n) (operation n) (first_attempt n c req w)

      -- If the backoff retries an operation as long as it fails, until it gives up, then a call of
      -- retryableHTTPDo that succeeds returns the response to the request that it sent last, with
      -- the method, the URL and the headers of its argument and the ID of the run; the status is
      -- below 500.
      pub retryable_http_do-IsAnswered :
          (answer : Option HttpResponse) (w' : W)
          → retryable_http_do n c req w ≡ (ok answer, w')
          → IsAnswered n req.method req.url
              (add_header run_id_header c.context.run_id req).headers
              answer
              w'
      unfolding retryable_http_do
      retryable_http_do-IsAnswered answer w' e =
          answer_of_run (first_attempt n c req w) _ _ answer w' run_of (ap (λ p. p.0) e)
            (ap (λ p. p.1) e)
