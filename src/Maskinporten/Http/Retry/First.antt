-- ===== src/Maskinporten/Http/Retry/First.antt =====
-- retryableHTTPDo of internal/maskinporten/http_api_client.go while the server answers.
use altinn_k8s_operator.Base.{
  ◌<◌, ◌≡◌, refl, ap, sym, ◌∙◌, false, String, Option, some, Result, ok, fail_if, leb, formatted,
  arith,
}
use altinn_k8s_operator.Base.Exec.{Exec}
use altinn_k8s_operator.Maskinporten.Http.{
  HttpRequest, HttpResponse, add_header, Attempt, Network, HttpApiClient,
}
use altinn_k8s_operator.Maskinporten.Http.Send.{
  settle, operation, backoff_strategy, run_id_header, first_attempt, response_of, retryable_http_do,
}
use altinn_k8s_operator.Maskinporten.Http.Retry.{Runs, succeeds, gives_up, panics, again, Retries}

module _ {W : Type 0} (n : Network W) where
  -- An operation that succeeds at once is not tried again.
  Runs-once :
      (Waited : W → W → Type 0) {op : Exec (Attempt W) (Unit {0})} {s s' t : Attempt W}
      {r : Result (Unit {0})}
      → Runs Waited op s r s'
      → op s ≡ (ok tt, t)
      → (r ≡ ok tt) × (s' ≡ t)
  Runs-once Waited (succeeds e) h = (refl, ap (λ p. p.1) (sym e ∙ h))
  Runs-once Waited (gives_up e) h = absurd (let stuck = sym e ∙ h in cc)
  Runs-once Waited (panics e) h = absurd (let stuck = sym e ∙ h in cc)
  Runs-once Waited (again w e waited rest) h = absurd (let stuck = sym e ∙ h in cc)

  accepted : (resp : HttpResponse) → resp.status_code < 500 → leb 500 resp.status_code ≡ false
  accepted resp h = ground arith

  settle-accepted :
      (resp : HttpResponse) (s : Attempt W)
      → resp.status_code < 500
      → settle n (ok resp) s ≡ (ok tt, record s { response = some resp })
  settle-accepted resp s h =
      ap
        (λ b. (fail_if b (formatted "server error" resp.status), record s { response = some resp }))
        (accepted resp h)

  operation-accepted :
      (s : Attempt W) (resp : HttpResponse) (rest : Option String) (w : W)
      → n.send s.request s.world ≡ (ok resp, rest, w)
      → resp.status_code < 500
      → operation n s ≡ (
        ok tt,
        record { request = record s.request { body = rest }; response = some resp; world = w },
      )
  unfolding operation
  operation-accepted s resp rest w sent h =
      ap (λ p. settle n p.0 (record s { request = record s.request { body = p.1 }; world = p.2 }))
        sent
      ∙ settle-accepted resp (record s { request = record s.request { body = rest }; world = w }) h

  module _ (Waited : W → W → Type 0) (law : Retries Waited n) (c : HttpApiClient)
      (req : HttpRequest) (w : W) where
    -- If the backoff only retries an operation that fails, and the server answers the request, sent
    -- with the ID of the run, at once and with a status below 500, then retryableHTTPDo returns this
    -- response and has sent nothing else.
    pub retryable_http_do-first :
        (resp : HttpResponse) (rest : Option String) (w' : W)
        → n.send (add_header run_id_header c.context.run_id req) w ≡ (ok resp, rest, w')
        → resp.status_code < 500
        → retryable_http_do n c req w ≡ (ok (some resp), w')
    unfolding retryable_http_do
    retryable_http_do-first resp rest w' sent h =
        let (result, state) =
          Runs-once Waited (law.runs (backoff_strategy n) (operation n) (first_attempt n c req w)) (
            operation-accepted (first_attempt n c req w) resp rest w' (unfold add_header in sent)
              h) in
        λ i. (response_of (result i) (state i), (state i).world)
