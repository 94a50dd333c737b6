-- ===== src/Maskinporten/Http/Send.antt =====
-- retryableHTTPDo, deserialize and handleErrorResponse of internal/maskinporten/http_api_client.go.
use altinn_k8s_operator.Base.{
  ℕ, ◌*◌, String, ◌<>◌, Option, none, some, Result, ok, err, crash, formatted, wrapped, fail_if,
  leb, nat_eq, if◌then◌else◌,
}
use altinn_k8s_operator.Base.Exec.{Exec, pure, lift, ◌>>=◌}
use altinn_k8s_operator.Base.Int.{pos}
use altinn_k8s_operator.Base.Text.Decimal.{format_int}
use altinn_k8s_operator.Time.{second, minute}
use altinn_k8s_operator.Maskinporten.Http.{
  HttpRequest, HttpResponse, add_header, ExponentialBackOff, Attempt, Network, HttpApiClient,
  pointer,
}

-- deserialize, at the decoder of its type
abbrev pub deserialize : {T : Type 0} → (HttpResponse → Result T) → HttpResponse → Result T
deserialize decode resp = decode resp

abbrev pub run_id_header : String
run_id_header = "X-Altinn-Operator-RunId"

module _ {W : Type 0} where
  abbrev pub response_of : Result (Unit {0}) → Attempt W → Result (Option HttpResponse)
  response_of (ok done) s = ok s.response
  response_of (err e) s = err e
  response_of (crash m) s = crash m

module _ {W : Type 0} (n : Network W) where
  abbrev error_of_body : HttpResponse → Result String → Result (Unit {0})
  error_of_body resp (ok body) =
      err (formatted ("HTTP " <> (format_int (pos resp.status_code) <> ": ")) body)
  error_of_body resp (err e) = err (
      wrapped ("HTTP " <> (format_int (pos resp.status_code) <> ": failed to read response body"))
        e)
  error_of_body resp (crash m) = crash m

  -- An error, whatever the body.
  unfoldable pub handle_error_response : HttpResponse → Result (Unit {0})
  unfolding format_int
  handle_error_response resp = error_of_body resp (n.read_all resp)

  -- The check of the operation, and what it leaves in `resp`.
  abbrev pub settle : Result HttpResponse → Exec (Attempt W) (Unit {0})
  settle (ok resp) s = (
    fail_if (leb 500 resp.status_code) (formatted "server error" resp.status),
    record s { response = some resp },
  )
  settle (err e) s = (err e, record s { response = none })
  settle (crash m) s = (crash m, s)

  -- The operation that is retried: it sends what the request's body still holds.
  unfoldable pub operation : Exec (Attempt W) (Unit {0})
  operation s =
      let (r, rest, w) = n.send s.request s.world in
      settle r (record s { request = record s.request { body = rest }; world = w })

  abbrev pub backoff_strategy : ExponentialBackOff
  backoff_strategy = record n.new_exponential_back_off {
    initial_interval = pos (1 * second);
    max_interval = pos (30 * second);
    max_elapsed_time = pos (2 * minute);
  }

  module _ (c : HttpApiClient) where
    abbrev pub first_attempt : HttpRequest → W → Attempt W
    first_attempt req w = record {
      request = add_header run_id_header c.context.run_id req;
      response = none;
      world = w;
    }

    unfoldable pub retryable_http_do : HttpRequest → Exec W (Option HttpResponse)
    unfolding operation add_header
    retryable_http_do req w =
        let (r, s) = n.retry backoff_strategy operation (first_attempt req w) in
        (response_of r s, s.world)

    -- The check of the status that follows each request.
    unfoldable pub expect : ℕ → HttpRequest → Exec W HttpResponse
    unfolding retryable_http_do handle_error_response
    expect status req = do
      answer ← retryable_http_do req
      resp ← lift (pointer answer)
      checked ← lift (if nat_eq resp.status_code status then ok tt else handle_error_response resp)
      pure resp
