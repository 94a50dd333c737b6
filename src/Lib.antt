-- ===== src/Lib.antt =====
-- Verification of the Altinn Kubernetes operator, which keeps a client in Maskinporten, with its
-- keys, for each app in a cluster.
--
-- The parts and the files that model them:
--   Caching           internal/caching/cached_atom.go: a value that is fetched again when it is
--                     too old (CachedAtom, NewCachedAtom, Get)
--   OperatorContext   internal/operatorcontext/operatorcontext.go
--   Config            internal/config: the configuration, its sources (Koanf, KeyVault) and the
--                     choice between them (Load)
--   Crd               the records of api/v1alpha1
--   Crypto            internal/crypto: the key sets (Jwks), the creation of keys and certificates
--                     (Service), the selection of the active key (ActiveKey) and the rotation of
--                     keys (Rotation)
--   Maskinporten      internal/maskinporten: the API contract (Dto), the content of the secret
--                     that an app reads (Secret), and the state of a client with the commands that
--                     bring it up to date (ClientState, ClientState.Commands, ClientState.Reconcile)
--                     Http is internal/maskinporten/http_api_client.go: the requests with their
--                     retries (Send), the access token (Tokens) and the methods (Clients)
--   Runtime           internal/internal.go: the parts above, put together for an environment
--   Controller        internal/controller: the reconciliation loop, which loads a resource, fetches
--                     the state (Fetch), executes the commands (Execute), records the outcome in
--                     the resource (Status) and puts these together (Loop);
--                     with the API client in Composed
--   Utils             cmd/utils/main.go: the tools on the command line (Commands, CreateJwk)
--   Fakes             internal/fakes: the databases of the fake APIs (Db, State), and their handlers in
--                     cmd/maskinporten_fakes/main.go (Handlers)
-- Base holds shared notation, lists and numbers, results and calls that change a state.
--
-- A call that fails returns a value of `Result`: an error, or a crash where the code panics or ends
-- the process.
-- A call that uses the random reader or the clock passes on an `Env`, and ClientState.Reconcile
-- works on a `Store`, which adds a heap for the objects that commands share by pointers. A time is
-- the number of nanoseconds since Go's zero time, a duration an integer of them.
--
-- Every loop is structural recursion over the list that the code walks, but for the search for the
-- root of the project (Config.ProjectRoot), which may run forever: it takes fuel, and as many turns
-- as the directory has names, and one more, decide it. The retries of a request are those of the
-- backoff package, whose runs are a relation (Maskinporten.Http.Retry.Runs).
--
-- Parameters: RSA, X.509, UUIDs, go-jose and the clock (Crypto.Types.External, Crypto.Jwt.Jose),
-- encoding/json (Maskinporten.Secret.Codec, Maskinporten.Http.ApiCodec, Fakes.Handlers.WireCodec),
-- net/http with the backoff (Maskinporten.Http.Network), the cluster, the API and controller-runtime
-- (Controller.Services, or Controller.Composed.Cluster beside the modelled API client), the file
-- system, koanf, the key vault and the validator (Config), flag sets and the format of times
-- (Utils.ToolCalls), the random generator and the product of floating point numbers
-- (Controller.Requeue.Randomness). What is assumed of them are the records KnowsRsa, KeepsValidity,
-- Decodes, Verifies, Retries, IsInvariant, IsApart and IsRandom.
--
-- Not modelled: telemetry and tracing, the start of the operator (cmd/main.go) and of the fake
-- servers, the layout of messages on standard error, generated code and test utilities.
pub mod Base
pub mod Time
pub mod Caching
pub mod OperatorContext
pub mod Runtime
pub mod Utils
pub mod Crypto
pub mod Config
pub mod Crd
pub mod Maskinporten
pub mod Controller
pub mod Fakes
