-- ===== src/Utils.antt =====
-- cmd/utils/main.go: the tools on the command line. Flag sets, encoding/json and time.Parse are
-- parameters. What is written on standard error is kept as values of `Error`.
pub mod CreateJwk
pub mod Commands
pub mod Silent
mod Examples
use altinn_k8s_operator.Base.{
  String, ◌==◌, Bool, Option, none, some, List, [], ◌∷◌, ◌++◌, Result, ok, err, crash, Error,
  message, wrapped, if◌then◌else◌,
}
use altinn_k8s_operator.Base.Exec.{Exec, pure, lift, handle, ◌>>=◌}
use altinn_k8s_operator.Base.Map.{Map, lookup}
use altinn_k8s_operator.Time.{Time}
use altinn_k8s_operator.Config.Koanf.{Process}
use altinn_k8s_operator.Crypto.Jwks.{Jwk}
use altinn_k8s_operator.Crypto.Types.{Env, SignatureAlgorithm}
use altinn_k8s_operator.Maskinporten.Http.{Session}
use altinn_k8s_operator.Maskinporten.Dto.{ClientResponse}

-- A run of the tool: its process, the random reader and the clock, and what it has written.
pub record Terminal (W : Type 0) : Type 0 where
  pub process : Process W
  pub env : Env
  pub output : List String
  pub diagnostics : List Error

pub record ToolCalls : Type 0 where
  -- fs.Parse for the flags of these names: the flags that the arguments set
  pub parse_flags : List String → List String → Result (Map String)
  -- json.Marshal, or json.MarshalIndent if the output is to be pretty
  pub marshal_clients : Bool → List ClientResponse → Result String
  pub marshal_jwk : Bool → Jwk → Result String
  -- time.Parse with the layout of RFC 3339
  pub parse_time : String → Result Time
  -- the layout of RFC 3339, %v of an algorithm, os.Args[0], and fs.Usage of a flag set
  pub format_time : Time → String
  pub format_algorithm : SignatureAlgorithm → String
  pub program : String
  pub flag_usage : String → List Error
  -- uuid.NewRandom
  pub uuid : Result String

abbrev value_or : String → Option String → String
value_or default none = default
value_or default (some value) = value

abbrev pub string_flag : String → String → Map String → String
string_flag name default set = value_or default (lookup name set)

abbrev pub bool_flag : String → Map String → Bool
bool_flag name set = value_or "false" (lookup name set) == "true"

module _ {W : Type 0} where
  -- fmt.Println, and fmt.Fprintf to standard error
  abbrev pub print_line : String → Exec (Terminal W) (Unit {0})
  print_line line t = (ok tt, record t { output = t.output ++ (line ∷ []) })

  abbrev pub report : List Error → Exec (Terminal W) (Unit {0})
  report lines t = (ok tt, record t { diagnostics = t.diagnostics ++ lines })

  abbrev pub report_if : Bool → List Error → Exec (Terminal W) (Unit {0})
  report_if verbose lines = if verbose then report lines else pure tt

  -- A message, and os.Exit(1)
  unfoldable pub exit : {A : Type 0} → List Error → Exec (Terminal W) A
  exit lines t = (crash "exit status 1", record t { diagnostics = t.diagnostics ++ lines })

  unfoldable pub or_exit :
      {A : Type 0} → (Error → List Error) → Exec (Terminal W) A → Exec (Terminal W) A
  or_exit lines m = handle m (λ e. exit (lines e)) (λ a. pure a)

  abbrev pub on_process : {A : Type 0} → Exec (Process W) A → Exec (Terminal W) A
  on_process m t = let (r, p) = m t.process in (r, record t { process = p })

  abbrev pub on_env : {A : Type 0} → Exec Env A → Exec (Terminal W) A
  on_env m t = let (r, env) = m t.env in (r, record t { env = env })

  -- A call of the API client, whose caches end with the run.
  abbrev pub on_session : {A : Type 0} → Session W → Exec (Session W) A → Exec (Terminal W) A
  on_session session m t =
      let (r, s) = m session in (r, record t { process = record t.process { world = s.world } })

-- The message of a step, with its cause.
abbrev pub failed : String → Error → List Error
failed step e = wrapped step e ∷ []

abbrev pub flags :
    {W : Type 0} → ToolCalls → List String → List String → Exec (Terminal W) (Map String)
flags tool names args =
    or_exit (failed "Failed to parse flags") (lift (tool.parse_flags names args))
