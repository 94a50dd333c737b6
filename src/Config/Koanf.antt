-- ===== src/Config/Koanf.antt =====
-- internal/config/koanf.go: the configuration from a file. koanf keeps what it has loaded in a
-- variable of the package, which is part of the state.
use altinn_k8s_operator.Base.{
  ◌+◌, String, ◌<>◌, ◌==◌, not, ◌&&◌, Option, none, some, Result, ok, err, crash, message,
  formatted, fail_if, length, if◌then◌else◌,
}
use altinn_k8s_operator.Base.Exec.{Exec, pure, lift, ◌>>=◌, wrapping}
use altinn_k8s_operator.Base.Map.{Map}
use altinn_k8s_operator.OperatorContext.{Context, is_local, is_dev}
use altinn_k8s_operator.Config.{Config}
use altinn_k8s_operator.Config.ProjectRoot.{Directory, FileSystem, try_find_project_root}

-- The working directory, the values that koanf holds, and the rest of the world.
pub record Process (W : Type 0) : Type 0 where
  pub cwd : Directory
  pub loaded : Map String
  pub world : W

-- koanf with the parser of .env files: Load of a file, and Unmarshal into a Config.
pub record KoanfCalls : Type 0 where
  pub load : String → Map String → Result (Map String)
  pub unmarshal : Map String → Result Config

abbrev file_or_default : String → String → String
file_or_default path environment = if path == "" then environment <> ".env" else path

abbrev missing_file : FileSystem → String → String → Result (Unit {0})
missing_file fs root path =
    if fs.is_abs path
    then err (formatted "env file does not exist" path)
    else err (formatted ("env file does not exist in " <> root) path)

abbrev env_file : FileSystem → String → String → String
env_file fs root env = if root == "" then "" else fs.join root (env <> ".env")

module _ {W : Type 0} (fs : FileSystem) (calls : KoanfCalls) where
  abbrev enter : Option (String × Directory) → Exec (Process W) String
  enter none s = (crash "endless loop", s)
  enter (some (root, dir)) s = (ok root, record s { cwd = dir })

  -- TryFindProjectRoot, with one turn for each directory up to the root of the file system.
  unfoldable pub find_root : Exec (Process W) String
  unfolding try_find_project_root
  find_root s = enter (try_find_project_root fs (length s.cwd + 1) s.cwd) s

  unfoldable pub get_config_file_path_for_env : String → Exec (Process W) String
  unfolding find_root
  get_config_file_path_for_env env = do root ← find_root; pure (env_file fs root env)

  -- os.Stat resolves a relative path in the working directory.
  unfoldable pub check_file : String → String → Exec (Process W) (Unit {0})
  check_file root path s = (if fs.exists s.cwd path then ok tt else missing_file fs root path, s)

  abbrev load_result : Process W → Result (Map String) → Result (Unit {0}) × Process W
  load_result s (ok loaded) = (ok tt, record s { loaded = loaded })
  load_result s (err e) = (err e, s)
  load_result s (crash m) = (crash m, s)

  unfoldable pub load_file : String → Exec (Process W) (Unit {0})
  load_file path s = load_result s (calls.load path s.loaded)

  unfoldable pub load_from_koanf : Context → String → Exec (Process W) Config
  unfolding find_root check_file load_file is_local is_dev
  load_from_koanf context config_file_path = do
    root ← find_root
    let path = file_or_default config_file_path context.environment
    local ← lift (
        fail_if (not (is_local context) && not (is_dev context))
          (message "loading config from koanf is only supported for local environment"))
    found ← check_file root path
    let full = if fs.is_abs path then path else fs.join root path
    read ← wrapping ("error loading config " <> full) (load_file full)
    wrapping ("error unmarshalling config " <> full) (λ s. (calls.unmarshal s.loaded, s))
