-- ===== src/Config/ProjectRoot.antt =====
-- internal/config/util.go: the search for the root directory of the project. A working directory is
-- the list of its names, innermost first, and `os.Chdir("..")` stays at the root, as in Unix.
pub mod Nearest
use altinn_k8s_operator.Base.{
  ℕ, zero, suc, String, Bool, true, false, ◌||◌, Option, none, some, List, [], ◌∷◌, Result, ok, err,
  crash,
}
use altinn_k8s_operator.Base.Exec.{Exec}

abbrev pub Directory : Type 0
Directory = List String

-- What the process sees of the file system.
pub record FileSystem : Type 0 where
  -- filepath.Glob in a directory
  pub glob : Directory → String → Result (List String)
  -- os.Getwd, and whether os.Chdir can enter a directory
  pub getwd : Directory → Result String
  pub may_enter : Directory → Bool
  -- os.Stat, as far as it tells a missing file, and the functions of the package path
  pub exists : Directory → String → Bool
  pub is_abs : String → Bool
  pub join : String → String → String

abbrev pub parent : Directory → Directory
parent [] = []
parent (name ∷ above) = above

abbrev pub any_match : Result (List String) → Bool
any_match (ok []) = false
any_match (ok (m ∷ ms)) = true
any_match _ = false

module _ (fs : FileSystem) where
  unfoldable pub file_exists : Directory → String → Bool
  file_exists dir pattern = any_match (fs.glob dir pattern)

  -- The test of the loop.
  abbrev pub is_project_root : Directory → Bool
  is_project_root dir = file_exists dir "./go.mod" || file_exists dir "./*.env"

  -- The working directory, or no text if it is not known.
  abbrev pub text_of : Result String → String
  text_of (ok text) = text
  text_of _ = ""

  -- What one turn of the loop comes to: the loop goes on if it could go up.
  abbrev pub turn :
      Bool → Bool → Option (String × Directory) → Directory → Option (String × Directory)
  turn true entered rest dir = some (text_of (fs.getwd dir), dir)
  turn false true rest dir = rest
  turn false false rest dir = some ("", dir)

  -- The loop, with fuel: `none` if it has not returned by then. It leaves the process in the
  -- directory where it stopped.
  unfoldable pub try_find_project_root : ℕ → Directory → Option (String × Directory)
  unfolding file_exists
  try_find_project_root zero dir = none
  try_find_project_root (suc fuel) dir =
      turn (is_project_root dir) (fs.may_enter (parent dir))
        (try_find_project_root fuel (parent dir)) dir
