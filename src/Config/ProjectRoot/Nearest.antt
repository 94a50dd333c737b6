-- ===== src/Config/ProjectRoot/Nearest.antt =====
-- internal/config/util.go: when the search for the root of the project returns, and what.
use altinn_k8s_operator.Base.{String, Option, none, [], ◌∷◌}
use altinn_k8s_operator.Config.ProjectRoot.{Directory, FileSystem, is_project_root, turn}

module _ (fs : FileSystem) where
  -- The nearest directory, from this one upwards, that is a project root or above which the process
  -- may not go; `none` if there is none up to the root of the file system.
  abbrev pub nearest : Directory → Option (String × Directory)
  nearest [] = turn fs (is_project_root fs []) (fs.may_enter []) none []
  nearest (name ∷ above) =
      turn fs (is_project_root fs (name ∷ above)) (fs.may_enter above) (nearest above)
        (name ∷ above)
