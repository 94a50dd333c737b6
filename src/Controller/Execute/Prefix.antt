-- ===== src/Controller/Execute/Prefix.antt =====
-- The commands that were executed are a prefix of the commands, whatever failed.
use altinn_k8s_operator.Base.{◌≡◌, refl, ◌∙◌, ◌↔◌, [], ◌∷◌, ◌++◌, Result, ok, err, crash}
use mathlib.Core.List.{append_assoc}
use altinn_k8s_operator.Crd.{Secret}
use altinn_k8s_operator.Maskinporten.ClientState.Commands.{Command, CommandList}
use altinn_k8s_operator.Controller.{Services, Running}
use altinn_k8s_operator.Controller.Execute.{execute, execute_all, turn, Outcome}

-- The commands are the executed ones and others, and there are none others exactly on success.
abbrev pub IsPrefix : CommandList → CommandList → Result (Unit {0}) → Type 0
IsPrefix executed commands r =
    (others : CommandList) × (executed ++ others ≡ commands) × ((others ≡ []) ↔ (r ≡ ok tt))

module _ {W : Type 0} (services : Services W) (manifest : Secret) where
  turn-IsPrefix :
      (c : Command) (cs before : CommandList) (rest : CommandList → Running W → Outcome services)
      (r : Result (Unit {0})) (s : Running W)
      → ((t : Running W)
          → IsPrefix
              ((rest (before ++ (c ∷ [])) t).0).0
              ((before ++ (c ∷ [])) ++ cs)
              ((rest (before ++ (c ∷ [])) t).0).1)
      → IsPrefix
          ((turn services before c rest r s).0).0
          (before ++ (c ∷ cs))
          ((turn services before c rest r s).0).1
  turn-IsPrefix c cs before rest (ok done) s more =
      let (others, whole, last) = more s in (others, whole ∙ append_assoc before (c ∷ []) cs, last)
  turn-IsPrefix c cs before rest (err e) s more = (c ∷ cs, refl, (λ h. cc, λ h. cc))
  turn-IsPrefix c cs before rest (crash m) s more = (c ∷ cs, refl, (λ h. cc, λ h. cc))

  execute_all-from :
      (cs before : CommandList) (s : Running W)
      → IsPrefix
          ((execute_all services manifest cs before s).0).0
          (before ++ cs)
          ((execute_all services manifest cs before s).0).1
  unfolding execute_all
  execute_all-from [] before s = ([], refl, (λ e. refl, λ e. refl))
  execute_all-from (c ∷ cs) before s =
      turn-IsPrefix c cs before (execute_all services manifest cs)
        (execute services manifest c c.action s).0 (execute services manifest c c.action s).1
        (execute_all-from cs (before ++ (c ∷ [])))

  -- The commands that a loop over a list reports as executed, whether it succeeds, fails or
  -- panics, are a prefix of the list, and they are the whole list exactly if it succeeds.
  pub execute_all-IsPrefix :
      (cs : CommandList) (s : Running W)
      → IsPrefix
          ((execute_all services manifest cs [] s).0).0
          cs
          ((execute_all services manifest cs [] s).0).1
  execute_all-IsPrefix cs s = execute_all-from cs [] s
