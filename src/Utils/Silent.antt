-- ===== src/Utils/Silent.antt =====
-- What cmd/utils/main.go writes on standard output when it fails.
pub mod Whole
use altinn_k8s_operator.Time.{Time}
use altinn_k8s_operator.Base.{
  ok, Bool, ◌≡◌, refl, sym, ◌∙◌, ◌⊎◌, inl, inr, true, false, crash, err, Error, String, ◌==◌, ◌<>◌,
  none, List, [], ◌∷◌, Result, Error, message, formatted, length, if◌then◌else◌,
}
use altinn_k8s_operator.Base.Exec.{Exec, pure, lift, wrapping, ◌>>=◌}
use altinn_k8s_operator.Base.Int.{pos}
use altinn_k8s_operator.Base.Map.{Map}
use altinn_k8s_operator.Base.Text.Decimal.{format_int}
use altinn_k8s_operator.OperatorContext.{discover}
use altinn_k8s_operator.Config.{Config}
use altinn_k8s_operator.Config.ProjectRoot.{FileSystem}
use altinn_k8s_operator.Config.Koanf.{KoanfCalls}
use altinn_k8s_operator.Config.KeyVault.{KeyVaultCalls}
use altinn_k8s_operator.Config.Load.{config_source_koanf, get_config}
use altinn_k8s_operator.Crypto.Types.{External}
use altinn_k8s_operator.Crypto.Jwt.{Jose}
use altinn_k8s_operator.Maskinporten.Http.{Network, ApiCodec, HttpApiClient, Session, pointer}
use altinn_k8s_operator.Maskinporten.Http.Tokens.{get_access_token}
use altinn_k8s_operator.Maskinporten.Http.Clients.{get_all_clients, delete_client}
use altinn_k8s_operator.Runtime.{client_for}
use altinn_k8s_operator.Utils.CreateJwk.{create_jwk}
use altinn_k8s_operator.Utils.{
  Terminal, ToolCalls, failed, flags, string_flag, bool_flag, print_line, report_if, exit, or_exit,
  on_process, on_session,
}
use altinn_k8s_operator.Base.Exec.{continue, resume, handle}
use altinn_k8s_operator.Crypto.Service.{create_jwks}
use altinn_k8s_operator.Utils.CreateJwk.{not_after_of, tell_crypto}
use altinn_k8s_operator.Utils.{bool_flag, report}
use altinn_k8s_operator.Utils.Commands.{
  setup_maskinporten_client, get_token, get_clients, delete_with, delete_named, delete_client_by_id,
  get_command, create_command, delete_command, main,
}

module _ {W A : Type 0} where
  -- The call writes nothing on standard output.
  abbrev pub Quiet : Exec (Terminal W) A → Type 0
  Quiet m = (t : Terminal W) → (m t).1.output ≡ t.output

  -- The call succeeds, or it writes nothing on standard output.
  abbrev pub Silent : Exec (Terminal W) A → Type 0
  Silent m = (t : Terminal W) → ((a : A) × ((m t).0 ≡ ok a)) ⊎ ((m t).1.output ≡ t.output)

  pub Silent-if :
      (b : Bool) (m n : Exec (Terminal W) A) → Silent m → Silent n → Silent (if b then m else n)
  Silent-if true m n h k = h
  Silent-if false m n h k = k

  pub Quiet-if :
      (b : Bool) (m n : Exec (Terminal W) A) → Quiet m → Quiet n → Quiet (if b then m else n)
  Quiet-if true m n h k = h
  Quiet-if false m n h k = k

  pub Silent-exit : (lines : List Error) → Silent (exit {W = W} {A = A} lines)
  unfolding exit
  Silent-exit lines t = inr refl

  resumed :
      (r : Result A) (lines : Error → List Error) (t : Terminal W)
      → (resume r (λ e. exit (lines e)) (λ a. pure a) t).1.output ≡ t.output
  unfolding exit
  resumed (ok a) lines t = refl
  resumed (err e) lines t = refl
  resumed (crash m) lines t = refl

  pub Quiet-or_exit :
      (lines : Error → List Error) (m : Exec (Terminal W) A) → Quiet m → Quiet (or_exit lines m)
  unfolding or_exit handle
  Quiet-or_exit lines m h t = resumed (m t).0 lines (m t).1 ∙ h t

module _ {W A B : Type 0} where
  continue-Silent :
      (r : Result A) (f : A → Exec (Terminal W) B) (t : Terminal W) (o : List String)
      → t.output ≡ o
      → ((a : A) → Silent (f a))
      → ((b : B) × ((continue r f t).0 ≡ ok b)) ⊎ ((continue r f t).1.output ≡ o)
  continue-Silent (ok a) f t o h k = elim (k a t) [
    | inl done ↦ inl done
    | inr same ↦ inr (same ∙ h)
  ]
  continue-Silent (err e) f t o h k = inr h
  continue-Silent (crash m) f t o h k = inr h

  pub Silent-then :
      (m : Exec (Terminal W) A) (f : A → Exec (Terminal W) B)
      → Quiet m
      → ((a : A) → Silent (f a))
      → Silent (m >>= f)
  unfolding ◌>>=◌
  Silent-then m f h k t = continue-Silent (m t).0 f (m t).1 t.output (h t) k

  continue-Quiet :
      (r : Result A) (f : A → Exec (Terminal W) B) (t : Terminal W)
      → ((a : A) → Quiet (f a))
      → (continue r f t).1.output ≡ t.output
  continue-Quiet (ok a) f t k = k a t
  continue-Quiet (err e) f t k = refl
  continue-Quiet (crash m) f t k = refl

  pub Quiet-then :
      (m : Exec (Terminal W) A) (f : A → Exec (Terminal W) B)
      → Quiet m
      → ((a : A) → Quiet (f a))
      → Quiet (m >>= f)
  unfolding ◌>>=◌
  Quiet-then m f h k t = continue-Quiet (m t).0 f (m t).1 k ∙ h t

module _ {W : Type 0} where
  pub succeeded :
      (m : Exec (Terminal W) (Unit {0}))
      → Silent m
      → (t : Terminal W) → ((m t).0 ≡ ok tt) ⊎ ((m t).1.output ≡ t.output)
  succeeded m h t = elim (h t) [ inl (done, e) ↦ inl e | inr same ↦ inr same ]

  pub Silent-print : (line : String) → Silent (print_line {W = W} line)
  Silent-print line t = inl (tt, refl)

  -- Once the output has begun, nothing fails.
  pub printed :
      (text public_text : String)
      → Silent (
          print_line {W = W} text >>= λ first.
          (print_line "---" >>= λ second. print_line public_text))
  unfolding ◌>>=◌
  printed text public_text t = inl (tt, refl)

  pub Quiet-report_if : (b : Bool) (lines : List Error) → Quiet (report_if {W = W} b lines)
  Quiet-report_if b lines = Quiet-if b _ _ (λ t. refl) (λ t. refl)
