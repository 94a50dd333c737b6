-- ===== src/Utils/Silent/Whole.antt =====
-- The commands of cmd/utils/main.go: what they write on standard output when they fail.
use altinn_k8s_operator.Time.{Time}
use altinn_k8s_operator.Base.{ok, ◌≡◌, refl, ◌⊎◌, String, List, [], ◌∷◌, Result}
use altinn_k8s_operator.Base.Exec.{wrapping}
use altinn_k8s_operator.Base.Map.{Map}
use altinn_k8s_operator.Config.{Config}
use altinn_k8s_operator.Config.ProjectRoot.{FileSystem}
use altinn_k8s_operator.Config.Koanf.{KoanfCalls}
use altinn_k8s_operator.Config.KeyVault.{KeyVaultCalls}
use altinn_k8s_operator.Crypto.Types.{External}
use altinn_k8s_operator.Crypto.Jwt.{Jose}
use altinn_k8s_operator.Maskinporten.Http.{Network, ApiCodec}
use altinn_k8s_operator.Utils.CreateJwk.{create_jwk}
use altinn_k8s_operator.Utils.{Terminal, ToolCalls}
use altinn_k8s_operator.Utils.CreateJwk.{not_after_of, tell_crypto}
use altinn_k8s_operator.Utils.Commands.{
  setup_maskinporten_client, get_token, get_clients, delete_with, delete_client_by_id, get_command,
  create_command, delete_command, main,
}
use altinn_k8s_operator.Utils.Silent.{
  Quiet, Silent, Silent-if, Quiet-if, Silent-exit, Quiet-or_exit, Silent-then, Quiet-then,
  succeeded, Silent-print, printed, Quiet-report_if,
}

module _ {W : Type 0} (tool : ToolCalls) (x : External) where
  Quiet-not_after_of : (text : String) → Quiet (not_after_of {W = W} tool x text)
  unfolding not_after_of
  Quiet-not_after_of text =
      Quiet-if _ _ _ (Quiet-then _ _ (λ t. refl) λ a t. refl) (Quiet-or_exit _ _ λ t. refl)

  Quiet-tell_crypto : (name : String) (until : Time) → Quiet (tell_crypto {W = W} tool x name until)
  unfolding tell_crypto
  Quiet-tell_crypto name until = Quiet-then _ _ (λ t. refl) λ a t. refl

  Silent-create_jwk : (args : List String) → Silent (create_jwk {W = W} tool x args)
  unfolding create_jwk
  Silent-create_jwk args = Silent-then _ _ (Quiet-or_exit _ _ λ t. refl) λ set.
      Silent-then _ _ (Quiet-not_after_of _) λ until.
        Silent-then _ _ (Quiet-or_exit _ _ λ t. refl) λ context.
          Silent-then _ _ (Quiet-if _ _ _ (Quiet-tell_crypto _ until) λ t. refl) λ told.
            Silent-then _ _ (λ t. refl)
              λ crypto. Silent-then _ _ (Quiet-or_exit _ _ λ t. refl) λ jwks.
                Silent-then _ _ (λ t. refl)
                  λ first.
                    Silent-then _ _ (λ t. refl)
                      λ jwk. Silent-then _ _ (Quiet-or_exit _ _ λ t. refl) λ text.
                        Silent-then _ _ (Quiet-or_exit _ _ λ t. refl)
                          λ public_text. printed text public_text

module _ {W : Type 0} (tool : ToolCalls) (fs : FileSystem) (koanf : KoanfCalls)
    (vault : KeyVaultCalls W) (validate : Config → Result (Unit {0})) (n : Network W)
    (codec : ApiCodec) (jose : Jose) (x : External) where
  Quiet-setup_maskinporten_client :
      (env_file : String)
      → Quiet (setup_maskinporten_client tool fs koanf vault validate n codec jose x env_file)
  unfolding setup_maskinporten_client wrapping
  Quiet-setup_maskinporten_client env_file =
      Quiet-then _ _ (λ t. refl)
        λ context. Quiet-then _ _ (λ t. refl) λ config. Quiet-then _ _ (λ t. refl) λ client t. refl

  Silent-get_token :
      (args : List String) → Silent (get_token tool fs koanf vault validate n codec jose x args)
  unfolding get_token
  Silent-get_token args = Silent-then _ _ (Quiet-or_exit _ _ λ t. refl) λ set.
      Silent-then _ _ (Quiet-or_exit _ _ λ t. refl) λ context.
        Silent-then _ _ (Quiet-or_exit _ _ λ t. refl) λ config.
          Silent-then _ _ (Quiet-report_if _ _) λ told.
            Silent-then _ _ (Quiet-or_exit _ _ λ t. refl) λ client.
              Silent-then _ _ (Quiet-or_exit _ _ λ t. refl)
                λ answer. Silent-then _ _ (λ t. refl) λ token. Silent-print _

  Silent-get_clients :
      (args : List String) → Silent (get_clients tool fs koanf vault validate n codec jose x args)
  unfolding get_clients
  Silent-get_clients args = Silent-then _ _ (Quiet-or_exit _ _ λ t. refl) λ set.
      Silent-then _ _ (Quiet-or_exit _ _ (Quiet-setup_maskinporten_client _)) λ setup.
        Silent-then _ _ (Quiet-report_if _ _) λ told.
          Silent-then _ _ (Quiet-or_exit _ _ λ t. refl) λ clients.
            Silent-then _ _ (Quiet-report_if _ _)
              λ counted. Silent-then _ _ (Quiet-or_exit _ _ λ t. refl) λ output. Silent-print output

  Silent-delete_with :
      (set : Map String) (id : String)
      → Silent (delete_with tool fs koanf vault validate n codec jose x set id)
  unfolding delete_with
  Silent-delete_with set id =
      Silent-then _ _ (Quiet-or_exit _ _ (Quiet-setup_maskinporten_client _)) λ setup.
        Silent-then _ _ (Quiet-report_if _ _) λ told.
          Silent-then _ _ (Quiet-or_exit _ _ λ t. refl)
            λ deleted. Silent-then _ _ (Quiet-report_if _ _) λ done. Silent-print id

  Silent-delete_client_by_id :
      (args : List String)
      → Silent (delete_client_by_id tool fs koanf vault validate n codec jose x args)
  unfolding delete_client_by_id
  Silent-delete_client_by_id args =
      Silent-then _ _ (Quiet-or_exit _ _ λ t. refl)
        λ set. Silent-if _ _ _ (Silent-exit _) (Silent-delete_with set _)

  Silent-get_command :
      (args : List String) → Silent (get_command tool fs koanf vault validate n codec jose x args)
  unfolding get_command
  Silent-get_command [] = Silent-exit _
  Silent-get_command (name ∷ args) =
      Silent-if _ _ _ (Silent-get_token args)
        (Silent-if _ _ _ (Silent-get_clients args) (Silent-exit _))

  Silent-create_command :
      (args : List String)
      → Silent (create_command tool fs koanf vault validate n codec jose x args)
  unfolding create_command
  Silent-create_command [] = Silent-exit _
  Silent-create_command (name ∷ args) =
      Silent-if _ _ _ (Silent-create_jwk tool x args) (Silent-exit _)

  Silent-delete_command :
      (args : List String)
      → Silent (delete_command tool fs koanf vault validate n codec jose x args)
  unfolding delete_command
  Silent-delete_command [] = Silent-exit _
  Silent-delete_command (name ∷ args) =
      Silent-if _ _ _ (Silent-delete_client_by_id args) (Silent-exit _)

  Silent-main :
      (args : List String) → Silent (main tool fs koanf vault validate n codec jose x args)
  unfolding main
  Silent-main [] = Silent-exit _
  Silent-main (command ∷ args) = Silent-if _ _ _ (Silent-get_command args) (
      Silent-if _ _ _ (Silent-create_command args)
        (Silent-if _ _ _ (Silent-delete_command args) (Silent-exit _)))

  -- Whatever its arguments, a run of the tool succeeds, or it has written nothing on standard
  -- output.
  pub main-IsSilent :
      (args : List String) (t : Terminal W)
      → ((main tool fs koanf vault validate n codec jose x args t).0 ≡ ok tt)
        ⊎ ((main tool fs koanf vault validate n codec jose x args t).1.output ≡ t.output)
  main-IsSilent args t =
      succeeded (main tool fs koanf vault validate n codec jose x args) (Silent-main args) t
