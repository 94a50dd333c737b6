-- ===== src/Controller/Execute.antt =====
-- The method reconcile of internal/controller/maskinportenclient_controller.go: it computes the
-- commands and executes them in their order, up to the first that fails.
pub mod Prefix
pub mod Written
pub mod Creation
use altinn_k8s_operator.Base.{
  ℕ, String, ◌==◌, not, Bool, Option, none, some, List, [], ◌∷◌, ◌++◌, Result, ok, err, crash,
  Error, if◌then◌else◌,
}
use altinn_k8s_operator.Base.Exec.{Exec, pure, lift, ◌>>=◌}
use altinn_k8s_operator.OperatorContext.{Context}
use altinn_k8s_operator.Config.{Config}
use altinn_k8s_operator.Crd.{Secret}
use altinn_k8s_operator.Crypto.Types.{External}
use altinn_k8s_operator.Crypto.Jwks.{Jwks, nil_pointer}
use altinn_k8s_operator.Crypto.Service.{CryptoService}
use altinn_k8s_operator.Maskinporten.Dto.{AddClientRequest, ClientResponse}
use altinn_k8s_operator.Maskinporten.Dto.Convert.{convert_add_request_to_update_request}
use altinn_k8s_operator.Maskinporten.Secret.{serialize_to, delete_secret_state_content}
use altinn_k8s_operator.Maskinporten.ClientState.{ClientState}
use altinn_k8s_operator.Maskinporten.ClientState.Commands.{
  Store, Command, CommandData, CommandList, create_client_in_api, update_secret_content,
  update_client_in_api, delete_client_in_api, delete_secret_content, read_api, read_content,
}
use altinn_k8s_operator.Maskinporten.ClientState.Reconcile.{reconcile}
use altinn_k8s_operator.Controller.{Services, Running, on_store, on_world}

-- cmd.Callback(…); a nil function panics.
abbrev call_back :
    Option (ClientResponse → Exec Store (Unit {0})) → ClientResponse → Exec Store (Unit {0})
call_back none resp = lift nil_pointer
call_back (some callback) resp = callback resp

-- assert.AssertWith
abbrev assert_with : Bool → String → Result (Unit {0})
assert_with b m = if b then ok tt else crash m

module _ {W : Type 0} (services : Services W) where
  abbrev pub send_request : String → Option AddClientRequest → Exec W (Unit {0})
  send_request id none = pure tt
  send_request id (some req) = do
    resp ← services.update_client id (convert_add_request_to_update_request req)
    pure tt

  abbrev pub send_jwks : String → Option Jwks → Exec W (Unit {0})
  send_jwks id none = pure tt
  send_jwks id (some jwks) = services.create_client_jwks id jwks

  -- One turn of the loop, for the secret as it was fetched.
  unfoldable pub execute : Secret → Command → CommandData → Exec (Running W) (Unit {0})
  execute manifest c (create_client_in_api p) = do
    api ← on_store (read_api p)
    resp ← on_world (services.create_client api.req api.jwks)
    on_store (call_back c.callback resp)
  execute manifest c (update_client_in_api p) = do
    api ← on_store (read_api p)
    sent ← on_world (send_request api.client_id api.req)
    on_world (send_jwks api.client_id api.jwks)
  execute manifest c (update_secret_content q) = do
    content ← on_store (read_content q)
    checked ← lift (
        assert_with (not (content.client_id == ""))
          "UpdateSecretContentCommand should always have client ID")
    updated ← lift (serialize_to services.codec content (some manifest))
    on_world (services.update_secret updated)
  execute manifest c (delete_client_in_api id) = on_world (services.delete_client id)
  execute manifest c delete_secret_content =
      on_world (services.update_secret (delete_secret_state_content manifest))

  abbrev pub Outcome : Type 0
  Outcome = (CommandList × Result (Unit {0})) × Running W

  -- What a turn does with the result of its command, and how the loop goes on.
  abbrev pub turn :
      CommandList
      → Command
      → (CommandList → Running W → Outcome)
      → Result (Unit {0})
      → Running W
      → Outcome
  turn executed c rest (ok done) s = rest (executed ++ (c ∷ [])) s
  turn executed c rest (err e) s = ((executed, err e), s)
  turn executed c rest (crash m) s = ((executed, crash m), s)

  -- The loop, with the commands executed so far. They are returned with an error, too.
  unfoldable pub execute_all : Secret → CommandList → CommandList → Running W → Outcome
  execute_all manifest [] executed s = ((executed, ok tt), s)
  execute_all manifest (c ∷ cs) executed s =
      let (r, s') = execute manifest c c.action s in turn executed c (execute_all manifest cs) r s'

  abbrev pub run_commands :
      Secret → Result CommandList → Running W → (Option CommandList × Result (Unit {0})) × Running W
  run_commands manifest (ok commands) s =
      let ((executed, r), s') = execute_all manifest commands [] s in ((some executed, r), s')
  run_commands manifest (err e) s = ((none, err e), s)
  run_commands manifest (crash m) s = ((none, crash m), s)

  -- A list that is nil (`none`) if the commands could not be computed.
  unfoldable pub reconcile_state :
      External
      → CryptoService
      → Context
      → Config
      → ClientState
      → Running W
      → (Option CommandList × Result (Unit {0})) × Running W
  reconcile_state x crypto context config current s =
      let (r, s') = on_store (reconcile x crypto context config current) s in
      run_commands (current.secret).manifest r s'
