-- ===== src/Utils/Commands.antt =====
-- The commands of cmd/utils/main.go, and the choice between them.
use altinn_k8s_operator.Base.{
  String, ◌==◌, ◌<>◌, none, List, [], ◌∷◌, Result, Error, message, formatted, length, if◌then◌else◌,
}
use altinn_k8s_operator.Base.Exec.{Exec, pure, lift, wrapping, ◌>>=◌}
use altinn_k8s_operator.Base.Int.{pos}
use altinn_k8s_operator.Base.Map.{Map}
use altinn_k8s_operator.Base.Text.Decimal.{format_int}
use altinn_k8s_operator.OperatorContext.{discover}
use altinn_k8s_operator.Config.{Config}
use altinn_k8s_operator.Config.ProjectRoot.{FileSystem}
use altinn_k8s_operator.Config.Koanf.{KoanfCalls}
use altinn_k8s_operator.Config.KeyVault.{KeyVaultCalls}
use altinn_k8s_operator.Config.Load.{config_source_koanf, get_config}
use altinn_k8s_operator.Crypto.Types.{External}
use altinn_k8s_operator.Crypto.Jwt.{Jose}
use altinn_k8s_operator.Maskinporten.Http.{Network, ApiCodec, HttpApiClient, Session, pointer}
use altinn_k8s_operator.Maskinporten.Http.Tokens.{get_access_token}
use altinn_k8s_operator.Maskinporten.Http.Clients.{get_all_clients, delete_client}
use altinn_k8s_operator.Runtime.{client_for}
use altinn_k8s_operator.Utils.CreateJwk.{create_jwk}
use altinn_k8s_operator.Utils.{
  Terminal, ToolCalls, failed, flags, string_flag, bool_flag, print_line, report_if, exit, or_exit,
  on_process, on_session,
}

module _ {W : Type 0} (tool : ToolCalls) (fs : FileSystem) (koanf : KoanfCalls)
    (vault : KeyVaultCalls W) (validate : Config → Result (Unit {0})) (n : Network W)
    (codec : ApiCodec) (jose : Jose) (x : External) where
  -- The configuration, and the client with its caches.
  unfoldable pub setup_maskinporten_client :
      String → Exec (Terminal W) (Config × HttpApiClient × Session W)
  setup_maskinporten_client env_file = do
    context ← wrapping "failed to discover operator context" (lift (discover none tool.uuid))
    config ←
        wrapping ("failed to load config from " <> env_file)
          (on_process (get_config fs koanf vault validate context config_source_koanf env_file))
    client ←
        wrapping "failed to create Maskinporten client"
          (on_process (client_for codec config context))
    pure (config, client.0, client.1)

  unfoldable pub get_token : List String → Exec (Terminal W) (Unit {0})
  get_token args = do
    set ← flags tool ("env" ∷ "verbose" ∷ []) args
    let env_file = string_flag "env" "dev.env" set
    context ←
        or_exit (failed "Failed to discover operator context") (lift (discover none tool.uuid))
    config ←
        or_exit (failed ("Failed to load config from " <> env_file))
          (on_process (get_config fs koanf vault validate context config_source_koanf env_file))
    told ← report_if (bool_flag "verbose" set) (
        formatted "Configuration loaded from" env_file
        ∷ formatted "Authority URL" config.maskinporten_api.authority_url
        ∷ formatted "Self Service URL" config.maskinporten_api.self_service_url
        ∷ formatted "Client ID" config.maskinporten_api.client_id
        ∷ formatted "Scope" config.maskinporten_api.scope
        ∷ message "---"
        ∷ [])
    client ←
        or_exit (failed "Failed to create Maskinporten client")
          (on_process (client_for codec config context))
    answer ←
        or_exit (failed "Failed to get access token")
          (on_session client.1 (get_access_token n codec client.0 jose x))
    token ← lift (pointer answer)
    print_line token.access_token

  unfoldable pub get_clients : List String → Exec (Terminal W) (Unit {0})
  get_clients args = do
    set ← flags tool ("env" ∷ "verbose" ∷ "pretty" ∷ []) args
    let env_file = string_flag "env" "dev.env" set
    let verbose = bool_flag "verbose" set
    setup ← or_exit (λ e. e ∷ []) (setup_maskinporten_client env_file)
    told ← report_if verbose (
        formatted "Configuration loaded from" env_file
        ∷ formatted "Self Service URL" setup.0.maskinporten_api.self_service_url
        ∷ message "---"
        ∷ [])
    clients ←
        or_exit (failed "Failed to get clients")
          (on_session setup.2 (get_all_clients n codec jose x setup.1))
    counted ←
        report_if verbose
          (formatted "Clients fetched" (format_int (pos (length clients))) ∷ message "---" ∷ [])
    output ←
        or_exit (failed "Failed to marshal clients to JSON")
          (lift (tool.marshal_clients (bool_flag "pretty" set) clients))
    print_line output

  -- DeleteClient for the ID, after the flags are read.
  unfoldable pub delete_with : Map String → String → Exec (Terminal W) (Unit {0})
  delete_with set client_id = do
    let env_file = string_flag "env" "dev.env" set
    let verbose = bool_flag "verbose" set
    setup ← or_exit (λ e. e ∷ []) (setup_maskinporten_client env_file)
    told ← report_if verbose (
        formatted "Configuration loaded from" env_file
        ∷ formatted "Self Service URL" setup.0.maskinporten_api.self_service_url
        ∷ formatted "Deleting client ID" client_id
        ∷ message "---"
        ∷ [])
    deleted ←
        or_exit (failed "Failed to delete client")
          (on_session setup.2 (delete_client n codec jose x setup.1 client_id))
    done ← report_if verbose (formatted "Client deleted" client_id ∷ [])
    print_line client_id

  -- deleteClient
  abbrev pub delete_named : Map String → String → Exec (Terminal W) (Unit {0})
  delete_named set client_id =
      if client_id == ""
      then exit (message "--client-id flag is required" ∷ tool.flag_usage "delete client")
      else delete_with set client_id

  unfoldable pub delete_client_by_id : List String → Exec (Terminal W) (Unit {0})
  unfolding delete_with
  delete_client_by_id args = do
    set ← flags tool ("env" ∷ "client-id" ∷ "verbose" ∷ []) args
    delete_named set (string_flag "client-id" "" set)

  abbrev usage : String → List Error → Exec (Terminal W) (Unit {0})
  usage command lines = exit (formatted "Usage" (tool.program <> (" " <> command)) ∷ lines)

  -- The subcommands of get, create and delete.
  unfoldable pub get_command : List String → Exec (Terminal W) (Unit {0})
  unfolding get_token get_clients
  get_command [] = usage "get <subcommand> [options]" (
      message "Subcommands:"
      ∷ message "  token    Get a Maskinporten access token"
      ∷ message "  clients  List Maskinporten clients"
      ∷ [])
  get_command (name ∷ args) =
      if name == "token"
      then get_token args
      else if name == "clients"
      then get_clients args
      else exit (formatted "Unknown subcommand" name ∷ [])

  unfoldable pub create_command : List String → Exec (Terminal W) (Unit {0})
  unfolding create_jwk
  create_command [] =
      usage "create <subcommand> [options]"
        (message "Subcommands:" ∷ message "  jwk     Create a JSON Web Key Set" ∷ [])
  create_command (name ∷ args) =
      if name == "jwk"
      then create_jwk tool x args
      else exit (formatted "Unknown subcommand" name ∷ [])

  unfoldable pub delete_command : List String → Exec (Terminal W) (Unit {0})
  unfolding delete_client_by_id
  delete_command [] =
      usage "delete <subcommand> [options]"
        (message "Subcommands:" ∷ message "  client  Delete a Maskinporten client" ∷ [])
  delete_command (name ∷ args) =
      if name == "client"
      then delete_client_by_id args
      else exit (formatted "Unknown subcommand" name ∷ [])

  -- main, for the arguments behind the name of the program
  unfoldable pub main : List String → Exec (Terminal W) (Unit {0})
  unfolding get_command create_command delete_command
  main [] = usage "<command> [options]" (
      message "Commands:"
      ∷ message "  get     Get commands"
      ∷ message "  create  Create commands"
      ∷ [])
  main (command ∷ args) =
      if command == "get"
      then get_command args
      else if command == "create"
      then create_command args
      else if command == "delete"
      then delete_command args
      else exit (formatted "Unknown command" command ∷ [])
