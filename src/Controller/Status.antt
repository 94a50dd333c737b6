-- ===== src/Controller/Status.antt =====
-- updateStatus and updateStatusWithError of internal/controller/maskinportenclient_controller.go.
pub mod Recorded
use altinn_k8s_operator.Base.{
  String, Bool, false, Option, none, some, List, [], ◌∷◌, Result, ok, err, crash, ◌>>=◌ as ◌>>=ᵣ◌,
  if◌then◌else◌,
}
use altinn_k8s_operator.Base.Exec.{Exec, pure, lift, ◌>>=◌}
use altinn_k8s_operator.Crd.{MaskinportenClient, MaskinportenClientStatus}
use altinn_k8s_operator.Crypto.Jwks.{Jwk, Jwks, key_id, nil_pointer}
use altinn_k8s_operator.Maskinporten.ClientState.Commands.{
  Store, CommandData, CommandList, create_client_in_api, update_secret_content,
  update_client_in_api, delete_client_in_api, delete_secret_content, strings, read_api,
  read_content,
}
use altinn_k8s_operator.Controller.{
  Services, Running, on_store, on_world, finalizer_name, RequestKind, request_create,
  request_update, request_delete,
}

-- The IDs of a set of keys; a nil key panics.
unfoldable pub key_ids : List (Option Jwk) → Result (List String)
key_ids [] = ok []
key_ids (k ∷ keys) = key_id k >>=ᵣ λ id. key_ids keys >>=ᵣ λ ids. ok (id ∷ ids)

abbrev content_key_ids : Option Jwks → Result (List String)
content_key_ids none = nil_pointer
content_key_ids (some jwks) = key_ids jwks.keys

-- What an executed command says in the status.
unfoldable pub record_command :
    MaskinportenClientStatus → CommandData → Exec Store MaskinportenClientStatus
record_command status (create_client_in_api p) = do
  api ← read_api p
  pure (record status { client_id = api.client_id })
record_command status (update_client_in_api p) = do
  api ← read_api p
  pure (record status { client_id = api.client_id })
record_command status (delete_client_in_api id) = pure (record status { client_id = "" })
record_command status (update_secret_content q) = do
  content ← read_content q
  ids ← lift (content_key_ids content.jwks)
  pure (record status { authority = content.authority; key_ids = some ids })
record_command status delete_secret_content =
    pure (record status { authority = ""; key_ids = none })

unfoldable pub record_commands :
    MaskinportenClientStatus → CommandList → Exec Store MaskinportenClientStatus
record_commands status [] = pure status
record_commands status (c ∷ cs) = do next ← record_command status c.action; record_commands next cs

-- A nil list of commands has no actions, and an empty one has an empty list of them.
abbrev pub last_actions : Option CommandList → Option (List String)
last_actions none = none
last_actions (some cs) = some (strings cs)

abbrev pub commands_of : Option CommandList → CommandList
commands_of none = []
commands_of (some cs) = cs

module _ {W : Type 0} (services : Services W) where
  -- The finalizers after the update, and whether they changed.
  abbrev pub update_finalizers : Option RequestKind → List String → Bool × List String
  update_finalizers none fs = (false, fs)
  update_finalizers (some request_create) fs = services.add_finalizer finalizer_name fs
  update_finalizers (some request_update) fs = (false, fs)
  update_finalizers (some request_delete) fs = services.remove_finalizer finalizer_name fs

  -- The instance that was updated.
  unfoldable pub update_status :
      Option RequestKind
      → MaskinportenClient
      → String
      → String
      → Option CommandList
      → Exec (Running W) MaskinportenClient
  update_status kind instance_ state reason commands = do
    timestamp ← on_world services.wall_clock
    status ← on_store (
        record_commands
          (record (instance_.status) {
            state = state;
            last_synced = some timestamp;
            reason = reason;
            last_actions = last_actions commands;
            observed_generation = instance_.generation;
          })
          (commands_of commands))
    updated ← pure (record instance_ {
      status = status;
      finalizers = (update_finalizers kind instance_.finalizers).1;
    })
    done ← on_world (
        if (update_finalizers kind instance_.finalizers).0
        then services.update_instance updated
        else services.update_instance_status updated)
    pure updated

  abbrev forget : {A : Type 0} → Result A → Result (Unit {0})
  forget (ok a) = ok tt
  forget (err e) = ok tt
  forget (crash m) = crash m

  -- An error of the update itself is dropped.
  unfoldable pub update_status_with_error :
      MaskinportenClient → String → Option CommandList → Exec (Running W) (Unit {0})
  update_status_with_error instance_ msg commands s =
      let (r, s') = update_status none instance_ "error" msg commands s in (forget r, s')
