-- ===== src/Maskinporten/ClientState/Commands.antt =====
-- The commands of internal/maskinporten/client_state.go. A command leads by pointers to the API
-- state and the secret content that it carries; the callback of a creation writes through the
-- same pointers, so the objects stand on a heap here.
use altinn_k8s_operator.Base.{
  ℕ, String, Option, none, some, List, [], ◌∷◌, ◌++◌, map, Result, ok, length, get_elem?, set,
}
use altinn_k8s_operator.Base.Exec.{Exec, ◌>>=◌}
use altinn_k8s_operator.Crypto.Jwks.{nil_pointer}
use altinn_k8s_operator.Crypto.Types.{Env}
use altinn_k8s_operator.Maskinporten.Dto.{ClientResponse}
use altinn_k8s_operator.Maskinporten.Secret.{SecretStateContent}
use altinn_k8s_operator.Maskinporten.ClientState.{ApiState}

pub record Heap : Type 0 where
  pub apis : List ApiState
  pub contents : List SecretStateContent

-- What a reconciliation works on: the random reader and the clock, and the objects.
pub record Store : Type 0 where
  pub env : Env
  pub heap : Heap

pub data CommandData : Type 0 where
  create_client_in_api : ℕ → CommandData
  update_secret_content : ℕ → CommandData
  update_client_in_api : ℕ → CommandData
  delete_client_in_api : String → CommandData
  delete_secret_content : CommandData

pub record Command : Type 0 where
  pub action : CommandData
  pub callback : Option (ClientResponse → Exec Store (Unit {0}))

abbrev pub CommandList : Type 0
CommandList = List Command

-- The names of the commands' types.
abbrev type_name : CommandData → String
type_name (create_client_in_api p) = "CreateClientInApiCommand"
type_name (update_secret_content p) = "UpdateSecretContentCommand"
type_name (update_client_in_api p) = "UpdateClientInApiCommand"
type_name (delete_client_in_api id) = "DeleteClientInApiCommand"
type_name delete_secret_content = "DeleteSecretContentCommand"

unfoldable pub strings : CommandList → List String
strings cs = map (λ (c : Command). type_name c.action) cs

-- Part of the work that uses the random reader and the clock alone.
unfoldable pub on_env : {A : Type 0} → Exec Env A → Exec Store A
on_env m s = let (r, e) = m s.env in (r, record s { env = e })

-- &ApiState{…} and &SecretStateContent{…}
unfoldable pub new_api : ApiState → Exec Store ℕ
new_api a s = (
  ok (length (s.heap).apis),
  record s { heap = record (s.heap) { apis = (s.heap).apis ++ (a ∷ []) } },
)

unfoldable pub new_content : SecretStateContent → Exec Store ℕ
new_content c s = (
  ok (length (s.heap).contents),
  record s { heap = record (s.heap) { contents = (s.heap).contents ++ (c ∷ []) } },
)

abbrev pub read : {A : Type 0} → Option A → Result A
read none = nil_pointer
read (some a) = ok a

unfoldable pub read_api : ℕ → Exec Store ApiState
read_api p s = (read (get_elem? (s.heap).apis p), s)

unfoldable pub read_content : ℕ → Exec Store SecretStateContent
read_content p s = (read (get_elem? (s.heap).contents p), s)

unfoldable pub write_api : ℕ → ApiState → Exec Store (Unit {0})
write_api p a s = (ok tt, record s { heap = record (s.heap) { apis = set (s.heap).apis p a } })

unfoldable pub write_content : ℕ → SecretStateContent → Exec Store (Unit {0})
write_content p c s =
    (ok tt, record s { heap = record (s.heap) { contents = set (s.heap).contents p c } })

-- The callback of a creation: both objects get the ID that the API gave to the client.
unfoldable pub set_client_id : ℕ → ℕ → ClientResponse → Exec Store (Unit {0})
unfolding read_api read_content write_api write_content ◌>>=◌
set_client_id p q resp = do
  api ← read_api p
  done ← write_api p (record api { client_id = resp.client_id })
  content ← read_content q
  write_content q (record content { client_id = resp.client_id })
