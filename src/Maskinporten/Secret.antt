-- ===== src/Maskinporten/Secret.antt =====
-- The content that the operator keeps in an app's secret (internal/maskinporten/client_state.go).
-- encoding/json, which reaches the methods of go-jose, is the parameter `Codec`.
pub mod RoundTrip
use altinn_k8s_operator.Base.{
  ℕ, String, Option, none, some, List, [], Result, ok, err, message, ◌>>=◌, ◌≡◌,
}
use altinn_k8s_operator.Base.Map.{Map, lookup, insert, erase}
use altinn_k8s_operator.Crypto.Jwks.{Jwk, Jwks}
use altinn_k8s_operator.Crd.{Secret}

abbrev pub json_file_name : String
json_file_name = "maskinporten-settings.json"

pub record SecretStateContent : Type 0 where
  pub client_id : String
  pub authority : String
  pub jwks : Option Jwks
  pub jwk : Option Jwk

pub record Codec : Type 0 where
  pub marshal : SecretStateContent → Result (List ℕ)
  pub unmarshal : List ℕ → Result SecretStateContent

-- What was encoded is decoded to the same content.
pub record Decodes (j : Codec) : Type 0 where
  pub unmarshal-marshal :
      (c : SecretStateContent) (b : List ℕ) → j.marshal c ≡ ok b → j.unmarshal b ≡ ok c

-- A nil map is replaced by a new one before it is written to.
abbrev pub entries : Option (Map (List ℕ)) → Map (List ℕ)
entries none = []
entries (some m) = m

module _ (j : Codec) where
  unfoldable pub serialize_to : SecretStateContent → Option Secret → Result Secret
  serialize_to c none = err (message "cant serialize to nil secret")
  serialize_to c (some s) = do
    bytes ← j.marshal c
    ok (record s { contents = some (insert json_file_name bytes (entries s.contents)) })

  abbrev decode_entry : Option (List ℕ) → Result (Option SecretStateContent)
  decode_entry none = ok none
  decode_entry (some bytes) = do c ← j.unmarshal bytes; ok (some c)

  abbrev decode_contents : Option (Map (List ℕ)) → Result (Option SecretStateContent)
  decode_contents none = ok none
  decode_contents (some m) = decode_entry (lookup json_file_name m)

  unfoldable pub deserialize_secret_state_content :
      Option Secret → Result (Option SecretStateContent)
  deserialize_secret_state_content none = err (message "cant deserialize from nil secret")
  deserialize_secret_state_content (some s) = decode_contents s.contents

-- delete on a nil map does nothing.
abbrev erased : Option (Map (List ℕ)) → Option (Map (List ℕ))
erased none = none
erased (some m) = some (erase json_file_name m)

unfoldable pub delete_secret_state_content : Secret → Secret
delete_secret_state_content s = record s { contents = erased s.contents }
