-- ===== src/Crd.antt =====
-- api/v1alpha1/maskinportenclient_types.go: the MaskinportenClient resource, with the metadata
-- that the operator reads or writes; and the secrets of corev1 that it writes its output to.
use altinn_k8s_operator.Base.{ℕ, String, Option, List, Slice}
use altinn_k8s_operator.Base.Map.{Map}
use altinn_k8s_operator.Time.{Time}

pub record MaskinportenClientSpec : Type 0 where
  pub scopes : Slice

pub record MaskinportenClientStatus : Type 0 where
  pub client_id : String
  pub authority : String
  pub key_ids : Slice
  pub last_synced : Option Time
  pub state : String
  pub reason : String
  pub observed_generation : ℕ
  pub last_actions : Slice

pub record MaskinportenClient : Type 0 where
  pub name : String
  pub namespace : String
  pub generation : ℕ
  pub deletion_timestamp : Option Time
  pub finalizers : List String
  pub spec : MaskinportenClientSpec
  pub status : MaskinportenClientStatus

-- corev1.Secret; the map `data` may be nil.
pub record Secret : Type 0 where
  pub name : String
  pub secret_type : String
  pub contents : Option (Map (List ℕ))
