-- ===== src/Maskinporten/SecretExamples.antt =====
-- Secrets at concrete data.
use altinn_k8s_operator.Base.{◌≡◌, refl, none, some, [], ◌∷◌, ok, ◌==◌, if◌then◌else◌}
use altinn_k8s_operator.Base.Map.{lookup, insert}
use altinn_k8s_operator.Crd.{Secret}
use altinn_k8s_operator.Maskinporten.Demo.{codec_for, codec_for-Decodes}
use altinn_k8s_operator.Maskinporten.Secret.{
  json_file_name, SecretStateContent, Codec, Decodes, entries, serialize_to,
  deserialize_secret_state_content,
}
use altinn_k8s_operator.Maskinporten.Secret.RoundTrip.{deserialize-serialize}

abbrev pub content : SecretStateContent
content = record {
  client_id = "3f9a";
  authority = "https://test.maskinporten.no";
  jwks = none;
  jwk = none;
}

abbrev pub codec : Codec
codec = codec_for content

pub codec-Decodes : Decodes codec
codec-Decodes = codec_for-Decodes content

abbrev secret : Secret
secret = record {
  name = "local-testapp-deployment-secrets";
  secret_type = "Opaque";
  contents = some (("other.json", 7 ∷ []) ∷ []);
}

abbrev secret_written : Secret
secret_written = record secret {
  contents = some (("other.json", 7 ∷ []) ∷ (json_file_name, 1 ∷ []) ∷ []);
}

serialize_run : serialize_to codec content (some secret) ≡ ok secret_written
unfolding serialize_to insert
serialize_run = refl

deserialize-serialize_example :
    (deserialize_secret_state_content codec (some secret_written) ≡ ok (some content))
    × (lookup "other.json" (entries secret_written.contents) ≡ (
        if json_file_name == "other.json"
        then lookup json_file_name (entries secret_written.contents)
        else lookup "other.json" (entries secret.contents)))
    × (secret_written.name ≡ secret.name)
    × (secret_written.secret_type ≡ secret.secret_type)
deserialize-serialize_example =
    deserialize-serialize codec codec-Decodes content secret secret_written "other.json"
      serialize_run
