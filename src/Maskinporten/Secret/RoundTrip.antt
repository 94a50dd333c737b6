-- ===== src/Maskinporten/Secret/RoundTrip.antt =====
-- What the secret's content is after it was written or deleted.
use altinn_k8s_operator.Base.{
  ok_injective, ℕ, String, ◌≡◌, sym, inl, inr, Option-cases, none, some, List, ok, arith, >>=-eq-ok,
  ◌==◌, refl, if◌then◌else◌,
}
use altinn_k8s_operator.Base.Map.{lookup, insert, lookup-insert, lookup-erase}
use altinn_k8s_operator.Crd.{Secret}
use altinn_k8s_operator.Maskinporten.Secret.{
  json_file_name, SecretStateContent, Codec, Decodes, entries, serialize_to,
  deserialize_secret_state_content, delete_secret_state_content,
}

-- A secret with one entry of its data written.
abbrev written : List ℕ → Secret → Secret
written b s = record s { contents = some (insert json_file_name b (entries s.contents)) }

deserialize-written :
    (j : Codec) (c : SecretStateContent) (b : List ℕ) (s : Secret)
    → j.unmarshal b ≡ ok c
    → deserialize_secret_state_content j (some (written b s)) ≡ ok (some c)
unfolding deserialize_secret_state_content
deserialize-written j c b s h = rw lookup-insert (rw h refl)

module _ (j : Codec) where
  -- After SerializeTo the secret's content is the one that was written, every other entry of the
  -- secret is as it was, and so are its name and type.
  pub deserialize-serialize :
      Decodes j
      → (c : SecretStateContent) (s s' : Secret) (k : String) → serialize_to j c (some s) ≡ ok s'
      → (deserialize_secret_state_content j (some s') ≡ ok (some c))
        × (lookup k (entries s'.contents) ≡ (
            if json_file_name == k
            then lookup json_file_name (entries s'.contents)
            else lookup k (entries s.contents)))
        × (s'.name ≡ s.name)
        × (s'.secret_type ≡ s.secret_type)
  unfolding serialize_to
  deserialize-serialize laws c s s' k h =
      let (b, e, g) = >>=-eq-ok (j.marshal c) _ h in
      rw (sym (ok_injective g))
        (deserialize-written j c b s (laws.unmarshal-marshal c b e), simp lookup-insert, refl, refl)

  -- After DeleteSecretStateContent the secret has no content, and every other entry is as it was.
  pub deserialize-delete :
      (s : Secret) (k : String)
      → (deserialize_secret_state_content j (some (delete_secret_state_content s)) ≡ ok none)
        × (lookup k (entries (delete_secret_state_content s).contents)
            ≡ (if json_file_name == k then none else lookup k (entries s.contents)))
  unfolding delete_secret_state_content deserialize_secret_state_content
  deserialize-delete s k = elim (Option-cases s.contents) [
    | inl empty ↦ rw empty (refl, unfold lookup in ground arith)
    | inr (m, full) ↦ rw full (rw lookup-erase refl, lookup-erase json_file_name k m)
  ]
