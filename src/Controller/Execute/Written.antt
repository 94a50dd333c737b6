-- ===== src/Controller/Execute/Written.antt =====
-- What the execution of a command that writes the secret has written.
use altinn_k8s_operator.Base.{
  ℕ, String, ◌==◌, eq_iff, ◌≡◌, refl, ap, ◌∙◌, sym, ◌≢◌, Bool, true, false, not, some, ok,
  get_elem?,
}
use altinn_k8s_operator.Base.Exec.Ensures.{Ensures, Ensures-bind, Ensures-lift, Ensures-weaken}
use altinn_k8s_operator.Crd.{Secret}
use altinn_k8s_operator.Maskinporten.Secret.{
  SecretStateContent, Decodes, deserialize_secret_state_content,
}
use altinn_k8s_operator.Maskinporten.Secret.RoundTrip.{deserialize-serialize}
use altinn_k8s_operator.Maskinporten.ClientState.Commands.{Command, update_secret_content}
use altinn_k8s_operator.Controller.{Services, Running}
use altinn_k8s_operator.Controller.Steps.{Ensures-on_world, Ensures-read_content}
use altinn_k8s_operator.Controller.Execute.{execute, assert_with}

assert_with-eq-ok :
    (b : Bool) (m : String) (u : Unit {0}) → assert_with (not b) m ≡ ok u → b ≡ false
assert_with-eq-ok false m u e = refl
assert_with-eq-ok true m u e = cc

not_empty : (id : String) → (id == "") ≡ false → id ≢ ""
not_empty id e h = true-false (id == "") ((eq_iff id "").1 h) e
  where
    true-false : (b : Bool) → b ≡ true → b ≡ false → ⊥
    true-false b p q = cc

module _ {W : Type 0} (services : Services W) (laws : Decodes services.codec) where
  -- The content that a pointer leads to stands in a secret that was sent to the cluster.
  abbrev pub IsWritten : ℕ → Running W → Running W → Type 0
  IsWritten q s s' =
      (content : SecretStateContent) × (updated : Secret) × (get_elem? ((s.store).heap).contents q
        ≡ some content)
      × (content.client_id ≢ "")
      × (deserialize_secret_state_content services.codec (some updated) ≡ ok (some content))
      × (services.update_secret updated s.world ≡ (ok tt, s'.world))
      × (s'.store ≡ s.store)

  pub update_secret-Ensures :
      (manifest : Secret) (c : Command) (q : ℕ) (s : Running W)
      → Ensures
          (execute services manifest c (update_secret_content q))
          s
          (λ done s'. IsWritten q s s')
  unfolding execute
  update_secret-Ensures manifest c q s =
      Ensures-bind _ _ s (Ensures-read_content q s) λ content s₁ (found, same₁).
        Ensures-bind _ _ s₁ (Ensures-lift _ s₁) λ checked s₂ (asserted, same₂).
          Ensures-bind _ _ s₂ (Ensures-lift _ s₂) λ updated s₃ (serialized, same₃).
            Ensures-weaken _ s₃ (Ensures-on_world _ s₃) λ done s₄ (sent, kept). (
              content,
              updated,
              found,
              not_empty content.client_id
                  (assert_with-eq-ok (content.client_id == "") _ checked asserted),
              (deserialize-serialize services.codec laws content manifest updated "" serialized).0,
              ap (λ (t : Running W). services.update_secret updated t.world)
                    (sym (same₃ ∙ same₂ ∙ same₁))
                  ∙ sent,
              kept ∙ ap (λ (t : Running W). t.store) (same₃ ∙ same₂ ∙ same₁),
            )

  -- A command that writes the secret and succeeds has sent to the cluster, once, a secret from
  -- which the content that the command's pointer leads to is read back, and this content has a
  -- client ID, which is not empty.
  pub execute-IsWritten :
      (manifest : Secret) (c : Command) (q : ℕ) (s s' : Running W)
      → execute services manifest c (update_secret_content q) s ≡ (ok tt, s')
      → IsWritten q s s'
  execute-IsWritten manifest c q s s' e = (update_secret-Ensures manifest c q s).returns tt s' e
