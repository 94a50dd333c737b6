-- ===== src/Controller/Status/Recorded.antt =====
-- What a status update has recorded in the resource.
use altinn_k8s_operator.Base.{◌≡◌, String, Option, some, ok, if◌then◌else◌}
use altinn_k8s_operator.Base.Exec.{Exec}
use altinn_k8s_operator.Base.Exec.Ensures.{Ensures}
use altinn_k8s_operator.Time.{Time}
use altinn_k8s_operator.Crd.{MaskinportenClient, MaskinportenClientStatus}
use altinn_k8s_operator.Maskinporten.ClientState.Commands.{CommandList}
use altinn_k8s_operator.Controller.{Services, RequestKind}
use altinn_k8s_operator.Controller.Status.{update_finalizers, last_actions}

-- The second status differs from the first one only in what commands say of the client and keys.
pub record IsUpdated (old new : MaskinportenClientStatus) : Type 0 where
  pub same_synced : new.last_synced ≡ old.last_synced
  pub same_state : new.state ≡ old.state
  pub same_reason : new.reason ≡ old.reason
  pub same_generation : new.observed_generation ≡ old.observed_generation
  pub same_actions : new.last_actions ≡ old.last_actions

module _ {W : Type 0} (services : Services W) where
  -- What was recorded, and the one update that was sent.
  pub record IsRecorded (kind : Option RequestKind) (old updated : MaskinportenClient)
      (state reason : String) (commands : Option CommandList) (before after : W) : Type 0 where
    pub timestamp : Time
    pub between : W
    pub clock : services.wall_clock before ≡ (ok timestamp, between)
    pub synced : (updated.status).last_synced ≡ some timestamp
    pub state_set : (updated.status).state ≡ state
    pub reason_set : (updated.status).reason ≡ reason
    pub observed : (updated.status).observed_generation ≡ old.generation
    pub actions : (updated.status).last_actions ≡ last_actions commands
    pub same_spec : updated.spec ≡ old.spec
    pub finalizers : updated.finalizers ≡ (update_finalizers services kind old.finalizers).1
    pub sent :
        (if (update_finalizers services kind old.finalizers).0
            then services.update_instance updated
            else services.update_instance_status updated)
          between
        ≡ (ok tt, after)
