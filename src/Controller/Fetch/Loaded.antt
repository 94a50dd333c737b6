-- ===== src/Controller/Fetch/Loaded.antt =====
-- What loadInstance has loaded, and recorded of a new resource.
use altinn_k8s_operator.Base.{◌≡◌, true, false, none, some, ◌⊎◌}
use altinn_k8s_operator.Base.Exec.{◌>>=◌}
use altinn_k8s_operator.Base.Exec.Ensures.{Ensures}
use altinn_k8s_operator.Crd.{MaskinportenClient}
use altinn_k8s_operator.Controller.{
  Services, RequestKind, request_create, request_update, request_delete, finalizer_name,
}
use altinn_k8s_operator.Controller.Status.Recorded.{IsRecorded}
use altinn_k8s_operator.Controller.Fetch.{is_zero_timestamp}

module _ {W : Type 0} (services : Services W) where
  -- The kind of the request, and what became of the resource that was read.
  abbrev pub IsLoaded : MaskinportenClient → RequestKind → MaskinportenClient → W → W → Type 0
  IsLoaded original kind found before after =
      ((kind ≡ request_delete)
        × (found ≡ original)
        × (is_zero_timestamp original.deletion_timestamp ≡ false)
        × (after ≡ before))
      ⊎ (((kind ≡ request_update)
            × (found ≡ original)
            × (is_zero_timestamp original.deletion_timestamp ≡ true)
            × (services.contains_finalizer finalizer_name original.finalizers ≡ true)
            × (after ≡ before))
          ⊎ ((kind ≡ request_create)
              × (is_zero_timestamp original.deletion_timestamp ≡ true)
              × (services.contains_finalizer finalizer_name original.finalizers ≡ false)
              × IsRecorded services (some request_create) original found "recorded" "" none before
                  after))
