-- ===== src/Controller/Loop/Finished.antt =====
-- What a reconciliation that succeeds has done.
use altinn_k8s_operator.Base.{◌≡◌, String, ◌<>◌, Option, none, some, [], ok, length, ◌⊎◌}
use altinn_k8s_operator.Base.Int.{pos}
use altinn_k8s_operator.Base.Text.Decimal.{format_int}
use altinn_k8s_operator.Base.Exec.{Exec}
use altinn_k8s_operator.Base.Exec.Ensures.{Ensures}
use altinn_k8s_operator.OperatorContext.{Context}
use altinn_k8s_operator.Config.{Config}
use altinn_k8s_operator.Time.{Duration}
use altinn_k8s_operator.Crd.{MaskinportenClient}
use altinn_k8s_operator.Crypto.Types.{External}
use altinn_k8s_operator.Crypto.Service.{CryptoService}
use altinn_k8s_operator.Maskinporten.ClientState.{ClientState}
use altinn_k8s_operator.Maskinporten.ClientState.Commands.{CommandList}
use altinn_k8s_operator.Controller.{Services, Running, RequestKind}
use altinn_k8s_operator.Controller.Status.Recorded.{IsRecorded}

module _ {W : Type 0} (services : Services W) (x : External) (crypto : CryptoService)
    (context : Context) (config : Config) where
  abbrev pub reason_of : CommandList → String
  reason_of cs = "Reconciled " <> (format_int (pos (length cs)) <> " resources")

  -- Either no command was executed, and nothing else happened; or some were, and the resource was
  -- updated with them, and the request is queued again.
  abbrev pub IsFinished :
      RequestKind
      → MaskinportenClient
      → CommandList
      → Option Duration
      → Running W
      → Running W
      → Type 0
  IsFinished kind found cs delay t s' =
      ((cs ≡ []) × (delay ≡ none) × (s' ≡ t))
      ⊎ ((updated : MaskinportenClient) × (w : W) × (d : Duration) × IsRecorded services (some kind)
            found updated "reconciled" (reason_of cs) (some cs) t.world w
          × (services.requeue_after w ≡ (ok d, s'.world))
          × (delay ≡ some d))
