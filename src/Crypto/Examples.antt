-- ===== src/Crypto/Examples.antt =====
-- Key sets at concrete data.
use altinn_k8s_operator.Base.{
  ℕ, ◌+◌, ◌*◌, ◌<◌, ◌≡◌, refl, String, Option, none, some, List, [], ◌∷◌, ok, arith, ◌⊎◌, Forall₂,
}
use altinn_k8s_operator.Base.Exec.{◌>>=◌}
use altinn_k8s_operator.Base.Int.{pos}
use altinn_k8s_operator.Base.Text.Decimal.{format_int, digits, successor, atoi}
use altinn_k8s_operator.Base.Text.Split.{split_on, last?}
use altinn_k8s_operator.Time.{Time}
use altinn_k8s_operator.Crypto.Types.{Certificate, rsa_private, rsa_public}
use altinn_k8s_operator.Crypto.Jwks.{Jwk, Jwks, new_jwk, new_jwks, public, public_keys, to_public}
use altinn_k8s_operator.Crypto.Jwks.Public.{IsPublicHalf, to_public-IsPublicHalf}
use altinn_k8s_operator.Crypto.ActiveKey.{select, first_certificate, one_certificate, index_of}
use altinn_k8s_operator.Crypto.ActiveKey.Latest.{IsLatest, select-IsLatest}
use altinn_k8s_operator.Crypto.Service.{
  create_cert, create_jwks, create_jwks_at, now, template, check_not_after,
  generate_cert_serial_number, read_full, check_serial, set_bytes,
}
use altinn_k8s_operator.Crypto.Service.Certificates.{IsNewKey, create_jwks-IsNewKey}
use altinn_k8s_operator.Crypto.Rotation.{rotate, rotate_if_due, rotate_if_needed}
use altinn_k8s_operator.Crypto.Rotation.NewKey.{IsNotDue, IsRotation, rotate_if_needed-IsRotation}
use altinn_k8s_operator.Crypto.Rotation.Schedule.{rotation_settles}
use altinn_k8s_operator.Crypto.Demo.{
  day, today, certificate_until, pair_of, demo, demo-KnowsRsa, demo-KeepsValidity, demo_service,
  demo_env,
}

abbrev key_until : String → ℕ → Time → Option Jwk
key_until id n t = some (record {
  inner = record {
    certificates = certificate_until t ∷ [];
    key = rsa_private (pair_of n);
    key_id = id;
    key_use = "sig";
    algorithm = "RS512";
  };
})

abbrev two_keys : List (Option Jwk)
two_keys = key_until "a.3" 5 (today + 3 * day) ∷ key_until "a.2" 4 (today + day) ∷ []

abbrev month : Time
month = today + 30 * day

create_run : create_jwks demo demo_service "testapp" month demo_env ≡ (
  ok (record { keys = key_until "5e1f.0" 77 month ∷ [] }),
  record { random = []; readings = 1 },
)
unfolding create_jwks create_cert create_jwks_at now template check_not_after
    generate_cert_serial_number read_full check_serial set_bytes format_int digits new_jwk new_jwks
    ◌>>=◌
create_run = refl

create_jwks-IsNewKey_example :
    (demo.clock 0 < month)
    × (fresh : Option Jwk) × (◌≡◌ {A = List (Option Jwk)}
        (key_until "5e1f.0" 77 month ∷ [])
        (fresh ∷ []))
    × IsNewKey month (pos 0) fresh
create_jwks-IsNewKey_example =
    create_jwks-IsNewKey demo demo-KeepsValidity demo_service "testapp" month demo_env
      (record { random = []; readings = 1 }) (record { keys = key_until "5e1f.0" 77 month ∷ [] })
      create_run

to_public-IsPublicHalf_example :
    (halves : Jwks) × (to_public demo (some (record { keys = two_keys })) ≡ ok halves)
    × Forall₂ (IsPublicHalf demo) two_keys halves.keys
to_public-IsPublicHalf_example =
    to_public-IsPublicHalf demo demo-KnowsRsa (record { keys = two_keys })
      ((pair_of 5, refl), ((pair_of 4, refl), tt))

abbrev public_key : String → ℕ → Option Jwk
public_key id n = some (record {
  inner = record {
    certificates = [];
    key = rsa_public n;
    key_id = id;
    key_use = "sig";
    algorithm = "RS512";
  };
})

public_run :
    to_public demo (some (record { keys = two_keys }))
    ≡ ok (record { keys = public_key "a.3" 5 ∷ public_key "a.2" 4 ∷ [] })
unfolding to_public public_keys public
public_run = refl

select-IsLatest_example :
    (b : Option Jwk) × (c : Certificate) × (select none two_keys ≡ ok b) × IsLatest two_keys b c
select-IsLatest_example =
    select-IsLatest (key_until "a.3" 5 (today + 3 * day)) (key_until "a.2" 4 (today + day) ∷ []) (
      (certificate_until (today + 3 * day), record { there = λ e. cc; only = refl }),
      ((certificate_until (today + day), record { there = λ e. cc; only = refl }), tt),
    )

abbrev rotated : Jwks
rotated = record { keys = key_until "5e1f.4" 77 month ∷ key_until "a.3" 5 (today + 3 * day) ∷ [] }

rotate_run :
    rotate_if_needed demo demo_service "testapp" month (some (record { keys = two_keys })) demo_env
    ≡ (ok (some rotated), record { random = []; readings = 2 })
unfolding rotate_if_needed rotate_if_due rotate select first_certificate one_certificate index_of
    split_on last? atoi successor create_cert create_jwks_at now template check_not_after
    generate_cert_serial_number read_full check_serial set_bytes format_int digits new_jwk new_jwks
    ◌>>=◌
rotate_run = refl

rotate_if_needed-IsRotation_example :
    (◌≡◌ {A = Option Jwks} (some rotated) none
      × IsNotDue (record { keys = two_keys }) (demo.clock 0))
    ⊎ IsRotation month (record { keys = two_keys }) (demo.clock 0) (some rotated)
rotate_if_needed-IsRotation_example =
    rotate_if_needed-IsRotation demo demo-KeepsValidity demo_service "testapp" month
      (record { keys = two_keys }) (some rotated) demo_env (record { random = []; readings = 2 })
      rotate_run

rotation_settles_example :
    rotate_if_needed demo demo_service "testapp" month
      (some rotated)
      (record { random = []; readings = 2 })
    ≡ (ok none, record { random = []; readings = 3 })
rotation_settles_example =
    rotation_settles demo demo-KeepsValidity demo_service "testapp" month
      (record { keys = two_keys }) rotated demo_env (record { random = []; readings = 2 })
      (record { random = []; readings = 2 }) rotate_run (omega arith)
