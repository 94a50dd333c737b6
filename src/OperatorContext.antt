-- ===== src/OperatorContext.antt =====
-- internal/operatorcontext/operatorcontext.go. The cancellation context and the tracer, which
-- the program only hands on, are left out of the record.
use altinn_k8s_operator.Base.{
  String, Bool, Option, none, some, ◌==◌, Error, Result, ok, err, crash, ◌>>=◌,
}

pub record Context : Type 0 where
  pub service_owner_name : String
  pub service_owner_org_no : String
  pub environment : String
  pub run_id : String

abbrev pub environment_local : String
environment_local = "local"

abbrev pub environment_dev : String
environment_dev = "dev"

unfoldable pub is_local : Context → Bool
is_local c = c.environment == environment_local

unfoldable pub is_dev : Context → Bool
is_dev c = c.environment == environment_dev

unfoldable pub override_environment : String → Context → Context
override_environment env c = record c { environment = env }

-- `cancelled` is what ctx.Err() gives, and `uuid` what the generator gives.
unfoldable pub discover : Option Error → Result String → Result Context
discover (some e) uuid = err e
discover none uuid = do
  run_id ← uuid
  ok (record {
    service_owner_name = "local";
    service_owner_org_no = "991825827";
    environment = environment_local;
    run_id = run_id;
  })

unfoldable pub or_die : Result Context → Result Context
or_die (ok c) = ok c
or_die (err e) = crash "panic"
or_die (crash m) = crash m

unfoldable pub discover_or_die : Option Error → Result String → Result Context
unfolding discover or_die
discover_or_die cancelled uuid = or_die (discover cancelled uuid)
