-- ===== src/Crypto/Demo.antt =====
-- Concrete external calls: keys and identifiers that are read off the random reader, a clock that
-- ticks once a second, and certificates that keep their validity. They meet the assumptions.
use altinn_k8s_operator.Base.{
  ℕ, ◌+◌, ◌-◌, ◌*◌, ◌%◌, ◌≡◌, refl, ap, Bool, true, false, List, [], ◌∷◌, Result, ok, err, message,
  arith,
}
use altinn_k8s_operator.OperatorContext.{Context}
use altinn_k8s_operator.Time.{Time, hour, second}
use altinn_k8s_operator.Crypto.Types.{
  Certificate, RsaPrivateKey, Key, rsa_private, rsa_public, other_key, Env, External, KnowsRsa,
  KeepsValidity, sha512_with_rsa,
}
use altinn_k8s_operator.Crypto.Service.{CryptoService}

abbrev pub day : ℕ
day = 24 * hour

abbrev pub today : Time
today = 738_000 * day

abbrev counts_as_public : Key → Bool
counts_as_public (rsa_private r) = false
counts_as_public (rsa_public n) = true
counts_as_public (other_key n) = false

abbrev public_part : Key → Key
public_part (rsa_private r) = rsa_public r.modulus
public_part k = k

abbrev pub to_second : Time → Time
to_second t = t - t % second

abbrev pub certificate_until : Time → Certificate
certificate_until t = record {
  serial_number = 1;
  subject = record { organization = "local" ∷ []; common_name = "testapp" };
  issuer = record { organization = "Digdir" ∷ []; common_name = "Altinn Operator" };
  not_before = 0;
  not_after = t;
  key_usage = 5;
  ext_key_usage = 1 ∷ [];
  basic_constraints_valid = true;
  signature_algorithm = sha512_with_rsa;
}

abbrev parse : List ℕ → Result Certificate
parse [] = err (message "malformed certificate")
parse (t ∷ _) = ok (certificate_until t)

abbrev pub pair_of : ℕ → RsaPrivateKey
pair_of n = record { modulus = n; private_exponent = n + 1 }

abbrev key_from : List ℕ → Result RsaPrivateKey × List ℕ
key_from [] = (err (message "EOF"), [])
key_from (n ∷ rest) = (ok (pair_of n), rest)

abbrev pub demo : External
demo = record {
  clock = λ n. today + n * second;
  is_public = λ j. counts_as_public j.key;
  public = λ j. record j { key = public_part j.key };
  generate_key = λ bits random. key_from random;
  new_uuid = λ random. (ok "5e1f", random);
  create_certificate = λ t k random. (ok (to_second t.not_after ∷ []), random);
  parse_certificate = parse;
}

pub demo-KnowsRsa : KnowsRsa demo
demo-KnowsRsa = record {
  public_key = λ j n e. rw e;
  private_key = λ j r e. rw e;
  key-public = λ j r e. (rw e, refl);
}

parse_created :
    (t : Time) (der : List ℕ) (c : Certificate)
    → ◌≡◌ {A = Result (List ℕ)} (ok (to_second t ∷ [])) (ok der)
    → parse der ≡ ok c
    → c.not_after ≡ to_second t
parse_created t [] c e h = cc
parse_created t (u ∷ der) c e h = ground arith

pub demo-KeepsValidity : KeepsValidity demo
demo-KeepsValidity = record {
  not_after-parse =
      λ t k random der rest c e h. parse_created t.not_after der c (ap (λ p. p.0) e) h;
}

abbrev pub demo_context : Context
demo_context = record {
  service_owner_name = "local";
  service_owner_org_no = "991825827";
  environment = "local";
  run_id = "1";
}

abbrev pub demo_service : CryptoService
demo_service = record {
  ctx = demo_context;
  signature_algo = "RS512";
  x509_signature_algo = sha512_with_rsa;
  key_size_bits = 4096;
}

-- One number for the key, then the sixteen bytes of a serial number.
abbrev pub demo_env : Env
demo_env = record {
  random = 77 ∷ 0 ∷ 0 ∷ 0 ∷ 0 ∷ 0 ∷ 0 ∷ 0 ∷ 0 ∷ 0 ∷ 0 ∷ 0 ∷ 0 ∷ 0 ∷ 0 ∷ 1 ∷ 2 ∷ [];
  readings = 0;
}
