-- ===== src/Controller/Steps.antt =====
-- What a call on a part of the running state ensures.
use altinn_k8s_operator.Base.{◌≡◌, ap, sym, ok}
use altinn_k8s_operator.Base.Exec.{Exec}
use altinn_k8s_operator.Base.Exec.Ensures.{Ensures}
use altinn_k8s_operator.Base.{ℕ, Option, none, some, get_elem?}
use altinn_k8s_operator.Maskinporten.ClientState.Commands.{Store, read, read_api, read_content}
use altinn_k8s_operator.Controller.{Running, on_store, on_world}

module _ {W A : Type 0} where
  pub Ensures-on_store :
      (m : Exec Store A) (s : Running W)
      → Ensures (on_store m) s (λ a s'. (m s.store ≡ (ok a, s'.store)) × (s'.world ≡ s.world))
  unfolding on_store
  Ensures-on_store m s = record {
    returns = λ a s' e. (λ i. ((e i).0, ((e i).1).store), ap (λ p. (p.1).world) (sym e));
  }

  pub Ensures-on_world :
      (m : Exec W A) (s : Running W)
      → Ensures (on_world m) s (λ a s'. (m s.world ≡ (ok a, s'.world)) × (s'.store ≡ s.store))
  unfolding on_world
  Ensures-on_world m s = record {
    returns = λ a s' e. (λ i. ((e i).0, ((e i).1).world), ap (λ p. (p.1).store) (sym e));
  }

read-eq-ok : {A : Type 0} (o : Option A) (a : A) → read o ≡ ok a → o ≡ some a
read-eq-ok none a e = cc
read-eq-ok (some b) a e = cc

module _ {W : Type 0} where
  pub Ensures-read_api :
      (p : ℕ) (s : Running W)
      → Ensures
          (on_store (read_api p))
          s
          (λ a s'. (get_elem? ((s.store).heap).apis p ≡ some a) × (s' ≡ s))
  unfolding on_store read_api
  Ensures-read_api p s = record {
    returns = λ a s' e.
        (read-eq-ok (get_elem? ((s.store).heap).apis p) a (ap (λ r. r.0) e), ap (λ r. r.1) (sym e));
  }

  pub Ensures-read_content :
      (q : ℕ) (s : Running W)
      → Ensures
          (on_store (read_content q))
          s
          (λ c s'. (get_elem? ((s.store).heap).contents q ≡ some c) × (s' ≡ s))
  unfolding on_store read_content
  Ensures-read_content q s = record {
    returns = λ a s' e. (
      read-eq-ok (get_elem? ((s.store).heap).contents q) a (ap (λ r. r.0) e),
      ap (λ r. r.1) (sym e),
    );
  }
