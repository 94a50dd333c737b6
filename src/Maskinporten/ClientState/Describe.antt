-- ===== src/Maskinporten/ClientState/Describe.antt =====
-- Commands without their pointers, and what each step of a reconciliation ensures of the heap.
use altinn_k8s_operator.Base.{
  ok_injective, ℕ, ◌≡◌, refl, ap, sym, ◌∙◌, String, Option, none, some, List, [], ◌∷◌, ◌++◌,
  get_elem?, get_elem?-append_length, get_elem?-append,
}
use mathlib.Core.Path.{ap₂}
use mathlib.Core.Option
use altinn_k8s_operator.Base.Exec.{Exec}
use altinn_k8s_operator.Base.Exec.Ensures.{Ensures}
use altinn_k8s_operator.Crypto.Types.{Env}
use altinn_k8s_operator.Maskinporten.Secret.{SecretStateContent}
use altinn_k8s_operator.Maskinporten.ClientState.{ApiState}
use altinn_k8s_operator.Maskinporten.ClientState.Commands.{
  Heap, Store, CommandData, create_client_in_api, update_secret_content, update_client_in_api,
  delete_client_in_api, delete_secret_content, Command, CommandList, on_env, new_api, new_content,
}

-- A command with the object that its pointer leads to.
pub data Action : Type 0 where
  create : ApiState → Action
  write : SecretStateContent → Action
  update : ApiState → Action
  delete : String → Action
  clear : Action

abbrev pub view : Heap → CommandData → Option Action
view h (create_client_in_api p) = Option.map create (get_elem? h.apis p)
view h (update_secret_content q) = Option.map write (get_elem? h.contents q)
view h (update_client_in_api p) = Option.map update (get_elem? h.apis p)
view h (delete_client_in_api id) = some (delete id)
view h delete_secret_content = some clear

abbrev pub cons? : Option Action → Option (List Action) → Option (List Action)
cons? none rest = none
cons? (some a) none = none
cons? (some a) (some rest) = some (a ∷ rest)

-- The list of actions, if every pointer leads somewhere.
abbrev pub describe : Heap → CommandList → Option (List Action)
describe h [] = some []
describe h (c ∷ cs) = cons? (view h c.action) (describe h cs)

module _ {A : Type 0} where
  pub Ensures-on_env :
      (m : Exec Env A) (s : Store) {Q : A → Env → Type 0}
      → Ensures m s.env Q
      → Ensures (on_env m) s (λ a s'. Q a s'.env × (s'.heap ≡ s.heap))
  unfolding on_env
  Ensures-on_env m s h = record {
    returns = λ a s' e.
        (h.returns a s'.env (λ i. ((e i).0, ((e i).1).env)), ap (λ p. (p.1).heap) (sym e));
  }

-- Every object of the first heap is in the second one, where it was.
pub record Extends (h k : Heap) : Type 0 where
  pub keeps_api : (i : ℕ) (a : ApiState) → get_elem? h.apis i ≡ some a → get_elem? k.apis i ≡ some a
  pub keeps_content :
      (i : ℕ) (c : SecretStateContent)
      → get_elem? h.contents i ≡ some c
      → get_elem? k.contents i ≡ some c

pub Extends-refl : (h k : Heap) → k ≡ h → Extends h k
Extends-refl h k e = record {
  keeps_api = λ i a g. ap (λ (m : Heap). get_elem? m.apis i) e ∙ g;
  keeps_content = λ i c g. ap (λ (m : Heap). get_elem? m.contents i) e ∙ g;
}

pub Extends-trans : (h k l : Heap) → Extends h k → Extends k l → Extends h l
Extends-trans h k l p q = record {
  keeps_api = λ i a g. q.keeps_api i a (p.keeps_api i a g);
  keeps_content = λ i c g. q.keeps_content i c (p.keeps_content i c g);
}

pub Ensures-new_api :
    (a : ApiState) (s : Store)
    → Ensures (new_api a) s (λ p s'. (get_elem? (s'.heap).apis p ≡ some a) × Extends s.heap s'.heap)
unfolding new_api
Ensures-new_api a s = record {
  returns = λ p s' e.
      let at = sym (ok_injective (ap (λ p. p.0) e)) in
      let heap = sym (ap (λ p. (p.1).heap) e) in
      (
        ap (λ (m : Heap). get_elem? m.apis p) heap
            ∙ (ap (λ (i : ℕ). get_elem? ((s.heap).apis ++ (a ∷ [])) i) at
                ∙ get_elem?-append_length (s.heap).apis a),
        record {
          keeps_api = λ i b g.
              ap (λ (m : Heap). get_elem? m.apis i) heap
              ∙ get_elem?-append (s.heap).apis (a ∷ []) i b g;
          keeps_content = λ i c g. ap (λ (m : Heap). get_elem? m.contents i) heap ∙ g;
        },
      );
}

pub Ensures-new_content :
    (c : SecretStateContent) (s : Store)
    → Ensures
        (new_content c)
        s
        (λ q s'. (get_elem? (s'.heap).contents q ≡ some c) × Extends s.heap s'.heap)
unfolding new_content
Ensures-new_content c s = record {
  returns = λ q s' e.
      let at = sym (ok_injective (ap (λ p. p.0) e)) in
      let heap = sym (ap (λ p. (p.1).heap) e) in
      (
        ap (λ (m : Heap). get_elem? m.contents q) heap
            ∙ (ap (λ (i : ℕ). get_elem? ((s.heap).contents ++ (c ∷ [])) i) at
                ∙ get_elem?-append_length (s.heap).contents c),
        record {
          keeps_api = λ i b g. ap (λ (m : Heap). get_elem? m.apis i) heap ∙ g;
          keeps_content = λ i d g.
              ap (λ (m : Heap). get_elem? m.contents i) heap
              ∙ get_elem?-append (s.heap).contents (c ∷ []) i d g;
        },
      );
}

pub describe-cons :
    (h : Heap) (c : Command) (cs : CommandList) (a : Action) (actions : List Action)
    → view h c.action ≡ some a
    → describe h cs ≡ some actions
    → describe h (c ∷ cs) ≡ some (a ∷ actions)
describe-cons h c cs a actions e rest = ap₂ cons? e rest

pub cons?-eq-some :
    (x : Option Action) (xs : Option (List Action)) (actions : List Action)
    → cons? x xs ≡ some actions
    → (a : Action) × (tail : List Action) × (x ≡ some a) × (xs ≡ some tail) × (actions ≡ a ∷ tail)
cons?-eq-some none xs actions e = cc
cons?-eq-some (some a) none actions e = cc
cons?-eq-some (some a) (some tail) actions e = (a, tail, refl, refl, cc)

map-some :
    {A B : Type 0} (f : A → B) (x y : Option A) (b : B)
    → ((a : A) → x ≡ some a → y ≡ some a)
    → Option.map f x ≡ some b
    → Option.map f y ≡ some b
map-some f none y b keeps e = cc
map-some f (some a) y b keeps e = ap (Option.map f) (keeps a refl) ∙ e

view-Extends :
    (h k : Heap) (d : CommandData) (a : Action)
    → Extends h k
    → view h d ≡ some a
    → view k d ≡ some a
view-Extends h k (create_client_in_api p) a more e =
    map-some create (get_elem? h.apis p) (get_elem? k.apis p) a (more.keeps_api p) e
view-Extends h k (update_secret_content q) a more e =
    map-some write (get_elem? h.contents q) (get_elem? k.contents q) a (more.keeps_content q) e
view-Extends h k (update_client_in_api p) a more e =
    map-some update (get_elem? h.apis p) (get_elem? k.apis p) a (more.keeps_api p) e
view-Extends h k (delete_client_in_api id) a more e = e
view-Extends h k delete_secret_content a more e = e

-- Commands keep their meaning on a larger heap.
pub describe-Extends :
    (h k : Heap) (cs : CommandList) (actions : List Action)
    → Extends h k
    → describe h cs ≡ some actions
    → describe k cs ≡ some actions
describe-Extends h k [] actions more e = e
describe-Extends h k (c ∷ cs) actions more e =
    let (a, tail, e₁, e₂, e₃) = cons?-eq-some (view h c.action) (describe h cs) actions e in
    describe-cons k c cs a tail (view-Extends h k c.action a more e₁)
      (describe-Extends h k cs tail more e₂)
    ∙ ap some (sym e₃)

some_inj : (xs ys : List Action) → some xs ≡ some ys → xs ≡ ys
some_inj xs ys e = cc

pub describe-append :
    (h : Heap) (cs ds : CommandList) (xs ys : List Action)
    → describe h cs ≡ some xs
    → describe h ds ≡ some ys
    → describe h (cs ++ ds) ≡ some (xs ++ ys)
describe-append h [] ds xs ys e rest =
    rest ∙ ap (λ (zs : List Action). some (zs ++ ys)) (some_inj [] xs e)
describe-append h (c ∷ cs) ds xs ys e rest =
    let (a, tail, e₁, e₂, e₃) = cons?-eq-some (view h c.action) (describe h cs) xs e in
    describe-cons h c (cs ++ ds) a (tail ++ ys) e₁ (describe-append h cs ds tail ys e₂ rest)
    ∙ ap (λ (zs : List Action). some (zs ++ ys)) (sym e₃)
