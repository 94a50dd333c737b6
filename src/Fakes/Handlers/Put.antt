-- ===== src/Fakes/Handlers/Put.antt =====
-- The case PUT of handleClientByID in cmd/maskinporten_fakes/main.go.
use altinn_k8s_operator.Base.{
  ℕ, ◌≡◌, ◌≢◌, refl, sym, ap, ◌∙◌, String, eq_iff, Bool, true, false, Option, none, some, Result,
  ok, if◌then◌else◌, arith, Bool-cases, inl, inr,
}
use mathlib.Core.Path.{subst}
use altinn_k8s_operator.Base.Exec.{Exec, pure, lift}
use altinn_k8s_operator.Base.Exec.Ensures.{
  Ensures, Ensures-bind, Ensures-handle, Ensures-lift, Ensures-self, Ensures-weaken, Ensures-pure,
}
use altinn_k8s_operator.Base.Map.{lookup, insert as put, lookup-insert}
use altinn_k8s_operator.Crypto.Types.{External}
use altinn_k8s_operator.Crypto.Jwks.{Jwk}
use altinn_k8s_operator.Maskinporten.Dto.{AddClientRequest, UpdateClientRequest}
use altinn_k8s_operator.Maskinporten.Http.{HttpRequest}
use altinn_k8s_operator.Fakes.Db.{ClientRecord, Db, insert, get, record_of, chosen_id}
use altinn_k8s_operator.Fakes.Db.Indexed.{insert-found}
use altinn_k8s_operator.Fakes.State.{State, Stamps, write_back, insert_stamped}
use altinn_k8s_operator.Fakes.Handlers.{
  Answer, only_status, reply, FakeToken, WireCodec, one_client, run_id_of, with_token,
  self_service_auth,
}
use altinn_k8s_operator.Fakes.Handlers.Clients.{
  insert_client, replace_client, put_client, handle_client_by_id, add_request_of, or_bad_request,
  asks_for_admin, by_method,
}

-- The run has a database, and Get finds a record without keys in it.
pub record HasNoKeys (run id : String) (client : AddClientRequest) (s : State) : Type 0 where
  pub db : Db
  pub of_run : lookup run s.dbs ≡ some db
  pub record_now : ClientRecord
  pub found : get id db ≡ ok (some record_now)
  pub no_keys : record_now.jwks ≡ none
  pub name : record_now.client.client_name ≡ client.client_name
  pub scopes : record_now.client.scopes ≡ client.scopes

chosen : (id uuid : String) → id ≢ "" → chosen_id id uuid ≡ id
chosen id uuid h = ground (arith, eq_iff id "")

written : (run : String) (db : Db) (s : State) → lookup run (put run db s.dbs) ≡ some db
written run db s =
    lookup-insert run run db s.dbs
    ∙ ap (λ (b : Bool). if b then some db else lookup run s.dbs) ((eq_iff run run).1 refl)

module _ (wire : WireCodec) (stamps : Stamps) (read_jwk : String → Result Jwk) (x : External)
    (id : String) (named : id ≢ "") (req : HttpRequest) where
  inserted-HasNoKeys :
      (client : AddClientRequest) (n : ℕ) (db : Db) (r : ClientRecord) (s s' : State)
      → write_back (run_id_of req) (insert_stamped stamps read_jwk x client none id n) db s
        ≡ (ok r, s')
      → HasNoKeys (run_id_of req) id client s'
  unfolding write_back insert_stamped record_of
  inserted-HasNoKeys client n db r s s' e =
      let db' = (insert client none id (stamps.uuid n) (stamps.clock n) db).1 in
      let (made, found) =
        insert-found client none id (stamps.uuid n) (stamps.clock n) r db db'
          (λ i. ((e i).0, db')) in
      record {
        db = db';
        of_run = ap (λ p. lookup (run_id_of req) p.1.dbs) (sym e) ∙ written (run_id_of req) db' s;
        record_now = r;
        found =
            ap (λ key. get key db')
              (sym (chosen id (stamps.uuid n) named) ∙ ap (λ c. c.client_id) made)
            ∙ found;
        no_keys = sym (ap (λ c. c.jwks) made);
        name = sym (ap (λ c. c.client.client_name) made);
        scopes = sym (ap (λ c. c.client.scopes) made);
      }

  Ensures-insert_client :
      (client : AddClientRequest) (s : State)
      → Ensures
          (insert_client wire stamps read_jwk x req client none id)
          s
          (λ r s'. HasNoKeys (run_id_of req) id client s')
  unfolding insert_client
  Ensures-insert_client client s = Ensures-bind _ _ s (Ensures-self _ s) λ db s₁ h₁.
      Ensures-bind _ _ s₁ (Ensures-self _ s₁) λ n s₂ h₂.
        Ensures-weaken _ s₂ (Ensures-self _ s₂) λ r s₃ e. inserted-HasNoKeys client n db r s₂ s₃ e

  -- What holds of an answer with the status 200.
  abbrev IfDone : Answer → State → Type 0
  IfDone a s' =
      a.status ≡ 200
      → (client : UpdateClientRequest) × (wire.read_update_request req.body ≡ ok client)
        × HasNoKeys (run_id_of req) id (add_request_of client) s'

  refused : (code : ℕ) (s : State) → code ≢ 200 → Ensures (pure (only_status code)) s IfDone
  refused code s h = Ensures-pure (only_status code) s IfDone (λ e. absurd (h e))

  Ensures-if :
      (b : Bool) {m : Exec State Answer} (s : State)
      → Ensures m s IfDone
      → Ensures (if b then m else pure (only_status 400)) s IfDone
  Ensures-if true s h = h
  Ensures-if false s h = refused 400 s (λ e. omega arith)

  Ensures-inserted :
      (client : UpdateClientRequest) (s : State)
      → wire.read_update_request req.body ≡ ok client
      → Ensures
          (or_bad_request
            (insert_client wire stamps read_jwk x req (add_request_of client) none id)
            (λ r. lift (reply 200 (wire.encode (one_client r.client)))))
          s
          IfDone
  Ensures-inserted client s read =
      Ensures-handle _ _ _ s {Q = IfDone} (Ensures-insert_client (add_request_of client) s)
        (λ e s₃. refused 400 s₃ (λ e. omega arith))
        λ r s₃ has.
          Ensures-weaken _ s₃ (Ensures-lift _ s₃)
            λ a s₄ (answer, same). λ done. (client, read, rw same has)

  Ensures-replace_client :
      (client : UpdateClientRequest) (s : State)
      → wire.read_update_request req.body ≡ ok client
      → Ensures (replace_client wire stamps read_jwk x id req client) s IfDone
  unfolding replace_client
  Ensures-replace_client client s read = Ensures-bind _ _ s (Ensures-self _ s) λ db s₁ h₁.
      Ensures-bind _ _ s₁ (Ensures-self _ s₁)
        λ deleted s₂ h₂. Ensures-if deleted s₂ (Ensures-inserted client s₂ read)

  Ensures-put_client : (s : State) → Ensures (put_client wire stamps read_jwk x id req) s IfDone
  unfolding put_client
  Ensures-put_client s =
      Ensures-handle _ _ _ s (Ensures-lift _ s) (λ e s₁. refused 400 s₁ (λ e. omega arith))
        λ client s₁ (read, same). elim (Bool-cases (asks_for_admin client.scopes)) [
          | inl admin ↦ rw admin (refused 400 s₁ (λ e. omega arith))
          | inr other ↦ rw other (Ensures-replace_client client s₁ read)
        ]

  Ensures-with_token :
      (t : Option FakeToken) (m : Exec State Answer) (s : State)
      → Ensures m s IfDone
      → Ensures (with_token wire t m) s IfDone
  Ensures-with_token none m s h = refused 401 s (λ e. omega arith)
  Ensures-with_token (some t) m s h = h

  -- When a PUT of a client with an ID that is not empty is answered with 200, Get finds in the
  -- database of the run, for this ID, a client with the name and the scopes of the request, and it
  -- has no keys, whatever keys the client had before.
  pub handle_client_by_id-HasNoKeys :
      (s s' : State) (a : Answer)
      → req.method ≡ "PUT"
      → handle_client_by_id wire stamps read_jwk x id req s ≡ (ok a, s')
      → a.status ≡ 200
      → (client : UpdateClientRequest) × (wire.read_update_request req.body ≡ ok client)
        × HasNoKeys (run_id_of req) id (add_request_of client) s'
  unfolding handle_client_by_id
  handle_client_by_id-HasNoKeys s s' a method e done =
      (Ensures-with_token (self_service_auth wire req)
          (by_method wire stamps read_jwk x id req req.method) s
          (subst (λ m. Ensures (by_method wire stamps read_jwk x id req m) s IfDone) (sym method)
            (Ensures-put_client s))).returns
        a s' e done
