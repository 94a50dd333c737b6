-- ===== src/Fakes/Db/Examples.antt =====
-- A database with two clients.
use altinn_k8s_operator.Base.{◌≡◌, refl, String, true, none, some, [], ◌∷◌, ok, crash}
use altinn_k8s_operator.Base.Map.{lookup, insert as put}
use altinn_k8s_operator.Maskinporten.Dto.{AddClientRequest}
use altinn_k8s_operator.Fakes.Db.{
  ClientRecord, Db, new_db, record_of, chosen_id, insert, delete, get,
}
use altinn_k8s_operator.Fakes.Db.Indexed.{IsIndexed, IsAdded, new_db-IsIndexed, insert-IsAdded}
use altinn_k8s_operator.Fakes.Db.Deleted.{delete-last_lost}

abbrev request : AddClientRequest
request = record {
  client_id = none;
  client_name = some "altinnoperator-local-local-testapp";
  client_orgno = none;
  supplier_orgno = none;
  description = none;
  active = none;
  application_type = none;
  integration_type = none;
  scopes = some ("altinn:read" ∷ []);
  grant_types = none;
  token_endpoint_auth_method = none;
  refresh_token_lifetime = none;
  refresh_token_usage = none;
  access_token_lifetime = none;
  authorization_lifetime = none;
  logo_uri = none;
  redirect_uris = none;
  post_logout_redirect_uris = none;
  frontchannel_logout_session_required = none;
  frontchannel_logout_uri = none;
  sso_disabled = none;
  code_challenge_method = none;
}

abbrev client : String → ClientRecord
client id = record_of request none id 7

abbrev one : Db
one = record { clients = client "a" ∷ []; client_id_index = ("a", 0) ∷ [] }

abbrev two : Db
two = record { clients = client "a" ∷ client "b" ∷ []; client_id_index = ("a", 0) ∷ ("b", 1) ∷ [] }

first_run : insert request none "a" "" 7 new_db ≡ (ok (client "a"), one)
unfolding insert new_db lookup put record_of
first_run = refl

one-IsIndexed : IsIndexed one
one-IsIndexed =
    ((insert-IsAdded request none "a" "" 7 (client "a") new_db one new_db-IsIndexed first_run).1
    ).indexed

second_run : insert request none "" "b" 7 one ≡ (ok (client "b"), two)
unfolding insert lookup put record_of
second_run = refl

two-IsIndexed : IsIndexed two
two-IsIndexed =
    ((insert-IsAdded request none "" "b" 7 (client "b") one two one-IsIndexed second_run).1).indexed

insert-IsAdded_example :
    (record_of request none (chosen_id "" "b") 7 ≡ client "b") × IsAdded (client "b") one two
insert-IsAdded_example =
    insert-IsAdded request none "" "b" 7 (client "b") one two one-IsIndexed second_run

found_first : lookup "a" two.client_id_index ≡ some 0
unfolding lookup
found_first = refl

found_second : lookup "b" two.client_id_index ≡ some 1
unfolding lookup
found_second = refl

delete-last_lost_example :
    (db' : Db) × (delete "a" two ≡ (ok true, db'))
    × (get "a" db' ≡ ok none)
    × (get "b" db' ≡ crash "index out of range")
delete-last_lost_example =
    delete-last_lost two "a" "b" 0 two-IsIndexed refl found_first found_second
