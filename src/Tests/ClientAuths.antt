-- ===== src/Tests/ClientAuths.antt =====
-- Runs of the client credentials: a cache over a file, a connection, and a deletion.
use rport.Prelude.{
  ◌≡◌, refl, String, Bool, true, false, Option, none, some, [], ◌∷◌, str_eq, inl, ◌↔◌,
}
use rport.Result.{Result, ok, err}
use rport.Dict.{Dict, lookup, insert, remove}
use rport.Clients.Model.{Client, obsolete}
use rport.Clients.Repository.{delete, get_all, get_all_by_client_auth_id}
use rport.Clients.Service.{force_delete}
use rport.Security.BanList.{is_banned, add, add_bad_attempt, add_success_attempt}
use rport.ClientAuth.Model.{ClientAuth, Error, read_failed}
use rport.ClientAuth.File.{FileEnv, file_provider, credentials}
use rport.ClientAuth.File
use rport.ClientAuth.Cache.{CachedProvider, load_from, new_cached_provider, get}
use rport.ClientAuth.Cache
use rport.ClientAuth.Agreement.{entry, Cached, here, adds, deletes}
use rport.ClientAuth.Opening.{cached_file_lem}
use rport.ClientAuth.Connecting.{ClientListener, HasPassword, auth_user, get_cid, auth_user_iff}
use rport.ClientAuth.Handlers.{
  Server, handle_post_clients_auth, handle_delete_client_auth, conflict, not_found,
}
use rport.ClientAuth.Unbound.{handle_delete_client_auth_lem}
use rport.Tests.ClientRuns.{no_storage, lost}

client_auths : Unit {0}
unfolding credentials File.add File.delete load_from new_cached_provider Cache.add Cache.delete
    lookup insert remove auth_user get_cid is_banned add add_bad_attempt add_success_attempt
    handle_post_clients_auth handle_delete_client_auth force_delete delete get_all
    get_all_by_client_auth_id obsolete
client_auths = tt

abbrev fine : FileEnv
fine = record { read_fails = false; write_leaves = none }

abbrev unreadable : FileEnv
unreadable = record { read_fails = true; write_leaves = none }

abbrev one_pair : Dict String
one_pair = ("ann", "secret") ∷ []

abbrev start : Cached
start = record {
  clients = ("ann", record { id = "ann"; password = "secret" }) ∷ [];
  store = one_pair;
}

abbrev bob : ClientAuth
bob = record { id = "bob"; password = "hidden" }

abbrev later : Cached
later = (Cache.delete file_provider fine "ann" (Cache.add file_provider fine bob start).1).1

file_tests :
    (new_cached_provider file_provider fine one_pair ≡ ok start)
    × ((Cache.add file_provider fine bob start).0 ≡ ok true)
    × ((Cache.add file_provider fine bob later).0 ≡ ok false)
    × ((Cache.delete file_provider unreadable "ann" start).0 ≡ err read_failed)
    × (later.store ≡ ("bob", "hidden") ∷ [])
    × (File.get fine "eve" one_pair ≡ ok (some (record { id = "eve"; password = "" })))
unfolding client_auths
file_tests = (refl, refl, refl, refl, refl, refl)

cached_file_lem_example : get file_provider "bob" later ≡ entry "bob" (lookup "bob" later.store)
unfolding client_auths
cached_file_lem_example =
    cached_file_lem fine one_pair start later "bob" refl refl
      (deletes fine "ann" (adds fine bob here (inl refl)) (inl refl))

abbrev answers : String → Result Error (Option ClientAuth)
answers id = ok (get file_provider id start)

abbrev listener : ClientListener
listener = record {
  banned_client_auths = record { ban_duration = 10; visitors = [] };
  banned_ips = none;
}

auth_user_tests :
    ((auth_user answers 5 "ann" "10.0.0.1" "secret" listener).0 ≡ ok tt)
    × (get_cid "" false true "ann" (some "random") ≡ some "ann")
unfolding client_auths
auth_user_tests = (refl, refl)

auth_user_iff_example : ((auth_user answers 5 "ann" "10.0.0.1" "secret" listener).0 ≡ ok tt) ↔ (
    (is_banned listener.banned_client_auths "ann" 5 ≡ false) × HasPassword (answers "ann") "secret")
auth_user_iff_example = auth_user_iff answers 5 "ann" "10.0.0.1" "secret" listener

abbrev bound_client : Client
bound_client = record lost { id = "c1"; client_auth_id = "ann" }

abbrev server : Server file_provider no_storage
server = record {
  auths = start;
  repo = record { clients = ("c1", bound_client) ∷ []; keep_lost_clients = none; store = tt };
}

abbrev parse_bool : String → Option Bool
parse_bool s = some (str_eq s "true")

abbrev emptied : Server file_provider no_storage
emptied =
    (handle_delete_client_auth file_provider no_storage fine 7 (λ c. false) parse_bool true "ann"
      "true" server).1

handle_delete_tests :
    ((handle_delete_client_auth file_provider no_storage fine 7
        (λ c. false)
        parse_bool
        true
        "ann"
        ""
        server).0
      ≡ err conflict)
    × ((handle_delete_client_auth file_provider no_storage fine 7
          (λ c. false)
          parse_bool
          true
          "ann"
          "true"
          server).0
        ≡ ok tt)
    × ((handle_delete_client_auth file_provider no_storage fine 7
          (λ c. false)
          parse_bool
          true
          "ann"
          "true"
          emptied).0
        ≡ err not_found)
unfolding client_auths
handle_delete_tests = (refl, refl, refl)

handle_delete_client_auth_lem_example :
    (get file_provider "ann" emptied.auths ≡ none)
    × (get_all_by_client_auth_id no_storage 7 "ann" emptied.repo ≡ [])
unfolding client_auths
handle_delete_client_auth_lem_example =
    handle_delete_client_auth_lem file_provider no_storage fine 7 (λ c. false) parse_bool true "ann"
      "true" server emptied refl refl
