-- ===== src/Clients/Repository.antt =====
-- server/clients/cr.go. The storage is the provider's: it says whether a call succeeded, and what it
-- left. A nil provider is one whose calls do nothing. Go visits a map in any order; here it is the
-- order of the entries. `now` is an argument, and filters are in none of these calls.
use rport.Prelude.{
  ℕ, String, Bool, not, ◌||◌, Option, none, some, List, [], ◌∷◌, str_eq, ◌==◌, if◌then◌else◌, map,
  length,
}
use rport.Result.{ok, refuse_if}
use rport.Exec.{Exec, ◌>>◌}
use rport.Dict.{Dict, lookup, insert, remove}
use rport.Clients.Model.{Client, is_connected, obsolete, has_access}

pub record ClientProvider : Type 1 where
  pub Store : Type 0
  pub save : Client → Store → Bool × Store
  pub delete : String → Store → Bool × Store
  pub delete_obsolete : ℕ → Store → Bool × Store

pub data Error : Type 0 where
  save_failed delete_failed delete_obsolete_failed : Error
  -- of the client service
  client_id_empty client_active : Error
  client_not_found client_id_in_use client_auth_id_in_use : String → Error
  access_denied : List String → Error
  bad_address close_failed : Error
  -- of the ports
  busy_ports_unknown no_ports_available : Error
  invalid_local_port port_not_allowed port_in_use : String → Error
  invalid_acl tunnel_failed : Error

-- What the loop deletes, and what it returns.
unfoldable pub without_obsolete : Option ℕ → ℕ → Dict Client → Dict Client
without_obsolete keep now [] = []
without_obsolete keep now (e ∷ es) =
    let rest = without_obsolete keep now es in if obsolete keep now e.1 then rest else e ∷ rest

unfoldable pub obsolete_ones : Option ℕ → ℕ → Dict Client → List Client
obsolete_ones keep now [] = []
obsolete_ones keep now (e ∷ es) =
    let rest = obsolete_ones keep now es in if obsolete keep now e.1 then e.1 ∷ rest else rest

abbrev pub unless {ℓ} : {A : Type ℓ} → (A → Bool) → Option A → Option A
unless test none = none
unless test (some a) = if test a then none else some a

abbrev pub filter {ℓ} : {A : Type ℓ} → (A → Bool) → List A → List A
filter test [] = []
filter test (a ∷ rest) = if test a then a ∷ filter test rest else filter test rest

abbrev pub values : Dict Client → List Client
values = map (λ e. e.1)

-- An assignment to a field of the object: every entry of the map that points to it changes.
unfoldable pub assign : ℕ → (Client → Client) → Dict Client → Dict Client
assign object f [] = []
assign object f (e ∷ es) = (e.0, (if e.1.object == object then f e.1 else e.1)) ∷ assign object f es

module _ (p : ClientProvider) where
  pub record ClientRepository : Type 0 where
    pub clients : Dict Client
    pub keep_lost_clients : Option ℕ
    pub store : p.Store

  abbrev pub Call : Type 0 → Type 0
  Call = Exec Error ClientRepository

  abbrev pub stored : Error → (p.Store → Bool × p.Store) → Call (Unit {0})
  stored e f r = (refuse_if (not (f r.store).0) e, record r { store = (f r.store).1 })

  abbrev pub change_clients : (Dict Client → Dict Client) → Call (Unit {0})
  change_clients f r = (ok tt, record r { clients = f r.clients })

  unfoldable pub save : Client → Call (Unit {0})
  save c = stored save_failed (p.save c) >> change_clients (insert c.id c)

  unfoldable pub delete : Client → Call (Unit {0})
  delete c = stored delete_failed (p.delete c.id) >> change_clients (remove c.id)

  abbrev pub sweep : ℕ → Call (List Client)
  sweep now r = (
    ok (obsolete_ones r.keep_lost_clients now r.clients),
    record r { clients = without_obsolete r.keep_lost_clients now r.clients },
  )

  unfoldable pub delete_obsolete : ℕ → Call (List Client)
  delete_obsolete now = stored delete_obsolete_failed (p.delete_obsolete now) >> sweep now

  unfoldable pub get_by_id : ℕ → String → ClientRepository → Option Client
  unfolding obsolete
  get_by_id now id r = unless (obsolete r.keep_lost_clients now) (lookup id r.clients)

  unfoldable pub get_active_by_id : String → ClientRepository → Option Client
  get_active_by_id id r = unless (λ c. not (is_connected c)) (lookup id r.clients)

  -- `getNonObsolete`, which is also `GetAll`
  unfoldable pub get_all : ℕ → ClientRepository → List Client
  get_all now r = filter (λ c. not (obsolete r.keep_lost_clients now c)) (values r.clients)

  unfoldable pub get_all_active : ClientRepository → List Client
  get_all_active r = filter is_connected (values r.clients)

  unfoldable pub get_all_by_client_auth_id : ℕ → String → ClientRepository → List Client
  unfolding get_all
  get_all_by_client_auth_id now client_auth_id r =
      filter (λ c. str_eq c.client_auth_id client_auth_id) (get_all now r)

  -- `GetUserClients` without filters
  unfoldable pub get_user_clients : ℕ → Bool → List String → ClientRepository → List Client
  unfolding get_all has_access
  get_user_clients now is_admin groups r =
      filter (λ c. is_admin || has_access c groups) (get_all now r)

  abbrev pub count : ℕ → ClientRepository → ℕ
  count now r = length (get_all now r)

  abbrev pub count_active : ClientRepository → ℕ
  count_active r = length (get_all_active r)

  abbrev pub count_disconnected : ℕ → ClientRepository → ℕ
  count_disconnected now r = length (filter (λ c. not (is_connected c)) (get_all now r))
