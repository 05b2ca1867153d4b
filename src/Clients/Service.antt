-- ===== src/Clients/Service.antt =====
-- server/client_service.go. The mutex makes the calls that take it atomic; the clock, the answers of
-- the network and the list of busy ports are said by the environment.
use rport.Prelude.{
  ℕ, String, Bool, false, not, ◌&&◌, ◌||◌, Option, none, some, List, [], ◌∷◌, str_eq, if◌then◌else◌,
  is_none, is_empty,
}
use rport.Result.{Result, ok, err, and_then, refuse_if}
use rport.Exec.{pure, lift, reads, ◌>>=◌, ◌>>◌}
use rport.Users.Model.{User, entries, is_admin}
use rport.Clients.Groups.{ClientGroup}
use rport.Clients.Model.{Client, UpdatesStatus, is_connected, has_access, belongs_to_one_of}
use rport.Clients.Repository.{
  ClientProvider, Error, client_id_empty, client_not_found, client_active, access_denied,
  close_failed, ClientRepository, Call, save, delete, get_by_id, get_all_by_client_auth_id,
  get_all_active, assign, change_clients, filter,
}

-- `getExistingByID`, once the repository has answered.
abbrev pub existing_of : String → Option Client → Result Error Client
existing_of client_id none = err (client_not_found client_id)
existing_of client_id (some c) = ok c

abbrev pub no_access : List String → List Client → List String
no_access groups [] = []
no_access groups (c ∷ cs) =
    if has_access c groups then no_access groups cs else c.id ∷ no_access groups cs

abbrev pub denied : List String → Result Error (Unit {0})
denied [] = ok tt
denied (id ∷ ids) = err (access_denied (id ∷ ids))

-- `CheckClientsAccess`
unfoldable pub check_clients_access : List Client → User → Result Error (Unit {0})
unfolding has_access is_admin
check_clients_access clients user =
    if is_admin user then ok tt else denied (no_access (entries user.groups) clients)

module _ (p : ClientProvider) where
  unfoldable pub get_existing_by_id : ℕ → String → ClientRepository p → Result Error Client
  unfolding get_by_id
  get_existing_by_id now client_id r =
      and_then (refuse_if (str_eq client_id "") client_id_empty)
        λ _. existing_of client_id (get_by_id p now client_id r)

  unfoldable pub check_client_access :
      ℕ → String → User → ClientRepository p → Result Error (Unit {0})
  unfolding check_clients_access get_existing_by_id
  check_client_access now client_id user r =
      and_then (get_existing_by_id now client_id r) λ c. check_clients_access (c ∷ []) user

  abbrev pub assign_to : Client → (Client → Client) → Call p (Unit {0})
  assign_to c f = change_clients p (assign c.object f)

  abbrev pub with_acl : List String → Client → Client
  with_acl groups c = record c { allowed_user_groups = groups }

  unfoldable pub set_acl : ℕ → String → List String → Call p (Unit {0})
  unfolding get_existing_by_id save assign
  set_acl now client_id groups = do
    existing ← reads (get_existing_by_id now client_id)
    assign_to existing (with_acl groups)
    save p (with_acl groups existing)

  unfoldable pub set_updates_status : ℕ → String → Option UpdatesStatus → Call p (Unit {0})
  unfolding get_existing_by_id save assign
  set_updates_status now client_id updates_status = do
    existing ← reads (get_existing_by_id now client_id)
    assign_to existing (λ c. record c { updates_status = updates_status })
    save p (record existing { updates_status = updates_status })

  unfoldable pub delete_offline : ℕ → String → Call p (Unit {0})
  unfolding get_existing_by_id delete
  delete_offline now client_id = do
    existing ← reads (get_existing_by_id now client_id)
    lift (refuse_if (is_connected existing) client_active)
    delete p existing

  -- `close_fails`: what closing the connection returns
  unfoldable pub force_delete : Bool → Client → Call p (Unit {0})
  unfolding delete
  force_delete close_fails client = do
    lift (refuse_if (is_connected client && close_fails) close_failed)
    delete p client

  abbrev pub disconnect : ℕ → Client → Client
  disconnect now c = record c { disconnected_at = some now }

  abbrev pub save_if_known : Client → Option Client → Call p (Unit {0})
  save_if_known c none = pure tt
  save_if_known c (some existing) = save p c

  -- `now` is the time of the disconnection, `later` that of the look into the repository.
  abbrev pub keep_lost : ℕ → ℕ → Client → Call p (Unit {0})
  keep_lost now later client = do
    assign_to client (disconnect now)
    existing ← reads (λ r. ok (get_by_id p later client.id r))
    save_if_known (disconnect now client) existing

  unfoldable pub terminate : ℕ → ℕ → Client → Call p (Unit {0})
  unfolding delete
  terminate now later client r =
      if is_none r.keep_lost_clients then delete p client r else keep_lost now later client r

  -- `GetActiveByGroups`
  unfoldable pub get_active_by_groups :
      (String → String) → List ClientGroup → ClientRepository p → List Client
  unfolding get_all_active
  get_active_by_groups to_lower groups r =
      if is_empty groups
      then []
      else filter (belongs_to_one_of to_lower groups) (get_all_active p r)

  abbrev pub other_id : String → List Client → Bool
  other_id client_id [] = false
  other_id client_id (c ∷ cs) = not (str_eq c.id client_id) || other_id client_id cs

  unfoldable pub is_client_auth_id_in_use : ℕ → String → String → ClientRepository p → Bool
  unfolding get_all_by_client_auth_id
  is_client_auth_id_in_use now client_auth_id client_id r =
      other_id client_id (get_all_by_client_auth_id p now client_auth_id r)
