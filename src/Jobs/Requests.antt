-- ===== src/Jobs/Requests.antt =====
-- server/api.go, `handlePostMultiClientCommand` and `getOrderedClients`. Decoding the request and the
-- response's body are left out, and so are the texts of errors.
use rport.Prelude.{
  ℕ, zero, suc, String, Bool, true, false, not, ◌&&◌, ◌||◌, Option, none, some, List, [], ◌∷◌, ◌++◌,
  str_eq, ltb, ◌==◌, length, if◌then◌else◌, is_empty,
}
use rport.Result.{Result, ok, err, and_then, refuse_if, map_err}
use rport.Users.Model.{User}
use rport.Clients.Groups.{ClientGroup}
use rport.Clients.Model.{Client, is_connected}
use rport.Clients.Repository.{ClientProvider, ClientRepository, get_by_id}
use rport.Clients.Service.{get_active_by_groups, check_clients_access}
use rport.Validation.{validate_interpreter}

pub data ApiError : Type 0 where
  bad_request not_found unauthorized forbidden internal_server_error : ApiError

pub record MultiClientCmdRequest : Type 0 where
  pub client_ids : List String
  pub group_ids : List String
  pub command : String
  pub cwd : String
  pub is_sudo : Bool
  pub interpreter : String
  pub timeout_sec : Option ℕ
  pub execute_concurrently : Bool
  pub abort_on_error : Option Bool
  pub is_script : Bool

pub record MultiJob : Type 0 where
  pub jid : String
  pub started_at : ℕ
  pub created_by : String
  pub client_ids : List String
  pub group_ids : List String
  pub command : String
  pub interpreter : String
  pub cwd : String
  pub is_sudo : Bool
  pub is_script : Bool
  pub timeout_sec : ℕ
  pub concurrent : Bool
  pub abort_on_err : Bool

-- The answers of the world: the time, the groups that the database finds, the user of the request, a
-- new id, and whether the job is saved.
pub record Env : Type 0 where
  pub now : ℕ
  pub to_lower : String → String
  pub get_group : String → Option (Option ClientGroup)
  pub user : Option (Option User)
  pub new_job_id : Option String
  pub job_saved : Bool
  pub default_timeout_sec : ℕ

abbrev pub found_group : Option (Option ClientGroup) → Result ApiError ClientGroup
found_group none = err internal_server_error
found_group (some none) = err bad_request
found_group (some (some g)) = ok g

unfoldable pub get_groups : Env → List String → Result ApiError (List ClientGroup)
get_groups env [] = ok []
get_groups env (id ∷ ids) =
    and_then (found_group (env.get_group id)) λ g. and_then (get_groups env ids) λ gs. ok (g ∷ gs)

abbrev pub is_in : String → List String → Bool
is_in id [] = false
is_in id (i ∷ ids) = str_eq i id || is_in id ids

-- The loop over the clients of the groups, with the ids that are used.
unfoldable pub unused : List String → List Client → List Client
unused used [] = []
unused used (c ∷ cs) =
    let rest = unused used cs in
    let others = unused (c.id ∷ used) cs in if is_in c.id used then rest else c ∷ others

abbrev pub active : Option Client → Result ApiError Client
active none = err not_found
active (some c) = if not (is_connected c) then err bad_request else ok c

-- A timeout that is missing, zero or below is replaced.
abbrev pub timeout_of : ℕ → Option ℕ → ℕ
timeout_of default none = default
timeout_of default (some zero) = default
timeout_of default (some (suc n)) = suc n

abbrev pub unless_set : Bool → Option Bool → Bool
unless_set default none = default
unless_set default (some b) = b

abbrev pub authorized : Option (Option User) → Result ApiError User
authorized none = err internal_server_error
authorized (some none) = err unauthorized
authorized (some (some user)) = ok user

abbrev pub job_id : Option String → Result ApiError String
job_id none = err internal_server_error
job_id (some id) = ok id

module _ (p : ClientProvider) where
  -- The loop over the ids that the request names.
  unfoldable pub get_named : Env → ClientRepository p → List String → Result ApiError (List Client)
  unfolding get_by_id
  get_named env r [] = ok []
  get_named env r (cid ∷ cids) =
      and_then (active (get_by_id p env.now cid r))
        λ c. and_then (get_named env r cids) λ cs. ok (c ∷ cs)

  -- The clients, and how many the groups have.
  unfoldable pub get_ordered_clients :
      Env → List String → List String → ClientRepository p → Result ApiError (List Client × ℕ)
  unfolding get_groups get_named get_active_by_groups unused
  get_ordered_clients env client_ids group_ids r = and_then (get_groups env group_ids) λ groups.
      let group_clients = get_active_by_groups p env.to_lower groups r in
      and_then (get_named env r client_ids)
        λ named. ok (named ++ unused client_ids group_clients, length group_clients)

  abbrev pub created : Env → MultiClientCmdRequest → User → String → MultiJob
  created env req user jid = record {
    jid = jid;
    started_at = env.now;
    created_by = user.username;
    client_ids = req.client_ids;
    group_ids = req.group_ids;
    command = req.command;
    interpreter = req.interpreter;
    cwd = req.cwd;
    is_sudo = req.is_sudo;
    is_script = false;
    timeout_sec = timeout_of env.default_timeout_sec req.timeout_sec;
    concurrent = req.execute_concurrently;
    abort_on_err = unless_set true req.abort_on_error;
  }

  abbrev pub create :
      Env → MultiClientCmdRequest → List Client × ℕ → Result ApiError (MultiJob × List Client)
  create env req (ordered_clients, group_clients_count) =
      and_then
        (refuse_if
          (not (is_empty req.group_ids) && group_clients_count == 0 && is_empty req.client_ids)
          bad_request)
        λ _.
          and_then
            (refuse_if (ltb (length req.client_ids) 2 && group_clients_count == 0) bad_request)
            λ _. and_then (authorized env.user) λ user.
              and_then (map_err (λ e. forbidden) (check_clients_access ordered_clients user)) λ _.
                and_then (job_id env.new_job_id) λ jid.
                  and_then (refuse_if (not env.job_saved) internal_server_error)
                    λ _. ok (created env req user jid, ordered_clients)

  -- The job that is started, and its clients.
  unfoldable pub handle_post_multi_client_command :
      Env → MultiClientCmdRequest → ClientRepository p → Result ApiError (MultiJob × List Client)
  unfolding get_ordered_clients check_clients_access validate_interpreter
  handle_post_multi_client_command env req r =
      and_then (refuse_if (str_eq req.command "") bad_request) λ _.
        and_then (map_err (λ e. bad_request) (validate_interpreter req.interpreter req.is_script))
          λ _.
            and_then (get_ordered_clients env req.client_ids req.group_ids r)
              λ found. create env req found
