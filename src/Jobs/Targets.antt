-- ===== src/Jobs/Targets.antt =====
-- server/api.go, `handlePostMultiClientCommand`: the clients that a command is started on.
use rport.Prelude.{
  ℕ, String, Bool, true, not, ◌&&◌, Option, none, some, List, [], ◌∷◌, ◌++◌, ◌≡◌, arith, ap, sym,
  ◌⊎◌, inl, inr, All, Bool-cases, is_empty, ltb, length, ◌==◌, str_eq,
}
use rport.Result.{ok, refuse_if, map_err, and_then_ok, map_err_ok, value_or}
use rport.Users.Model.{User, entries, is_admin}
use rport.Clients.Model.{Client, is_connected}
use rport.Clients.Groups.{ClientGroup}
use rport.Clients.Repository.{
  ClientProvider, ClientRepository, get_by_id, get_all_active, filter, values,
}
use rport.Clients.Service.{get_active_by_groups, check_clients_access}
use rport.Clients.Access.{IsShared, check_clients_access_iff}
use rport.Validation.{validate_interpreter}
use rport.Jobs.Requests.{
  bad_request, internal_server_error, forbidden, Env, MultiClientCmdRequest, MultiJob, active,
  unused, is_in, get_groups, get_named, get_ordered_clients, create, authorized, job_id,
  handle_post_multi_client_command,
}

abbrev pub IsActive : Client → Type 0
IsActive c = is_connected c ≡ true

append-All : (xs ys : List Client) → All IsActive xs → All IsActive ys → All IsActive (xs ++ ys)
append-All [] ys all all' = all'
append-All (x ∷ xs) ys (a, all) all' = (a, append-All xs ys all all')

filter-All :
    (test : Client → Bool) (xs : List Client) → All IsActive xs → All IsActive (filter test xs)
filter-All test [] all = tt
filter-All test (x ∷ xs) (a, all) = elim (Bool-cases (test x)) [
  | inl kept ↦ rw kept (a, filter-All test xs all)
  | inr dropped ↦ rw dropped (filter-All test xs all)
]

connected-All : (xs : List Client) → All IsActive (filter is_connected xs)
connected-All [] = tt
connected-All (x ∷ xs) = elim (Bool-cases (is_connected x)) [
  | inl connected ↦ rw connected (connected, connected-All xs)
  | inr lost ↦ rw lost (connected-All xs)
]

unused-All :
    (used : List String) (xs : List Client) → All IsActive xs → All IsActive (unused used xs)
unfolding unused
unused-All used [] all = tt
unused-All used (x ∷ xs) (a, all) = elim (Bool-cases (is_in x.id used)) [
  | inl taken ↦ rw taken (unused-All used xs all)
  | inr free ↦ rw free (a, unused-All (x.id ∷ used) xs all)
]

module _ (p : ClientProvider) (env : Env) where
  group-All :
      (groups : List ClientGroup) (r : ClientRepository p)
      → All IsActive (get_active_by_groups p env.to_lower groups r)
  unfolding get_active_by_groups get_all_active
  group-All [] r = tt
  group-All (g ∷ gs) r =
      filter-All _ (filter is_connected (values r.clients)) (connected-All (values r.clients))

  active_lem : (o : Option Client) (c : Client) → active o ≡ ok c → IsActive c
  active_lem none c found = absurd (ground arith)
  active_lem (some d) c found = ground arith

  named-All :
      (r : ClientRepository p) (cids : List String) (cs : List Client)
      → get_named p env r cids ≡ ok cs
      → All IsActive cs
  unfolding get_named
  named-All r [] cs found = rw (sym (ap (value_or cs) found)) tt
  named-All r (cid ∷ cids) cs found =
      let (c, is_c, step) = and_then_ok (active (get_by_id p env.now cid r)) _ cs found in
      let (more, others, last) = and_then_ok (get_named p env r cids) (λ cs. ok (c ∷ cs)) cs step in
      rw (sym (ap (value_or cs) last))
        (active_lem (get_by_id p env.now cid r) c is_c, named-All r cids more others)

  ordered-All :
      (client_ids group_ids : List String) (r : ClientRepository p) (found : List Client × ℕ)
      → get_ordered_clients p env client_ids group_ids r ≡ ok found
      → All IsActive found.0
  unfolding get_ordered_clients
  ordered-All client_ids group_ids r found done =
      let (groups, are_groups, step) = and_then_ok (get_groups env group_ids) _ found done in
      let group_clients = get_active_by_groups p env.to_lower groups r in
      let (named, are_named, last) =
        and_then_ok (get_named p env r client_ids)
          (λ named. ok (named ++ unused client_ids group_clients, length group_clients)) found
          step in
      rw (sym (ap (λ x. (value_or found x).0) last)) (
        append-All named (unused client_ids group_clients) (named-All r client_ids named are_named)
          (unused-All client_ids group_clients (group-All groups r)))

  -- The user of the request may use every client.
  pub record MayUse (ordered_clients : List Client) : Type 0 where
    pub user : User
    pub is_user : env.user ≡ some (some user)
    pub access : (is_admin user ≡ true) ⊎ All (IsShared (entries user.groups)) ordered_clients

  authorized_lem :
      (o : Option (Option User)) (user : User) → authorized o ≡ ok user → o ≡ some (some user)
  authorized_lem none user found = absurd (ground arith)
  authorized_lem (some none) user found = absurd (ground arith)
  authorized_lem (some (some u)) user found = ap (λ x. some (some (value_or u x))) found

  create_lem :
      (req : MultiClientCmdRequest) (found : List Client × ℕ) (job : MultiJob)
      (ordered_clients : List Client)
      → create p env req found ≡ ok (job, ordered_clients)
      → (found.0 ≡ ordered_clients) × MayUse ordered_clients
  create_lem req found job ordered_clients done =
      let (u1, some_group, d1) =
        and_then_ok
          (refuse_if (not (is_empty req.group_ids) && found.1 == 0 && is_empty req.client_ids)
            bad_request)
          _ (job, ordered_clients) done in
      let (u2, enough, d2) =
        and_then_ok (refuse_if (ltb (length req.client_ids) 2 && found.1 == 0) bad_request) _
          (job, ordered_clients) d1 in
      let (user, is_user, d3) = and_then_ok (authorized env.user) _ (job, ordered_clients) d2 in
      let (u4, may, d4) =
        and_then_ok (map_err (λ e. forbidden) (check_clients_access found.0 user)) _
          (job, ordered_clients) d3 in
      let (jid, is_jid, d5) = and_then_ok (job_id env.new_job_id) _ (job, ordered_clients) d4 in
      let (u6, saved, d6) =
        and_then_ok (refuse_if (not env.job_saved) internal_server_error) _ (job, ordered_clients)
          d5 in
      let same : found.0 ≡ ordered_clients =
        ap (λ x. (value_or {A = MultiJob × List Client} (job, ordered_clients) x).1) d6 in
      (
        same,
        rw (sym same) (record {
          user = user;
          is_user = authorized_lem env.user user is_user;
          access =
              (check_clients_access_iff found.0 user).0
                (map_err_ok (λ e. forbidden) (check_clients_access found.0 user) tt may);
        }),
      )

-- Where a command for several clients is accepted, each client that it will be started on is
-- connected, and the request's user is an administrator or shares a group with every one of them,
-- also with those that only a client group brought in.
pub handle_post_multi_client_command_safe :
    (p : ClientProvider) (env : Env) (req : MultiClientCmdRequest) (r : ClientRepository p)
    (job : MultiJob) (ordered_clients : List Client)
    → handle_post_multi_client_command p env req r ≡ ok (job, ordered_clients)
    → All IsActive ordered_clients × MayUse p env ordered_clients
unfolding handle_post_multi_client_command
handle_post_multi_client_command_safe p env req r job ordered_clients done =
    let (u1, given, d1) =
      and_then_ok (refuse_if (str_eq req.command "") bad_request) _ (job, ordered_clients) done in
    let (u2, valid, d2) =
      and_then_ok (map_err (λ e. bad_request) (validate_interpreter req.interpreter req.is_script))
        _ (job, ordered_clients) d1 in
    let (found, are_found, d3) =
      and_then_ok (get_ordered_clients p env req.client_ids req.group_ids r)
        (λ found. create p env req found) (job, ordered_clients) d2 in
    let (same, may) = create_lem p env req found job ordered_clients d3 in
    (rw (sym same) (ordered-All p env req.client_ids req.group_ids r found are_found), may)
