-- ===== src/Tests/JobRuns.antt =====
-- Runs of a command for several clients.
use rport.Prelude.{ℕ, true, false, none, some, [], ◌∷◌, ◌≡◌, refl, All, ◌==◌, if◌then◌else◌}
use rport.Result.{ok, err}
use rport.Dict.{lookup}
use rport.Users.Model.{User, is_admin}
use rport.Clients.Model.{Client, obsolete, has_access}
use rport.Clients.Repository.{ClientRepository, get_by_id, get_all_active}
use rport.Clients.Service.{get_active_by_groups, check_clients_access}
use rport.Commands.Running.{successful, failed}
use rport.Validation.{validate_interpreter}
use rport.Jobs.Requests.{
  bad_request, Env, MultiClientCmdRequest, MultiJob, get_groups, unused, get_named,
  get_ordered_clients, created, handle_post_multi_client_command,
}
use rport.Jobs.Targets.{IsActive, MayUse, handle_post_multi_client_command_safe}
use rport.Jobs.Execution.{
  Turn, started, create_and_run_job, run_concurrent, run_sequential, execute_multi_client_job,
}
use rport.Jobs.Attempts.{clients_of, up_to_stop, clients-execute_multi_client_job}
use rport.Tests.ClientRuns.{no_storage, lost}

jobs : Unit {0}
unfolding get_groups unused get_named get_ordered_clients handle_post_multi_client_command
    create_and_run_job run_concurrent run_sequential get_by_id get_all_active get_active_by_groups
    check_clients_access validate_interpreter lookup obsolete has_access is_admin
jobs = tt

abbrev c1 : Client
c1 = record lost { disconnected_at = none }

abbrev c2 : Client
c2 = record c1 { object = 2; id = "c2" }

abbrev two_clients : ClientRepository no_storage
two_clients = record {
  clients = ("c1", c1) ∷ ("c2", c2) ∷ [];
  keep_lost_clients = none;
  store = tt;
}

abbrev ann : User
ann = record {
  username = "ann";
  password = "";
  groups = some ("ops" ∷ []);
  two_fa_send_to = "";
  token = none;
}

abbrev env : Env
env = record {
  now = 9;
  to_lower = λ s. s;
  get_group = λ id. none;
  user = some (some ann);
  new_job_id = some "j1";
  job_saved = true;
  default_timeout_sec = 60;
}

abbrev req : MultiClientCmdRequest
req = record {
  client_ids = "c2" ∷ "c1" ∷ [];
  group_ids = [];
  command = "ls";
  cwd = "";
  is_sudo = false;
  interpreter = "";
  timeout_sec = none;
  execute_concurrently = false;
  abort_on_error = none;
  is_script = false;
}

abbrev job : MultiJob
job = created no_storage env req ann "j1"

-- A client that is named twice is there twice.
request_tests :
    (handle_post_multi_client_command no_storage env req two_clients ≡ ok (job, c2 ∷ c1 ∷ []))
    × (handle_post_multi_client_command no_storage env
          (record req { client_ids = "c1" ∷ [] })
          two_clients
        ≡ err bad_request)
    × (get_ordered_clients no_storage env ("c1" ∷ "c1" ∷ []) [] two_clients ≡ ok (c1 ∷ c1 ∷ [], 0))
unfolding jobs
request_tests = (refl, refl, refl)

handle_post_multi_client_command_safe_example :
    All IsActive (c2 ∷ c1 ∷ []) × MayUse no_storage env (c2 ∷ c1 ∷ [])
unfolding jobs
handle_post_multi_client_command_safe_example =
    handle_post_multi_client_command_safe no_storage env req two_clients job (c2 ∷ c1 ∷ []) refl

abbrev turn : Turn
turn = record {
  new_job_id = some "j";
  now = 10;
  answer = started 5 11;
  created = true;
  result = some successful;
}

abbrev fails_first : ℕ → Turn
fails_first n = if n == 0 then record turn { result = some failed } else turn

execution_tests :
    (clients_of (execute_multi_client_job job fails_first (c2 ∷ c1 ∷ [])) ≡ c2 ∷ [])
    × (clients_of
          (execute_multi_client_job (record job { concurrent = true }) fails_first (c2 ∷ c1 ∷ []))
        ≡ c2 ∷ c1 ∷ [])
unfolding jobs
execution_tests = (refl, refl)

clients-execute_multi_client_job_example :
    clients_of (execute_multi_client_job job fails_first (c2 ∷ c1 ∷ [])) ≡ (
      if job.concurrent
      then c2 ∷ c1 ∷ []
      else up_to_stop job.abort_on_err fails_first 0 (c2 ∷ c1 ∷ []))
clients-execute_multi_client_job_example =
    clients-execute_multi_client_job job fails_first (c2 ∷ c1 ∷ [])
