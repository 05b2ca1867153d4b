-- ===== src/Jobs/Execution.antt =====
-- server/api.go, `executeMultiClientJob` and `createAndRunJob`. The two settings that only tests use
-- are off, and log lines are left out. A run is the list of the attempts that it comes to. The
-- goroutines of a concurrent run make theirs in any order; they are listed in the order of the clients.
use rport.Prelude.{
  ℕ, suc, String, Bool, true, false, not, ◌&&◌, Option, none, some, List, [], ◌∷◌, if◌then◌else◌,
}
use rport.Clients.Model.{Client}
use rport.Commands.Running.{Status, successful, failed, unknown}
use rport.Jobs.Requests.{MultiJob}

-- `running` is the status of a job whose command was started.
pub data JobStatus : Type 0 where
  running job_failed : JobStatus

pub record Job : Type 0 where
  pub jid : String
  pub status : JobStatus
  pub started_at : ℕ
  pub finished_at : Option ℕ
  pub error : String
  pub client_id : String
  pub client_name : String
  pub command : String
  pub cwd : String
  pub is_sudo : Bool
  pub is_script : Bool
  pub interpreter : String
  pub created_by : String
  pub timeout_sec : ℕ
  pub multi_job_id : String
  pub pid : Option ℕ

-- What a client answers to the request: the process, or an error's text.
pub data Answer : Type 0 where
  started : ℕ → ℕ → Answer
  refused : String → Answer

-- Of one turn of the loop: the id that was generated, the time, the client's answer, whether the job
-- was saved, and the status with which the result comes back, if it ever does: a client that
-- disconnects sends none, and then the loop waits without end.
pub record Turn : Type 0 where
  pub new_job_id : Option String
  pub now : ℕ
  pub answer : Answer
  pub created : Bool
  pub result : Option Status

-- A job that was sent to its client, and one that was not.
pub record Attempt : Type 0 where
  pub client : Client
  pub sent : Option Job
  pub saved : Bool

abbrev pub answered : Answer → ℕ → Job → Job
answered (started pid started_at) now job = record job {
  pid = some pid;
  started_at = started_at;
  status = running;
}
answered (refused error) now job = record job {
  status = job_failed;
  finished_at = some now;
  error = error;
}

abbrev pub is_started : Answer → Bool
is_started (started pid started_at) = true
is_started (refused error) = false

-- The status of a new job is empty until the client has answered.
abbrev pub new_job : MultiJob → Turn → Client → String → Job
new_job job turn client jid = record {
  jid = jid;
  status = running;
  started_at = turn.now;
  finished_at = none;
  error = "";
  client_id = client.id;
  client_name = client.machine.name;
  command = job.command;
  cwd = job.cwd;
  is_sudo = job.is_sudo;
  is_script = job.is_script;
  interpreter = job.interpreter;
  created_by = job.created_by;
  timeout_sec = job.timeout_sec;
  multi_job_id = job.jid;
  pid = none;
}

abbrev pub attempt_with : MultiJob → Turn → Client → Option String → Bool × Attempt
attempt_with job turn client none = (false, record { client = client; sent = none; saved = false })
attempt_with job turn client (some jid) = (
  is_started turn.answer,
  record {
    client = client;
    sent = some (answered turn.answer turn.now (new_job job turn client jid));
    saved = turn.created;
  },
)

unfoldable pub create_and_run_job : MultiJob → Turn → Client → Bool × Attempt
create_and_run_job job turn client = attempt_with job turn client turn.new_job_id

abbrev pub is_failed : Status → Bool
is_failed successful = false
is_failed failed = true
is_failed unknown = false

-- Whether the loop goes no further after this turn, because it ends or waits without end.
abbrev pub breaks : MultiJob → Turn → Bool → Bool
breaks job turn success =
    if not success
    then job.abort_on_err
    else (elim turn.result [ none ↦ true | some status ↦ job.abort_on_err && is_failed status ])

unfoldable pub run_concurrent : MultiJob → (ℕ → Turn) → ℕ → List Client → List Attempt
unfolding create_and_run_job
run_concurrent job turns n [] = []
run_concurrent job turns n (c ∷ cs) =
    (create_and_run_job job (turns n) c).1 ∷ run_concurrent job turns (suc n) cs

unfoldable pub run_sequential : MultiJob → (ℕ → Turn) → ℕ → List Client → List Attempt
unfolding create_and_run_job
run_sequential job turns n [] = []
run_sequential job turns n (c ∷ cs) =
    let rest = run_sequential job turns (suc n) cs in
    let (success, attempt) = create_and_run_job job (turns n) c in
    if breaks job (turns n) success then attempt ∷ [] else attempt ∷ rest

abbrev pub execute_multi_client_job : MultiJob → (ℕ → Turn) → List Client → List Attempt
execute_multi_client_job job turns ordered_clients =
    if job.concurrent
    then run_concurrent job turns 0 ordered_clients
    else run_sequential job turns 0 ordered_clients
