-- ===== src/Commands/Running.antt =====
-- client/exec.go, `HandleRunCmdRequest`: one handler, which takes one request after the other, and the
-- goroutines that observe what it started. The log lines are left out, and so is the time.
use text.Mathlib.Text.{starts_with}
use rport.Prelude.{
  ℕ, String, Bool, true, false, not, ◌&&◌, Option, none, some, List, [], ◌∷◌, str_eq, if◌then◌else◌,
  is_none, ◌≡◌,
}
use rport.Result.{Result, ok, err, and_then, refuse_if}
use rport.Exec.{Exec, lift, ◌>>◌}
use rport.Commands.{
  InterpreterError, get_interpreter, RemoteCommands, is_allowed, CapacityBuffer, build_err_text,
}

-- Of a job, what the handler decides by.
pub record Job : Type 0 where
  pub command : String
  pub interpreter : String
  pub is_script : Bool
  pub multi_job_id : Option String

pub record Config : Type 0 where
  pub enabled : Bool
  pub scripts_enabled : Bool
  pub remote_commands : RemoteCommands
  pub os : String

pub data RunError : Type 0 where
  commands_disabled not_decoded scripts_disabled not_allowed script_failed start_failed : RunError
  still_running : ℕ → RunError
  bad_interpreter : InterpreterError → RunError

-- The status that a client gives a job.
pub data Status : Type 0 where
  successful failed unknown : Status

-- Why observing stopped: the command exited, with an error or without, or took too long.
pub data End : Type 0 where
  exited : Option String → End
  timed_out : End

abbrev pub exec_err_of : End → Option String
exec_err_of (exited exec_err) = exec_err
exec_err_of timed_out = none

abbrev pub status_of : End → Status
status_of (exited none) = successful
status_of (exited (some e)) = failed
status_of timed_out = unknown

-- A goroutine: it waits for the command; it has unset the PID; it has released the lock.
pub data Observer : Type 0 where
  observing : ℕ → String → Observer
  stopped released : ℕ → String → End → Observer

-- The job as it is sent to the server.
pub record Report : Type 0 where
  pub pid : ℕ
  pub status : Status
  pub error : String

-- `waiting` is the job for which the handler waits for the lock.
pub record Client : Type 0 where
  pub cur_cmd_pid : Option ℕ
  pub run_cmd_locked : Bool
  pub waiting : Option Job
  pub observers : List Observer
  pub scripts : List String
  pub reports : List Report

abbrev pub Call : Type 0 → Type 0
Call = Exec RunError Client

abbrev pub decoded : Option Job → Result RunError Job
decoded none = err not_decoded
decoded (some job) = ok job

abbrev pub refuse_running : Option ℕ → Job → Result RunError (Unit {0})
refuse_running none job = ok tt
refuse_running (some pid) job = refuse_if (is_none job.multi_job_id) (still_running pid)

abbrev pub accept : Config → Option Job → Option ℕ → Result RunError Job
accept config payload cur_pid = and_then (refuse_if (not config.enabled) commands_disabled) λ _.
    and_then (decoded payload) λ job. and_then (refuse_running cur_pid job) λ _.
      and_then (refuse_if (job.is_script && not config.scripts_enabled) scripts_disabled)
        λ _. ok job

abbrev pub wait_if : Result RunError Job → Call (Unit {0})
wait_if (ok job) c = (ok tt, record c { waiting = some job })
wait_if (err e) c = (err e, c)

-- The first part of the handler, before it asks for the lock.
unfoldable pub receive : Config → Option Job → Call (Unit {0})
receive config payload c = wait_if (accept config payload c.cur_cmd_pid) c

abbrev pub shebang_prefix : String
shebang_prefix = "#!"

abbrev pub has_shebang_line : String → Bool
has_shebang_line script = starts_with script shebang_prefix

-- The path of the script that `CreateScriptFile` wrote, the PID of the process that started, and
-- whether removing a script fails.
pub record Env : Type 0 where
  pub script_path : Option String
  pub started : Option ℕ
  pub remove_fails : Bool

abbrev pub without : String → List String → List String
without path [] = []
without path (p ∷ ps) = if str_eq p path then without path ps else p ∷ without path ps

abbrev pub rm_script : Bool → String → Call (Unit {0})
rm_script fails path c = (ok tt, if fails then c else record c { scripts = without path c.scripts })

abbrev pub unlock : Call (Unit {0})
unlock c = (ok tt, record c { run_cmd_locked = false })

abbrev pub fail_unlocked : RunError → Call ℕ
fail_unlocked e = unlock >> lift (err e)

abbrev pub start : Env → String → Option ℕ → Call ℕ
start env path none = unlock >> rm_script env.remove_fails path >> lift (err start_failed)
start env path (some pid) =
    λ c. (ok pid, record c { cur_cmd_pid = some pid; observers = observing pid path ∷ c.observers })

abbrev pub with_script : Env → Option String → Call ℕ
with_script env none = fail_unlocked script_failed
with_script env (some path) =
    (λ c. (ok tt, record c { scripts = path ∷ c.scripts })) >> start env path env.started

abbrev pub with_interpreter : Config → Env → Job → Result InterpreterError String → Call ℕ
with_interpreter config env job (err e) = fail_unlocked (bad_interpreter e)
with_interpreter config env job (ok interpreter) =
    if not job.is_script && not (is_allowed config.remote_commands job.command)
    then fail_unlocked not_allowed
    else with_script env env.script_path

-- The second part of the handler, once it has the lock.
unfoldable pub run_cmd : Config → Env → Job → Call ℕ
unfolding get_interpreter is_allowed
run_cmd config env job =
    (λ c. (ok tt, record c { run_cmd_locked = true; waiting = none }))
    >> with_interpreter config env job
        (get_interpreter job.interpreter config.os (has_shebang_line job.command))

abbrev pub report : (ℕ → String) → ℕ → End → CapacityBuffer → CapacityBuffer → Report
report decimal pid end std_out std_err = record {
  pid = pid;
  status = status_of end;
  error = build_err_text decimal (exec_err_of end) std_out std_err;
}

-- One goroutine changes in the list, or ends.
pub data Becomes (o o' : Observer) : List Observer → List Observer → Type 0 where
  first : {os : List Observer} → Becomes o o' (o ∷ os) (o' ∷ os)
  next :
      {o1 : Observer} {os os' : List Observer}
      → Becomes o o' os os'
      → Becomes o o' (o1 ∷ os) (o1 ∷ os')

pub data Ends (o : Observer) : List Observer → List Observer → Type 0 where
  first : {os : List Observer} → Ends o (o ∷ os) os
  next : {o1 : Observer} {os os' : List Observer} → Ends o os os' → Ends o (o1 ∷ os) (o1 ∷ os')

-- The handler takes a request only while it waits for none, and the lock only while it is free.
pub data Step (config : Config) (c : Client) : Client → Type 0 where
  receives : (payload : Option Job) → c.waiting ≡ none → Step config c (receive config payload c).1
  runs :
      (env : Env) (job : Job)
      → c.waiting ≡ some job
      → c.run_cmd_locked ≡ false
      → Step config c (run_cmd config env job c).1
  stops :
      (pid : ℕ) (path : String) (end : End) (os : List Observer)
      → Becomes (observing pid path) (stopped pid path end) c.observers os
      → Step config c (record c { cur_cmd_pid = none; observers = os })
  releases :
      (pid : ℕ) (path : String) (end : End) (os : List Observer)
      → Becomes (stopped pid path end) (released pid path end) c.observers os
      → Step config c (record c { run_cmd_locked = false; observers = os })
  finishes :
      (pid : ℕ) (path : String) (end : End) (os : List Observer) (decimal : ℕ → String)
      (std_out std_err : CapacityBuffer) (remove_fails : Bool)
      → Ends (released pid path end) c.observers os
      → Step config c
          (rm_script remove_fails path (record c {
            observers = os;
            reports = report decimal pid end std_out std_err ∷ c.reports;
          })).1

pub data Reach (config : Config) (c : Client) : Client → Type 0 where
  here : Reach config c c
  then_step : {m m' : Client} → Reach config c m → Step config m m' → Reach config c m'

unfoldable pub new_client : Client
new_client = record {
  cur_cmd_pid = none;
  run_cmd_locked = false;
  waiting = none;
  observers = [];
  scripts = [];
  reports = [];
}
