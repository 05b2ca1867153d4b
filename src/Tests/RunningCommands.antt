-- ===== src/Tests/RunningCommands.antt =====
-- Runs of the commands of a client: one is started, the next is refused, the first is finished.
use rport.Prelude.{◌≡◌, refl, true, false, none, some, [], ◌∷◌}
use rport.Result.{ok, err}
use rport.Commands.{get_interpreter, is_allowed, deny_allow}
use rport.Commands.Running.{
  Job, Config, Env, Client, still_running, receives, runs, Reach, here, then_step, receive, run_cmd,
  new_client,
}
use rport.Commands.Exclusive.{IsExclusive, Reach-IsExclusive}
use rport.Commands.Release.{IsFree, lock_released}

running : Unit {0}
unfolding receive run_cmd new_client get_interpreter is_allowed
running = tt

abbrev config : Config
config = record {
  enabled = true;
  scripts_enabled = false;
  remote_commands = record { allow_regexp = []; deny_regexp = []; order = deny_allow };
  os = "linux";
}

abbrev job : Job
job = record { command = "ls"; interpreter = ""; is_script = false; multi_job_id = none }

abbrev env : Env
env = record { script_path = some "/tmp/a.sh"; started = some 42; remove_fails = false }

abbrev accepted : Client
accepted = (receive config (some job) new_client).1

abbrev started : Client
started = (run_cmd config env job accepted).1

running_tests :
    ((run_cmd config env job accepted).0 ≡ ok 42)
    × (started.cur_cmd_pid ≡ some 42)
    × (started.run_cmd_locked ≡ true)
    × (started.scripts ≡ "/tmp/a.sh" ∷ [])
    × ((receive config (some job) started).0 ≡ err (still_running 42))
unfolding running
running_tests = (refl, refl, refl, refl, refl)

Reach-IsExclusive_example : IsExclusive started
unfolding running
Reach-IsExclusive_example =
    Reach-IsExclusive config started
      (then_step (then_step here (receives (some job) refl)) (runs env job refl refl))

lock_released_example : (c' : Client) × Reach config started c' × IsFree c'
unfolding running
lock_released_example =
    lock_released config started
      (then_step (then_step here (receives (some job) refl)) (runs env job refl refl))
