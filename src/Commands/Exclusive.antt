-- ===== src/Commands/Exclusive.antt =====
-- client/exec.go: the lock, the PID and the goroutine that observes a command belong together.
use rport.Prelude.{
  ◌++◌, length-append, ℕ, ◌+◌, ◌≤◌, String, Bool, true, false, not, ◌&&◌, Option, none, some, List,
  [], ◌∷◌, ◌≡◌, refl, arith, ap, ◌∙◌, if◌then◌else◌, length, Bool-cases, inl, inr,
}
use rport.Result.{Result, ok, err}
use rport.Commands.{InterpreterError, get_interpreter, is_allowed}
use rport.Commands.Running.{
  Job, Config, RunError, Observer, observing, stopped, released, End, Client, Env, Becomes, first,
  next, Ends, Step, receives, runs, stops, releases, finishes, Reach, here, then_step, receive,
  run_cmd, new_client, rm_script, start, with_script, with_interpreter, wait_if, accept,
  has_shebang_line,
}

abbrev pub pids_of : Observer → List ℕ
pids_of (observing pid path) = pid ∷ []
pids_of (stopped pid path end) = []
pids_of (released pid path end) = []

abbrev pub weight : Observer → ℕ
weight (observing pid path) = 1
weight (stopped pid path end) = 1
weight (released pid path end) = 0

-- The PIDs that are observed, and how many goroutines hold the lock.
abbrev pub observed : List Observer → List ℕ
observed [] = []
observed (o ∷ os) = pids_of o ++ observed os

abbrev pub holders : List Observer → ℕ
holders [] = 0
holders (o ∷ os) = weight o + holders os

abbrev pub listed : Option ℕ → List ℕ
listed none = []
listed (some pid) = pid ∷ []

pub record IsExclusive (c : Client) : Type 0 where
  pub locked_by_one : holders c.observers ≡ (if c.run_cmd_locked then 1 else 0)
  pub pid_observed : observed c.observers ≡ listed c.cur_cmd_pid

pids-le-weight : (o : Observer) → length (pids_of o) ≤ weight o
pids-le-weight (observing pid path) = ground arith
pids-le-weight (stopped pid path end) = ground arith
pids-le-weight (released pid path end) = ground arith

observed-le-holders : (os : List Observer) → length (observed os) ≤ holders os
observed-le-holders [] = omega arith
observed-le-holders (o ∷ os) =
    omega (arith, length-append (pids_of o) (observed os), pids-le-weight o, observed-le-holders os)

empty_of_few : (os : List Observer) → holders os ≡ 0 → observed os ≡ []
empty_of_few os few = ground (arith, observed-le-holders os)

stop_lem :
    (pid : ℕ) (path : String) (end : End) (os os' : List Observer)
    → Becomes (observing pid path) (stopped pid path end) os os'
    → (holders os' ≡ holders os) × (length (observed os) ≡ 1 + length (observed os'))
stop_lem pid path end os os' first = (refl, omega arith)
stop_lem pid path end os os' (next {o1 = o} {os = ps} {os' = ps'} later) =
    let (held, one_less) = stop_lem pid path end ps ps' later in
    (
      ap (λ n. weight o + n) held,
      omega (
        arith,
        one_less,
        length-append (pids_of o) (observed ps),
        length-append (pids_of o) (observed ps'),
      ),
    )

release_lem :
    (pid : ℕ) (path : String) (end : End) (os os' : List Observer)
    → Becomes (stopped pid path end) (released pid path end) os os'
    → (holders os ≡ 1 + holders os') × (observed os' ≡ observed os)
release_lem pid path end os os' first = (omega arith, refl)
release_lem pid path end os os' (next {o1 = o} {os = ps} {os' = ps'} later) =
    let (one_less, same) = release_lem pid path end ps ps' later in
    (omega (arith, one_less), ap (λ l. pids_of o ++ l) same)

finish_lem :
    (pid : ℕ) (path : String) (end : End) (os os' : List Observer)
    → Ends (released pid path end) os os'
    → (holders os' ≡ holders os) × (observed os' ≡ observed os)
finish_lem pid path end os os' first = (omega arith, refl)
finish_lem pid path end os os' (next {o1 = o} {os = ps} {os' = ps'} later) =
    let (held, same) = finish_lem pid path end ps ps' later in
    (ap (λ n. weight o + n) held, ap (λ l. pids_of o ++ l) same)

last_gone : (l l' : List ℕ) (o : Option ℕ) → length l ≡ 1 + length l' → l ≡ listed o → l' ≡ []
last_gone l [] o less same = refl
last_gone l (p ∷ ps) none less same = absurd (ground (arith, ap length same))
last_gone l (p ∷ ps) (some q) less same = absurd (ground (arith, ap length same))

wait_if-IsExclusive :
    (r : Result RunError Job) (c : Client) → IsExclusive c → IsExclusive (wait_if r c).1
wait_if-IsExclusive (ok job) c holds = record {
  locked_by_one = holds.locked_by_one;
  pid_observed = holds.pid_observed;
}
wait_if-IsExclusive (err e) c holds = holds

rm_script-IsExclusive :
    (fails : Bool) (path : String) (c : Client)
    → IsExclusive c
    → IsExclusive (rm_script fails path c).1
rm_script-IsExclusive true path c holds = holds
rm_script-IsExclusive false path c holds = record {
  locked_by_one = holds.locked_by_one;
  pid_observed = holds.pid_observed;
}

start-IsExclusive :
    (env : Env) (path : String) (o : Option ℕ) (c : Client)
    → IsExclusive (record c { run_cmd_locked = false })
    → c.run_cmd_locked ≡ true
    → IsExclusive (start env path o c).1
start-IsExclusive env path none c holds locked = rm_script-IsExclusive env.remove_fails path _ holds
start-IsExclusive env path (some pid) c holds locked = record {
  locked_by_one = ground (arith, holds.locked_by_one);
  pid_observed = ap (λ l. pid ∷ l) (empty_of_few c.observers (ground (arith, holds.locked_by_one)));
}

with_script-IsExclusive :
    (env : Env) (o : Option String) (c : Client)
    → IsExclusive (record c { run_cmd_locked = false })
    → c.run_cmd_locked ≡ true
    → IsExclusive (with_script env o c).1
with_script-IsExclusive env none c holds locked = holds
with_script-IsExclusive env (some path) c holds locked =
    start-IsExclusive env path env.started (record c { scripts = path ∷ c.scripts })
      (record { locked_by_one = holds.locked_by_one; pid_observed = holds.pid_observed }) locked

with_interpreter-IsExclusive :
    (config : Config) (env : Env) (job : Job) (r : Result InterpreterError String) (c : Client)
    → IsExclusive (record c { run_cmd_locked = false })
    → c.run_cmd_locked ≡ true
    → IsExclusive (with_interpreter config env job r c).1
with_interpreter-IsExclusive config env job (err e) c holds locked = holds
with_interpreter-IsExclusive config env job (ok i) c holds locked =
    elim (Bool-cases (not job.is_script && not (is_allowed config.remote_commands job.command))) [
      | inl refused ↦ rw refused holds
      | inr allowed ↦ rw allowed (with_script-IsExclusive env env.script_path c holds locked)
    ]

Step-IsExclusive :
    (config : Config) (c c' : Client) → Step config c c' → IsExclusive c → IsExclusive c'
unfolding receive run_cmd
Step-IsExclusive config c c' (receives payload idle) holds =
    wait_if-IsExclusive (accept config payload c.cur_cmd_pid) c holds
Step-IsExclusive config c c' (runs env job waits free) holds =
    with_interpreter-IsExclusive config env job
      (get_interpreter job.interpreter config.os (has_shebang_line job.command))
      (record c { run_cmd_locked = true; waiting = none })
      (record {
        locked_by_one = ground (arith, holds.locked_by_one);
        pid_observed = holds.pid_observed;
      })
      refl
Step-IsExclusive config c c' (stops pid path end os stop) holds =
    let (held, one_less) = stop_lem pid path end c.observers os stop in
    record {
      locked_by_one = held ∙ holds.locked_by_one;
      pid_observed =
          last_gone (observed c.observers) (observed os) c.cur_cmd_pid one_less holds.pid_observed;
    }
Step-IsExclusive config c c' (releases pid path end os release) holds =
    let (one_less, same) = release_lem pid path end c.observers os release in
    record {
      locked_by_one = ground (arith, holds.locked_by_one);
      pid_observed = same ∙ holds.pid_observed;
    }
Step-IsExclusive config c c' (finishes pid path end os decimal std_out std_err remove_fails finish)
      holds =
    let (held, same) = finish_lem pid path end c.observers os finish in
    rm_script-IsExclusive remove_fails path _ (record {
      locked_by_one = held ∙ holds.locked_by_one;
      pid_observed = same ∙ holds.pid_observed;
    })

-- In every state that a client reaches, whatever requests come and however commands and goroutines
-- interleave: at most one command is observed, the lock is held exactly by the one goroutine that
-- observes it or has just stopped, and the PID that is kept is that of the observed command.
pub Reach-IsExclusive : (config : Config) (c : Client) → Reach config new_client c → IsExclusive c
unfolding new_client
Reach-IsExclusive config c here = record { locked_by_one = refl; pid_observed = refl }
Reach-IsExclusive config c (then_step {m = m} before step) =
    Step-IsExclusive config m c step (Reach-IsExclusive config m before)
