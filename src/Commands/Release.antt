-- ===== src/Commands/Release.antt =====
-- client/exec.go: the lock is always given back.
use rport.Prelude.{
  ℕ, String, true, false, Option, none, some, List, [], ◌∷◌, ◌≡◌, refl, arith, ap, sym, ◌∙◌,
}
use rport.Commands.{CapacityBuffer}
use rport.Commands.Running.{
  Config, Observer, observing, stopped, released, End, timed_out, Client, first, Step, stops,
  releases, finishes, Reach, here, then_step, new_client,
}
use rport.Commands.Exclusive.{IsExclusive, holders, observed, listed, Reach-IsExclusive}

-- Nothing is running, and the next request that waits for the lock gets it.
pub record IsFree (c : Client) : Type 0 where
  pub no_observers : c.observers ≡ []
  pub no_pid : c.cur_cmd_pid ≡ none
  pub unlocked : c.run_cmd_locked ≡ false

abbrev no_output : CapacityBuffer
no_output = record { data_ = []; capacity = 0; has_overflow = false }

then_run :
    (config : Config) (a b c : Client) → Reach config a b → Reach config b c → Reach config a c
then_run config a b c before here = before
then_run config a b c before (then_step {m = m} run step) =
    then_step (then_run config a b m before run) step

no_pid_listed : (o : Option ℕ) → listed o ≡ [] → o ≡ none
no_pid_listed none nothing = refl
no_pid_listed (some pid) nothing = absurd (ground (arith, nothing))

module _ (config : Config) where
  abbrev Drained : Client → Type 0
  Drained c = (c' : Client) × Reach config c c' × (c'.observers ≡ [])

  abbrev Leads : Client → List Observer → Type 0
  Leads c os = (c' : Client) × Step config c c' × (c'.observers ≡ os)

  finish_first :
      (pid : ℕ) (path : String) (end : End) (os : List Observer) (c : Client)
      → c.observers ≡ released pid path end ∷ os
      → Leads c os
  finish_first pid path end os c there =
      (_, finishes pid path end os (λ n. "") no_output no_output true (rw there first), refl)

  release_first :
      (pid : ℕ) (path : String) (end : End) (os : List Observer) (c : Client)
      → c.observers ≡ stopped pid path end ∷ os
      → Leads c (released pid path end ∷ os)
  release_first pid path end os c there =
      (_, releases pid path end (released pid path end ∷ os) (rw there first), refl)

  stop_first :
      (pid : ℕ) (path : String) (os : List Observer) (c : Client)
      → c.observers ≡ observing pid path ∷ os
      → Leads c (stopped pid path timed_out ∷ os)
  stop_first pid path os c there =
      (_, stops pid path timed_out (stopped pid path timed_out ∷ os) (rw there first), refl)

  step_before : (c c1 : Client) → Step config c c1 → Drained c1 → Drained c
  step_before c c1 step (c', run, done) =
      (c', then_run config c c1 c' (then_step here step) run, done)

  drain : (os : List Observer) (c : Client) → c.observers ≡ os → Drained c
  drain [] c there = (c, here, there)
  drain (released pid path end ∷ os) c there =
      let (c1, step, next) = finish_first pid path end os c there in
      step_before c c1 step (drain os c1 next)
  drain (stopped pid path end ∷ os) c there =
      let (c1, step1, next1) = release_first pid path end os c there in
      let (c2, step2, next2) = finish_first pid path end os c1 next1 in
      step_before c c1 step1 (step_before c1 c2 step2 (drain os c2 next2))
  drain (observing pid path ∷ os) c there =
      let (c1, step1, next1) = stop_first pid path os c there in
      let (c2, step2, next2) = release_first pid path timed_out os c1 next1 in
      let (c3, step3, next3) = finish_first pid path timed_out os c2 next2 in
      step_before c c1 step1 (step_before c1 c2 step2 (step_before c2 c3 step3 (drain os c3 next3)))

IsFree-drained : (c : Client) → IsExclusive c → c.observers ≡ [] → IsFree c
IsFree-drained c holds none_left = record {
  no_observers = none_left;
  no_pid = no_pid_listed c.cur_cmd_pid (sym holds.pid_observed ∙ ap observed none_left);
  unlocked = ground (arith, holds.locked_by_one, ap holders none_left);
}

-- From every state that a client reaches, it can reach one in which the lock is free, no command is
-- observed and no PID is kept: no path through the code, also none that fails, keeps the lock.
pub lock_released :
    (config : Config) (c : Client)
    → Reach config new_client c
    → (c' : Client) × Reach config c c' × IsFree c'
lock_released config c reached =
    let (c', run, none_left) = drain config c.observers c refl in
    (
      c',
      run,
      IsFree-drained c' (Reach-IsExclusive config c' (then_run config new_client c c' reached run))
          none_left,
    )
