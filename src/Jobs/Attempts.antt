-- ===== src/Jobs/Attempts.antt =====
-- server/api.go, `executeMultiClientJob`: how far a run goes.
use rport.Prelude.{
  ℕ, suc, String, Bool, true, false, not, ◌||◌, Option, none, some, List, [], ◌∷◌, ◌≡◌, refl, arith,
  if◌then◌else◌, map, ap, ◌∙◌,
}
use rport.Clients.Model.{Client}
use rport.Jobs.Requests.{MultiJob}
use rport.Jobs.Execution.{
  Turn, Attempt, create_and_run_job, attempt_with, breaks, is_failed, is_started, run_concurrent,
  run_sequential, execute_multi_client_job,
}

-- The command was started: an id was there, and the client answered with a process.
abbrev pub was_started : Turn → Bool
was_started turn = elim turn.new_job_id [ none ↦ false | some jid ↦ is_started turn.answer ]

-- The run goes on after a turn: its result came back, if there is one to come, and there was no
-- failure, or failures do not matter.
abbrev pub goes_on : Bool → Turn → Bool
goes_on abort turn =
    if was_started turn
    then (elim turn.result [ none ↦ false | some status ↦ not abort || not (is_failed status) ])
    else not abort

-- The clients up to the first turn after which the run does not go on.
abbrev pub up_to_stop : Bool → (ℕ → Turn) → ℕ → List Client → List Client
up_to_stop abort turns n [] = []
up_to_stop abort turns n (c ∷ cs) =
    let rest = up_to_stop abort turns (suc n) cs in
    if goes_on abort (turns n) then c ∷ rest else c ∷ []

abbrev pub clients_of : List Attempt → List Client
clients_of = map (λ a. a.client)

attempt_client :
    (job : MultiJob) (turn : Turn) (c : Client) (o : Option String)
    → (attempt_with job turn c o).1.client ≡ c
attempt_client job turn c none = refl
attempt_client job turn c (some jid) = refl

attempt_breaks :
    (job : MultiJob) (turn : Turn) (c : Client)
    → breaks job turn (create_and_run_job job turn c).0 ≡ not (goes_on job.abort_on_err turn)
unfolding create_and_run_job
attempt_breaks job turn c = ground arith

concurrent_lem :
    (job : MultiJob) (turns : ℕ → Turn) (n : ℕ) (cs : List Client)
    → clients_of (run_concurrent job turns n cs) ≡ cs
unfolding run_concurrent create_and_run_job
concurrent_lem job turns n [] = refl
concurrent_lem job turns n (c ∷ cs) =
    rw (attempt_client job (turns n) c (turns n).new_job_id)
      (ap (λ x. c ∷ x) (concurrent_lem job turns (suc n) cs))

-- The list that one turn leaves.
turn_lem :
    (b : Bool) (a : Attempt) (rest : List Attempt) (c : Client)
    → a.client ≡ c
    → clients_of (if b then a ∷ [] else a ∷ rest) ≡ (if b then c ∷ [] else c ∷ clients_of rest)
turn_lem true a rest c same = ap (λ x. x ∷ []) same
turn_lem false a rest c same = ap (λ x. x ∷ clients_of rest) same

sequential_lem :
    (job : MultiJob) (turns : ℕ → Turn) (n : ℕ) (cs : List Client)
    → clients_of (run_sequential job turns n cs) ≡ up_to_stop job.abort_on_err turns n cs
unfolding run_sequential create_and_run_job
sequential_lem job turns n [] = refl
sequential_lem job turns n (c ∷ cs) =
    turn_lem (breaks job (turns n) (create_and_run_job job (turns n) c).0)
      (create_and_run_job job (turns n) c).1 (run_sequential job turns (suc n) cs) c
      (attempt_client job (turns n) c (turns n).new_job_id)
    ∙ ap (λ b. if b then c ∷ [] else c ∷ clients_of (run_sequential job turns (suc n) cs))
        (attempt_breaks job (turns n) c)
    ∙ ap (λ x. if not (goes_on job.abort_on_err (turns n)) then c ∷ [] else c ∷ x)
        (sequential_lem job turns (suc n) cs)
    ∙ ground arith

-- A concurrent run attempts the job once on every client. Any other goes through the clients in their
-- order, and attempts it exactly on those up to the first one whose command was started and whose
-- result never comes back or, where the run aborts on errors, on which no id could be drawn, the
-- command was not started, or the result is a failure.
pub clients-execute_multi_client_job :
    (job : MultiJob) (turns : ℕ → Turn) (ordered_clients : List Client)
    → clients_of (execute_multi_client_job job turns ordered_clients) ≡ (
        if job.concurrent
        then ordered_clients
        else up_to_stop job.abort_on_err turns 0 ordered_clients)
clients-execute_multi_client_job job turns cs =
    ground (arith, concurrent_lem job turns 0 cs, sequential_lem job turns 0 cs)
