-- ===== src/Users/Database/Transactions.antt =====
-- server/api/users/database.go: what a transaction comes to, from the tables before it to those after it.
use rport.Prelude.{Bool-cases, none, some, ◌≡◌, refl, inl, inr, if◌then◌else◌}
use rport.Result.{Result, ok, err}
use rport.Users.Model.{Error, database_failed}
use rport.Users.Tables.{Tables, Env, begin_tx, commit_tx}
use rport.Users.Database.{Call, Session, settle, transaction}

-- What the statements leave, or a transaction.
abbrev pub Outcome : Type 0
Outcome = Result Error (Unit {0}) × Tables

-- All of the statements, or nothing.
abbrev pub all_or_nothing : Env → Tables → Outcome → Outcome
all_or_nothing env before (ok u, after) =
    if env.fault commit_tx then (err database_failed, before) else (ok tt, after)
all_or_nothing env before (err e, after) = (err e, before)

abbrev pub at_once : Env → Call → Tables → Outcome
at_once env m t =
    if env.fault begin_tx then (err database_failed, t) else all_or_nothing env t (m t)

abbrev pub seen : Result Error (Unit {0}) × Session → Outcome
seen r = (r.0, r.1.tables)

settle_lem :
    (env : Env) (s : Session) (r : Outcome)
    → (seen (settle env (r.0, record s { tx = some r.1 })) ≡ all_or_nothing env s.tables r)
      × ((settle env (r.0, record s { tx = some r.1 })).1.tx ≡ none)
settle_lem env s (ok u, after) = elim (Bool-cases (env.fault commit_tx)) [
  | inl failed ↦ rw failed (refl, refl)
  | inr done ↦ rw done (refl, refl)
]
settle_lem env s (err e, after) = (refl, refl)

-- A transaction shows all of its statements or none of them, and does not stay open.
pub transaction_lem :
    (env : Env) (m : Call) (s : Session)
    → (seen (transaction env m s) ≡ at_once env m s.tables)
      × (s.tx ≡ none → (transaction env m s).1.tx ≡ none)
unfolding transaction
transaction_lem env m s = elim (Bool-cases (env.fault begin_tx)) [
  | inl failed ↦ rw failed (refl, λ closed. closed)
  | inr begun ↦ let (same, over) = settle_lem env s (m s.tables) in rw begun (same, λ closed. over)
]
