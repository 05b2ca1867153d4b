-- ===== src/Users/Database/Atomic.antt =====
-- server/api/users/database.go: a change of the users that fails leaves the tables as they were.
use rport.Prelude.{
  String, false, none, ◌≡◌, refl, arith, either, Bool-cases, inl, inr, str_eq, ap, sym, ◌∙◌,
}
use rport.Result.{Result, ok, err, is_ok}
use rport.Users.Model.{User, Error}
use rport.Users.Database.{
  Call, Session, Change, transaction, add, update, delete, add_statements, update_statements,
  delete_statements,
}
use rport.Users.Database.Transactions.{Outcome, all_or_nothing, at_once, seen, transaction_lem}
use rport.Users.Tables.{Tables, UserDatabase, Env, begin_tx, commit_tx}

pub data Request : Type 0 where
  adds : User → Request
  updates : User → String → Request
  deletes : String → Request

unfoldable pub change : Env → UserDatabase → Request → Change
change env d (adds usr) = add env d usr
change env d (updates usr name) = update env usr name
change env d (deletes name) = delete env name

-- The tables after a failure are those before.
abbrev pub IsUndone : Tables → Outcome → Type 0
IsUndone t r = is_ok r.0 ≡ false → r.1 ≡ t

-- A call that undoes what fails, and leaves no transaction open.
abbrev pub LeavesNothing : Session → Result Error (Unit {0}) × Session → Type 0
LeavesNothing s r = IsUndone s.tables (seen r) × (s.tx ≡ none → r.1.tx ≡ none)

all_or_nothing-IsUndone :
    (env : Env) (t : Tables) (r : Outcome) → IsUndone t (all_or_nothing env t r)
all_or_nothing-IsUndone env t (ok u, after) = elim (Bool-cases (env.fault commit_tx)) [
  | inl failed ↦ rw failed (λ e. refl)
  | inr done ↦ rw done (λ e. absurd (ground (arith, e)))
]
all_or_nothing-IsUndone env t (err e, after) = λ failed. refl

at_once-IsUndone : (env : Env) (m : Call) (t : Tables) → IsUndone t (at_once env m t)
at_once-IsUndone env m t = elim (Bool-cases (env.fault begin_tx)) [
  | inl failed ↦ rw failed (λ e. refl)
  | inr begun ↦ rw begun (all_or_nothing-IsUndone env t (m t))
]

transaction-LeavesNothing :
    (env : Env) (m : Call) (s : Session) → LeavesNothing s (transaction env m s)
transaction-LeavesNothing env m s =
    let (same, closes) = transaction_lem env m s in
    (
      λ failed.
          ap (λ (r : Outcome). r.1) same
          ∙ at_once-IsUndone env m s.tables (ap (λ (r : Outcome). is_ok r.0) (sym same) ∙ failed),
      closes,
    )

change-LeavesNothing :
    (env : Env) (d : UserDatabase) (c : Request) (s : Session) → LeavesNothing s (change env d c s)
unfolding change add update delete
change-LeavesNothing env d (adds usr) s = transaction-LeavesNothing env (add_statements env d usr) s
change-LeavesNothing env d (updates usr name) s =
    either (λ (m : Change). LeavesNothing s (m s)) (str_eq name "") _ _
      (λ failed. refl, λ closed. closed)
      (transaction-LeavesNothing env (update_statements env usr name) s)
change-LeavesNothing env d (deletes name) s =
    transaction-LeavesNothing env (delete_statements env name) s

-- However an addition, an update or a deletion fails, also at the commit, and after whichever of its
-- statements, it leaves both tables as they were; and whether it fails or succeeds, it leaves no
-- transaction open.
pub change_undone :
    (env : Env) (d : UserDatabase) (c : Request) (s : Session)
    → s.tx ≡ none
    → (is_ok (change env d c s).0 ≡ false → (change env d c s).1.tables ≡ s.tables)
      × ((change env d c s).1.tx ≡ none)
change_undone env d c s closed =
    let (undone, closes) = change-LeavesNothing env d c s in (undone, closes closed)
