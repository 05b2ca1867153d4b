-- ===== src/Tests/BanLists.antt =====
-- Runs of the ban lists.
use rport.Prelude.{ℕ, ◌≡◌, refl, Bool, true, false, List, [], ◌∷◌, ◌<◌, arith}
use rport.Dict.{lookup, insert}
use rport.Security.BanList.{
  MaxBadAttemptsBanList, new_max_bad_attempts_ban_list, is_visitor_banned, add_bad_attempt,
  add_success_attempt, expires_after,
}
use rport.Security.BanList.History.{
  Attempt, run, record_attempt, ban_expiry, is_visitor_banned-run, bad_attempts-lt-max, entry,
}

banning : Unit {0}
unfolding run record_attempt new_max_bad_attempts_ban_list add_bad_attempt add_success_attempt
    is_visitor_banned lookup insert
banning = tt

abbrev attempt : ℕ → Bool → Attempt
attempt at good = record { key = "10.0.0.1"; at = at; good = good }

abbrev history : List Attempt
history =
    attempt 30 false
    ∷ attempt 20 false
    ∷ record { key = "10.0.0.2"; at = 15; good = true }
    ∷ attempt 10 true
    ∷ attempt 5 false
    ∷ []

abbrev two : MaxBadAttemptsBanList
two = new_max_bad_attempts_ban_list 2 100

is_visitor_banned_tests :
    (is_visitor_banned (run two history) "10.0.0.1" 129 ≡ true)
    × (is_visitor_banned (run two history) "10.0.0.1" 130 ≡ false)
    × (is_visitor_banned (run two history) "10.0.0.2" 31 ≡ false)
unfolding banning
is_visitor_banned_tests = (refl, refl, refl)

is_visitor_banned-run_example :
    is_visitor_banned (run two history) "10.0.0.1" 129
    ≡ expires_after (ban_expiry 2 100 "10.0.0.1" history) 129
is_visitor_banned-run_example = is_visitor_banned-run 2 100 "10.0.0.1" history 129

bad_attempts-lt-max_example : (entry (run two history) "10.0.0.1").bad_attempts < 2
bad_attempts-lt-max_example = bad_attempts-lt-max 2 100 "10.0.0.1" history (omega arith)
