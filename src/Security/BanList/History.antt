-- ===== src/Security/BanList/History.antt =====
-- share/security/banlist.go: the counters and the bans of `MaxBadAttemptsBanList`, read off the
-- history of login attempts.
use Prim.Native.Nat.{◌%◌}
use native.Mathlib.Nat.{mod-lt, mod-eq_of_lt, mod_self, suc-mod}
use rport.Prelude.{
  ℕ, suc, zero, ◌+◌, ◌<◌, ◌≤◌, String, Bool, false, Option, none, some, List, [], ◌∷◌, ◌++◌, map,
  ◌≡◌, refl, ◌≢◌, arith, str_eq, eq_iff, ◌==◌, if◌then◌else◌, ◌∙◌, length,
}
use rport.Dict.{lookup, lookup-insert}
use rport.Security.BanList.{
  Visitor, MaxBadAttemptsBanList, new_max_bad_attempts_ban_list, found_or_new, count_bad,
  add_bad_attempt, add_success_attempt, is_visitor_banned, after, expires_after,
}

pub record Attempt : Type 0 where
  pub key : String
  pub at : ℕ
  pub good : Bool

unfoldable pub record_attempt : MaxBadAttemptsBanList → Attempt → MaxBadAttemptsBanList
record_attempt l a = if a.good then add_success_attempt l a.key else add_bad_attempt l a.key a.at

-- A history has the latest attempt first.
unfoldable pub run : MaxBadAttemptsBanList → List Attempt → MaxBadAttemptsBanList
run l [] = l
run l (a ∷ h) = record_attempt (run l h) a

-- The failures of a visitor since its last success, bans notwithstanding.
unfoldable pub streak : String → List Attempt → ℕ
streak key [] = 0
streak key (a ∷ h) =
    let before = streak key h in
    if str_eq a.key key then (if a.good then 0 else suc before) else before

-- When the last ban runs out: every failure that makes the streak a multiple of the maximum bans,
-- and a success lifts the ban.
unfoldable pub ban_expiry : ℕ → ℕ → String → List Attempt → Option ℕ
ban_expiry max duration key [] = none
ban_expiry max duration key (a ∷ h) =
    let before = ban_expiry max duration key h in
    if str_eq a.key key
    then (if a.good
        then none
        else if suc (streak key h) % max == 0
        then some (a.at + duration)
        else before)
    else before

-- Failures of one visitor at the given times, the latest first.
abbrev pub failures : String → List ℕ → List Attempt
failures key times = map (λ t. record { key = key; at = t; good = false }) times

-- All failures of a visitor, also those before a success.
unfoldable pub all_failures : String → List Attempt → ℕ
all_failures key [] = 0
all_failures key (a ∷ h) =
    let before = all_failures key h in
    if str_eq a.key key then (if a.good then before else suc before) else before

mod_wrap : (s m : ℕ) → s % m + 1 ≡ m → suc s % m ≡ 0
mod_wrap s m h = let e : suc (s % m) ≡ m = omega arith in rw (suc-mod s m, e) (mod_self m)

mod_step : (s m : ℕ) → s % m + 1 ≢ m → suc s % m ≡ s % m + 1
mod_step s zero h = grind arith
mod_step s (suc m) h =
    let lt : s % suc m < suc m = mod-lt s (omega arith) in
    rw suc-mod (mod-eq_of_lt {n = suc (s % suc m)} (omega arith) ∙ omega arith)

abbrev pub entry : MaxBadAttemptsBanList → String → Visitor
entry l key = found_or_new (lookup key l.visitors)

record_attempt-config :
    (l : MaxBadAttemptsBanList) (a : Attempt)
    → ((record_attempt l a).max_bad_attempts ≡ l.max_bad_attempts)
      × ((record_attempt l a).ban_duration ≡ l.ban_duration)
unfolding record_attempt add_bad_attempt add_success_attempt
record_attempt-config l a = ground arith

record_attempt-entry :
    (l : MaxBadAttemptsBanList) (a : Attempt) (key : String)
    → entry (record_attempt l a) key ≡ (
        if str_eq a.key key
        then (if a.good
            then record { bad_attempts = 0; ban_time = none }
            else count_bad l.max_bad_attempts l.ban_duration a.at (entry l key))
        else entry l key)
unfolding record_attempt add_bad_attempt add_success_attempt
record_attempt-entry l a key = ground (
  arith,
  eq_iff a.key key,
  lookup-insert a.key key (record { bad_attempts = 0; ban_time = none }) l.visitors,
  lookup-insert a.key key (count_bad l.max_bad_attempts l.ban_duration a.at (entry l a.key))
      l.visitors,
)

module _ (max duration : ℕ) (key : String) where
  abbrev pub start : MaxBadAttemptsBanList
  start = new_max_bad_attempts_ban_list max duration

  run-config :
      (h : List Attempt)
      → ((run start h).max_bad_attempts ≡ max) × ((run start h).ban_duration ≡ duration)
  unfolding run new_max_bad_attempts_ban_list
  run-config [] = (refl, refl)
  run-config (a ∷ h) =
      let (same_max, same_duration) = record_attempt-config (run start h) a in
      let (m, d) = run-config h in (same_max ∙ m, same_duration ∙ d)

  abbrev described : List Attempt → Visitor
  described h = record {
    bad_attempts = streak key h % max;
    ban_time = ban_expiry max duration key h;
  }

  count-described :
      (h : List Attempt) (now : ℕ)
      → count_bad max duration now (described h) ≡ record {
        bad_attempts = suc (streak key h) % max;
        ban_time =
            if suc (streak key h) % max == 0
            then some (now + duration)
            else ban_expiry max duration key h;
      }
  count-described h now = ground (arith, mod_wrap (streak key h) max, mod_step (streak key h) max)

  -- The entry of every visitor counts its failures since the last success, modulo the maximum, and
  -- holds the end of its last ban.
  pub entry-run :
      (h : List Attempt)
      → entry (run start h) key
        ≡ record { bad_attempts = streak key h % max; ban_time = ban_expiry max duration key h }
  unfolding run new_max_bad_attempts_ban_list lookup streak ban_expiry
  entry-run [] = ground arith
  entry-run (a ∷ h) = ground (
    arith,
    record_attempt-entry (run start h) a key,
    run-config h,
    entry-run h,
    count-described h a.at,
  )

  banned_by_entry :
      (l : MaxBadAttemptsBanList) (now : ℕ)
      → is_visitor_banned l key now ≡ expires_after (entry l key).ban_time now
  unfolding is_visitor_banned
  banned_by_entry l now = ground arith

  -- After any history of attempts a visitor is banned exactly until the end of the ban that the
  -- history gives it: a ban starts at each failure that makes the failures since the last success
  -- a multiple of the maximum, lasts the ban duration, and a success lifts it.
  pub is_visitor_banned-run :
      (h : List Attempt) (now : ℕ)
      → is_visitor_banned (run start h) key now ≡ expires_after (ban_expiry max duration key h) now
  is_visitor_banned-run h now = rw (banned_by_entry (run start h) now, entry-run h)

  streak-failures :
      (times : List ℕ) (h : List Attempt)
      → streak key (failures key times ++ h) ≡ length times + streak key h
  unfolding streak
  streak-failures [] h = omega arith
  streak-failures (t ∷ times) h = ground (arith, eq_iff key key, streak-failures times h)

  -- When a visitor with no counted failure fails as often in a row as the maximum, whatever the
  -- times, it is banned from then until the ban duration after the last failure, and no longer.
  pub max_failures_ban :
      (t : ℕ) (times : List ℕ) (h : List Attempt) (now : ℕ)
      → streak key h ≡ 0
      → suc (length times) ≡ max
      → is_visitor_banned (run start (failures key (t ∷ times) ++ h)) key now
        ≡ after (t + duration) now
  unfolding ban_expiry
  max_failures_ban t times h now none_before enough =
      let full : suc (streak key (failures key times ++ h)) ≡ max =
        omega (arith, streak-failures times h) in
      rw (is_visitor_banned-run (failures key (t ∷ times) ++ h) now)
        (ground (arith, eq_iff key key, full, mod_self max))

  streak-le-all_failures : (h : List Attempt) → streak key h ≤ all_failures key h
  unfolding streak all_failures
  streak-le-all_failures [] = omega arith
  streak-le-all_failures (a ∷ h) = ground (arith, streak-le-all_failures h)

  few_failures :
      (h : List Attempt) → all_failures key h < max → ban_expiry max duration key h ≡ none
  unfolding ban_expiry all_failures
  few_failures [] lt = refl
  few_failures (a ∷ h) lt = ground (
    arith,
    few_failures h,
    streak-le-all_failures h,
    mod-eq_of_lt {n = suc (streak key h)} {m = max},
  )

  -- A visitor with fewer failures than the maximum in the whole history is not banned, whatever
  -- the other visitors did.
  pub not_banned_of_few :
      (h : List Attempt) (now : ℕ)
      → all_failures key h < max
      → is_visitor_banned (run start h) key now ≡ false
  not_banned_of_few h now lt = rw (is_visitor_banned-run h now, few_failures h lt)

  -- After any history the counter of every visitor stays below a positive maximum.
  pub bad_attempts-lt-max :
      (h : List Attempt) → 0 < max → (entry (run start h) key).bad_attempts < max
  bad_attempts-lt-max h pos = rw (entry-run h) (mod-lt (streak key h) pos)
