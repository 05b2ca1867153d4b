-- ===== src/Security/BanList.antt =====
-- share/security/banlist.go. `time.Now()` is an argument of each call, in nanoseconds; the mutexes
-- make each call atomic, so a run is a sequence of calls. The log line is left out.
pub mod History
use rport.Prelude.{
  ℕ, ◌+◌, String, Bool, false, true, ◌&&◌, Option, none, some, [], ltb, ◌==◌, if◌then◌else◌,
}
use rport.Dict.{Dict, lookup, insert}

-- `t.After(now)`
abbrev pub after : ℕ → ℕ → Bool
after t now = ltb now t

pub record BanList : Type 0 where
  pub ban_duration : ℕ
  pub visitors : Dict ℕ

pub new_ban_list : ℕ → BanList
new_ban_list ban_duration = record { ban_duration = ban_duration; visitors = [] }

unfoldable pub add : BanList → String → ℕ → BanList
add l visitor_key now = record l { visitors = insert visitor_key (now + l.ban_duration) l.visitors }

abbrev pub expires_after : Option ℕ → ℕ → Bool
expires_after none now = false
expires_after (some ban_expiry) now = after ban_expiry now

unfoldable pub is_banned : BanList → String → ℕ → Bool
is_banned l visitor_key now = expires_after (lookup visitor_key l.visitors) now

pub record Visitor : Type 0 where
  pub bad_attempts : ℕ
  pub ban_time : Option ℕ

pub record MaxBadAttemptsBanList : Type 0 where
  pub ban_duration : ℕ
  pub max_bad_attempts : ℕ
  pub visitors : Dict Visitor

unfoldable pub new_max_bad_attempts_ban_list : ℕ → ℕ → MaxBadAttemptsBanList
new_max_bad_attempts_ban_list max_bad_attempts ban_duration = record {
  ban_duration = ban_duration;
  max_bad_attempts = max_bad_attempts;
  visitors = [];
}

abbrev pub found_or_new : Option Visitor → Visitor
found_or_new none = record { bad_attempts = 0; ban_time = none }
found_or_new (some v) = v

-- What `AddBadAttempt` writes into the visitor's entry.
abbrev pub count_bad : ℕ → ℕ → ℕ → Visitor → Visitor
count_bad max_bad_attempts ban_duration now v =
    if v.bad_attempts + 1 == max_bad_attempts
    then record { bad_attempts = 0; ban_time = some (now + ban_duration) }
    else record v { bad_attempts = v.bad_attempts + 1 }

unfoldable pub add_bad_attempt : MaxBadAttemptsBanList → String → ℕ → MaxBadAttemptsBanList
add_bad_attempt l visitor_key now = record l {
  visitors =
      insert visitor_key
        (count_bad l.max_bad_attempts l.ban_duration now
          (found_or_new (lookup visitor_key l.visitors)))
        l.visitors;
}

unfoldable pub add_success_attempt : MaxBadAttemptsBanList → String → MaxBadAttemptsBanList
add_success_attempt l visitor_key = elim (lookup visitor_key l.visitors) [
  | none ↦ l
  | some v ↦ record l {
    visitors = insert visitor_key (record { bad_attempts = 0; ban_time = none }) l.visitors;
  }
]

abbrev pub visitor_banned : Option Visitor → ℕ → Bool
visitor_banned none now = false
visitor_banned (some v) now = expires_after v.ban_time now

unfoldable pub is_visitor_banned : MaxBadAttemptsBanList → String → ℕ → Bool
is_visitor_banned l visitor_key now = visitor_banned (lookup visitor_key l.visitors) now
