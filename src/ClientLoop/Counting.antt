-- ===== src/ClientLoop/Counting.antt =====
-- client/client.go, `connectionLoop`: after how many failing passes a client gives up, in numbers.
use rport.Prelude.{ℕ, suc, ◌+◌, Bool, true, false, ◌&&◌, ◌≡◌, refl, arith, ltb}
use rport.Prelude.{ℤ, pos, negsuc}
use rport.ClientLoop.Passes.{is_last_attempt}

-- Whether `k` failing passes after a failure exhaust the attempts, `a` of which are used.
abbrev pub gives_up : ℤ → ℕ → ℕ → Bool
gives_up (pos n) a k = ltb 0 k && ltb n (a + k)
gives_up (negsuc n) a k = false

-- The first failure is no retry: of `k` failing passes from the start, the last ends the loop.
abbrev pub ends_within : ℤ → ℕ → Bool
ends_within (pos n) k = ltb (suc n) k
ends_within (negsuc n) k = false

pub gives_up_now :
    (max : ℤ) (a k : ℕ) → is_last_attempt max a ≡ true → gives_up max a (suc k) ≡ true
gives_up_now (pos n) a k last = ground arith
gives_up_now (negsuc n) a k last = absurd (ground arith)

pub gives_up_later :
    (max : ℤ) (a k : ℕ)
    → is_last_attempt max a ≡ false
    → gives_up max (suc a) k ≡ gives_up max a (suc k)
gives_up_later (pos n) a k more = ground arith
gives_up_later (negsuc n) a k more = refl

pub gives_up_never : (max : ℤ) (a : ℕ) → gives_up max a 0 ≡ false
gives_up_never (pos n) a = refl
gives_up_never (negsuc n) a = refl

pub ends_within-suc : (max : ℤ) (k : ℕ) → gives_up max 0 k ≡ ends_within max (suc k)
ends_within-suc (pos n) k = ground arith
ends_within-suc (negsuc n) k = refl

pub ends_within_zero : (max : ℤ) → false ≡ ends_within max 0
ends_within_zero (pos n) = ground arith
ends_within_zero (negsuc n) = refl
