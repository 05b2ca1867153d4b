-- ===== src/Clients/Reestablish.antt =====
-- server/client_listener.go, `GetTunnelsToReestablish`: the old tunnels that a client that comes back
-- gets again. `oldMarked` stands beside the old tunnels it marks.
use rport.Prelude.{
  ℕ, ◌+◌, Bool, true, false, not, ◌&&◌, Option, none, some, List, [], ◌∷◌, ◌≡◌, refl, arith,
  if◌then◌else◌, str_eq, length, map, ltb, ◌⊎◌, inl, inr, Option-cases, Bool-cases,
}
use rport.Remote.{Remote, remote_address, remote_string, equal_acl, is_local_specified}

abbrev pub Marked : Type 0
Marked = List (Bool × Remote)

abbrev pub and_then : Option Marked → (Marked → Option Marked) → Option Marked
and_then none f = none
and_then (some ms) f = f ms

abbrev pub keep : Bool × Remote → Option Marked → Option Marked
keep m none = none
keep m (some ms) = some (m ∷ ms)

-- The inner loop: mark the first tunnel that is not marked yet and that the test accepts.
unfoldable pub mark_first : (Remote → Bool) → Marked → Option Marked
mark_first test [] = none
mark_first test (m ∷ ms) =
    let later = mark_first test ms in
    if not m.0 && test m.1 then some ((true, m.1) ∷ ms) else keep m later

-- One of the two outer loops, over the new tunnels that are its own; `none` is `return nil`.
unfoldable pub mark_all :
    (Remote → Bool) → (Remote → Remote → Bool) → List Remote → Marked → Option Marked
unfolding mark_first
mark_all mine same [] ms = some ms
mark_all mine same (n ∷ news) ms =
    and_then (if mine n then mark_first (same n) ms else some ms) (mark_all mine same news)

abbrev pub same_local : Remote → Remote → Bool
same_local new old = str_eq (remote_string new) (remote_string old)

abbrev pub same_random : Remote → Remote → Bool
same_random new old =
    old.local_port_random
    && str_eq (remote_address new) (remote_address old)
    && equal_acl new old.acl

-- A port that was random is asked for anew.
abbrev pub reset_random : Remote → Remote
reset_random r = if r.local_port_random then record r { local_host = ""; local_port = "" } else r

unfoldable pub left_over : Marked → List Remote
left_over [] = []
left_over (m ∷ ms) = if m.0 then left_over ms else reset_random m.1 ∷ left_over ms

abbrev pub unmarked : List Remote → Marked
unmarked = map (λ r. (false, r))

abbrev pub both_loops : List Remote → List Remote → Option Marked
both_loops old new =
    and_then (mark_all is_local_specified same_local new (unmarked old))
      (mark_all (λ r. not (is_local_specified r)) same_random new)

abbrev pub left_over_of : Option Marked → List Remote
left_over_of none = []
left_over_of (some ms) = left_over ms

unfoldable pub get_tunnels_to_reestablish : List Remote → List Remote → List Remote
unfolding mark_all left_over
get_tunnels_to_reestablish old new =
    if ltb (length old) (length new) then [] else left_over_of (both_loops old new)

unfoldable free : Marked → ℕ
free [] = 0
free (m ∷ ms) = (if m.0 then 0 else 1) + free ms

unfoldable count : (Remote → Bool) → List Remote → ℕ
count test [] = 0
count test (r ∷ rs) = (if test r then 1 else 0) + count test rs

free-mark_first :
    (test : Remote → Bool) (ms ms' : Marked)
    → mark_first test ms ≡ some ms'
    → free ms' + 1 ≡ free ms
unfolding mark_first free
free-mark_first test [] ms' marked = absurd (ground arith)
free-mark_first test (m ∷ ms) ms' marked = elim (Option-cases (mark_first test ms)) [
  | inl stuck ↦ ground arith
  | inr (later, found) ↦ ground (arith, free-mark_first test ms later found)
]

free-mark_all :
    (mine : Remote → Bool) (same : Remote → Remote → Bool) (news : List Remote) (ms ms' : Marked)
    → mark_all mine same news ms ≡ some ms'
    → free ms' + count mine news ≡ free ms
unfolding mark_all count
free-mark_all mine same [] ms ms' marked = ground arith
free-mark_all mine same (n ∷ news) ms ms' marked = elim (Bool-cases (mine n)) [
  | inl is_mine ↦ elim (Option-cases (mark_first (same n) ms)) [
    | inl stuck ↦ absurd (ground arith)
    | inr (next, found) ↦
        ground
          (arith, free-mark_first (same n) ms next found, free-mark_all mine same news next ms')
  ]
  | inr not_mine ↦ ground (arith, free-mark_all mine same news ms ms')
]

count-not :
    (test : Remote → Bool) (rs : List Remote)
    → count test rs + count (λ r. not (test r)) rs ≡ length rs
unfolding count
count-not test [] = refl
count-not test (r ∷ rs) = ground (arith, count-not test rs)

length-left_over : (ms : Marked) → length (left_over ms) ≡ free ms
unfolding left_over free
length-left_over [] = refl
length-left_over (m ∷ ms) = ground (arith, length-left_over ms)

free-unmarked : (rs : List Remote) → free (unmarked rs) ≡ length rs
unfolding free
free-unmarked [] = refl
free-unmarked (r ∷ rs) = ground (arith, free-unmarked rs)

length-both_loops :
    (old new : List Remote) (ms : Marked)
    → both_loops old new ≡ some ms
    → length (left_over ms) + length new ≡ length old
length-both_loops old new ms marked =
    elim (Option-cases (mark_all is_local_specified same_local new (unmarked old))) [
      | inl stuck ↦ absurd (ground (arith, stuck))
      | inr (between, half) ↦ ground (
        arith,
        free-mark_all is_local_specified same_local new (unmarked old) between half,
        free-mark_all (λ r. not (is_local_specified r)) same_random new between ms,
        count-not is_local_specified new,
        length-left_over ms,
        free-unmarked old,
      )
    ]

-- Either nothing is re-established, or the re-established tunnels and the new ones together are as
-- many as the old ones.
pub length-get_tunnels_to_reestablish :
    (old new : List Remote)
    → (get_tunnels_to_reestablish old new ≡ [])
      ⊎ (length (get_tunnels_to_reestablish old new) + length new ≡ length old)
unfolding get_tunnels_to_reestablish
length-get_tunnels_to_reestablish old new = elim (Option-cases (both_loops old new)) [
  | inl stuck ↦ inl (ground (arith, stuck))
  | inr (ms, marked) ↦ elim (Bool-cases (ltb (length old) (length new))) [
    | inl fewer ↦ inl (ground arith)
    | inr enough ↦ inr (ground (arith, length-both_loops old new ms marked))
  ]
]
