-- ===== src/Clients/Obsolete.antt =====
-- server/clients/cr.go: deleting the obsolete clients changes no answer.
use rport.Prelude.{
  ℕ, String, Bool, true, false, not, Option, none, some, List, [], ◌∷◌, ◌≡◌, refl, arith, inl, inr,
  All, Bool-cases, eq_iff, if◌then◌else◌, sym, ap, is_none,
}
use rport.Result.{value_or, ok, is_ok}
use rport.Exec.{◌>>◌}
use rport.Dict.{Dict, lookup, has_key, has_distinct_keys, lookup_missing}
use rport.Clients.Model.{Client, obsolete, is_connected, lost_for}
use rport.Clients.Repository.{
  ClientProvider, ClientRepository, without_obsolete, obsolete_ones, delete_obsolete, get_by_id,
  get_active_by_id, get_all, unless, filter, values, stored, delete_obsolete_failed, sweep,
}

missing_without :
    (keep : Option ℕ) (now : ℕ) (key : String) (d : Dict Client)
    → has_key key d ≡ false
    → has_key key (without_obsolete keep now d) ≡ false
unfolding without_obsolete
missing_without keep now key [] missing = refl
missing_without keep now key (e ∷ es) missing = ground (arith, missing_without keep now key es)

lookup-without_obsolete :
    (keep : Option ℕ) (now : ℕ) (key : String) (d : Dict Client)
    → has_distinct_keys d ≡ true
    → lookup key (without_obsolete keep now d) ≡ unless (obsolete keep now) (lookup key d)
unfolding without_obsolete lookup
lookup-without_obsolete keep now key [] distinct = refl
lookup-without_obsolete keep now key (e ∷ es) distinct = ground (
  arith,
  lookup-without_obsolete keep now key es,
  eq_iff e.0 key,
  lookup_missing key (without_obsolete keep now es),
  missing_without keep now key es,
)

filter-without_obsolete :
    (keep : Option ℕ) (now : ℕ) (d : Dict Client)
    → filter (λ c. not (obsolete keep now c)) (values (without_obsolete keep now d))
      ≡ filter (λ c. not (obsolete keep now c)) (values d)
unfolding without_obsolete
filter-without_obsolete keep now [] = refl
filter-without_obsolete keep now (e ∷ es) = ground (arith, filter-without_obsolete keep now es)

lost_lem : (keep at : Option ℕ) (now : ℕ) → lost_for keep at now ≡ true → is_none at ≡ false
lost_lem none at now lost = absurd (ground arith)
lost_lem (some keep) none now lost = absurd (ground arith)
lost_lem (some keep) (some t) now lost = refl

pub obsolete-is_connected :
    (keep : Option ℕ) (now : ℕ) (c : Client) → obsolete keep now c ≡ true → is_connected c ≡ false
unfolding obsolete
obsolete-is_connected keep now c lost = lost_lem keep c.disconnected_at now lost

All-cons_if {ℓ κ} :
    {A : Type ℓ} (P : A → Type κ) (b : Bool) (x : A) (xs : List A)
    → (b ≡ true → P x)
    → All P xs
    → All P (if b then x ∷ xs else xs)
All-cons_if P true x xs holds rest = (holds refl, rest)
All-cons_if P false x xs holds rest = rest

obsolete_ones-All :
    (keep : Option ℕ) (now : ℕ) (d : Dict Client)
    → All (λ c. obsolete keep now c ≡ true) (obsolete_ones keep now d)
unfolding obsolete_ones
obsolete_ones-All keep now [] = tt
obsolete_ones-All keep now (e ∷ es) =
    All-cons_if (λ c. obsolete keep now c ≡ true) (obsolete keep now e.1) e.1
      (obsolete_ones keep now es) (λ lost. lost) (obsolete_ones-All keep now es)

unless_twice {ℓ} :
    {A : Type ℓ} (test : A → Bool) (o : Option A) → unless test (unless test o) ≡ unless test o
unless_twice test none = refl
unless_twice test (some a) = elim (Bool-cases (test a)) [
  | inl refused ↦ ground arith
  | inr kept ↦ ground arith
]

unless_lost :
    (keep : Option ℕ) (now : ℕ) (o : Option Client)
    → unless (λ c. not (is_connected c)) (unless (obsolete keep now) o)
      ≡ unless (λ c. not (is_connected c)) o
unless_lost keep now none = refl
unless_lost keep now (some c) = ground (arith, obsolete-is_connected keep now c)

module _ (p : ClientProvider) (now : ℕ) (r r' : ClientRepository p) (deleted : List Client) where
  swept_lem :
      (answer : Bool × p.Store)
      → (stored p delete_obsolete_failed (λ st. answer) >> sweep p now) r ≡ (ok deleted, r')
      → (r'.clients ≡ without_obsolete r.keep_lost_clients now r.clients)
        × (r'.keep_lost_clients ≡ r.keep_lost_clients)
        × (deleted ≡ obsolete_ones r.keep_lost_clients now r.clients)
  swept_lem (true, st) swept = (
    sym (ap (λ x. x.1.clients) swept),
    sym (ap (λ x. x.1.keep_lost_clients) swept),
    sym (ap (λ x. value_or [] x.0) swept),
  )
  swept_lem (false, st) swept = absurd (ground (arith, ap (λ x. is_ok x.0) swept))

module _ (p : ClientProvider) (now : ℕ) (r r' : ClientRepository p) (deleted : List Client)
    (swept : delete_obsolete p now r ≡ (ok deleted, r'))
    (distinct : has_distinct_keys r.clients ≡ true) where
  sweep-clients :
      (r'.clients ≡ without_obsolete r.keep_lost_clients now r.clients)
      × (r'.keep_lost_clients ≡ r.keep_lost_clients)
      × (deleted ≡ obsolete_ones r.keep_lost_clients now r.clients)
  unfolding delete_obsolete
  sweep-clients = swept_lem p now r r' deleted (p.delete_obsolete now r.store) swept

  -- Where the map has one entry for a key, a `DeleteObsolete` that succeeds changes no answer of
  -- `GetByID`, `GetActiveByID` and `GetAll` at that time, and every client that it returns was
  -- obsolete.
  pub answers-delete_obsolete :
      ((id : String) → get_by_id p now id r' ≡ get_by_id p now id r)
      × ((id : String) → get_active_by_id p id r' ≡ get_active_by_id p id r)
      × (get_all p now r' ≡ get_all p now r)
      × All (λ c. obsolete r.keep_lost_clients now c ≡ true) deleted
  unfolding get_by_id get_active_by_id get_all
  answers-delete_obsolete =
      let (clients, keep, found) = sweep-clients in
      (
        λ id.
            rw
              (clients, keep, lookup-without_obsolete r.keep_lost_clients now id r.clients distinct)
              (unless_twice (obsolete r.keep_lost_clients now) (lookup id r.clients)),
        λ id.
            rw (clients, lookup-without_obsolete r.keep_lost_clients now id r.clients distinct)
              (unless_lost r.keep_lost_clients now (lookup id r.clients)),
        rw (clients, keep) (filter-without_obsolete r.keep_lost_clients now r.clients),
        rw found (obsolete_ones-All r.keep_lost_clients now r.clients),
      )
