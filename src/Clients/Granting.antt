-- ===== src/Clients/Granting.antt =====
-- server/client_service.go: what `SetACL` leaves for `CheckClientAccess`.
use rport.Prelude.{
  ℕ, String, Bool, true, false, Option, none, some, List, ◌≡◌, refl, arith, sym, ap, ◌∙◌, str_eq,
  if◌then◌else◌,
}
use rport.Result.{value_or, ok, is_ok, refuse_if, and_then}
use rport.Exec.{bind_ok, reads}
use rport.Dict.{lookup, lookup-insert}
use rport.Clients.Model.{Client}
use rport.Clients.Repository.{
  ClientProvider, ClientRepository, get_by_id, save, save_failed, stored, client_id_empty,
}
use rport.Clients.Service.{get_existing_by_id, existing_of, set_acl, with_acl, assign_to}

abbrev or_else : Client → Option Client → Client
or_else d none = d
or_else d (some c) = c

existing_lem :
    (id : String) (empty : Bool) (o : Option Client) (c existing : Client)
    → o ≡ some c
    → and_then (refuse_if empty client_id_empty) (λ u. existing_of id o) ≡ ok existing
    → existing ≡ c
existing_lem id true o c existing found got = absurd (ground (arith, ap is_ok got))
existing_lem id false none c existing found got = absurd (ground (arith, found))
existing_lem id false (some d) c existing found got =
    sym (ap (value_or d) got) ∙ ap (or_else d) found

module _ (p : ClientProvider) where
  saved_other :
      (c : Client) (id : String) (r r' : ClientRepository p)
      → save p c r ≡ (ok tt, r')
      → (lookup id r'.clients ≡ (if str_eq c.id id then some c else lookup id r.clients))
  unfolding save
  saved_other c id r r' done =
      let (u, kept, changed) = bind_ok (stored p save_failed (p.save c)) _ r r' tt done in
      sym (ap (λ x. lookup id x.1.clients) changed) ∙ lookup-insert c.id id c r.clients

  -- Where the repository has a client under its own id and it is not obsolete, a `SetACL` that
  -- succeeds leaves that client there with exactly the given groups and otherwise as it was.
  pub lookup-set_acl :
      (now : ℕ) (id : String) (groups : List String) (c : Client) (r r' : ClientRepository p)
      → get_by_id p now id r ≡ some c
      → str_eq c.id id ≡ true
      → set_acl p now id groups r ≡ (ok tt, r')
      → lookup id r'.clients ≡ some (with_acl p groups c)
  unfolding set_acl get_existing_by_id
  lookup-set_acl now id groups c r r' found own done =
      let (existing, got, step) = bind_ok (reads (get_existing_by_id p now id)) _ r r' tt done in
      let (u, assigned, step') =
        bind_ok (assign_to p existing (with_acl p groups))
          (λ u. save p (with_acl p groups existing)) r r' tt step in
      let same : existing ≡ c =
        existing_lem id (str_eq id "") (get_by_id p now id r) c existing found got in
      saved_other (with_acl p groups existing) id (assign_to p existing (with_acl p groups) r).1 r'
        step'
      ∙ rw (same, own) refl
