-- ===== src/ClientAuth/Unbound.antt =====
-- server/api.go, `handleDeleteClientAuth`: nothing is left of the credentials.
use rport.Prelude.{
  ℕ, String, Bool, true, false, not, ◌&&◌, ◌||◌, Option, none, List, [], ◌∷◌, ◌≡◌, refl, arith,
  str_eq, eq_iff, ap, sym, ◌∙◌, is_empty, is_none,
}
use rport.Result.{Result, ok, err, refuse_if, is_ok, value_or}
use rport.Exec.{bind_ok, lift, reads}
use rport.Dict.{Dict, lookup, remove, lookup-remove}
use rport.Clients.Model.{Client, obsolete, is_connected}
use rport.Clients.Repository.{
  ClientProvider, ClientRepository, get_all_by_client_auth_id, get_all, filter, values, stored,
  change_clients, delete_failed, close_failed,
}
use rport.Clients.Repository
use rport.Clients.Service.{force_delete}
use rport.ClientAuth.Model.{Provider}
use rport.ClientAuth.Cache.{get, delete, in_provider, change}
use rport.ClientAuth.Handlers.{
  Server, bad_request, not_found, conflict, internal, allow_client_auth_write, force_of, on_clients,
  on_auths, force_delete_all, delete_bound, handle_delete_client_auth,
}

abbrev has_id : String → List Client → Bool
has_id id [] = false
has_id id (c ∷ cs) = str_eq c.id id || has_id id cs

-- Every client of the map that passes the test stands under the id of one of the list.
abbrev covered : (Client → Bool) → List Client → Dict Client → Bool
covered test cs [] = true
covered test cs (e ∷ es) = (not (test e.1) || has_id e.0 cs) && covered test cs es

-- Every client of a repository stands under its own id.
abbrev pub is_keyed : Dict Client → Bool
is_keyed [] = true
is_keyed (e ∷ es) = str_eq e.1.id e.0 && is_keyed es

covered_more :
    (test : Client → Bool) (c : Client) (cs : List Client) (d : Dict Client)
    → covered test cs d ≡ true
    → covered test (c ∷ cs) d ≡ true
covered_more test c cs [] all = refl
covered_more test c cs (e ∷ es) all = ground (arith, covered_more test c cs es)

covered_at_first :
    (test : Client → Bool) (d : Dict Client)
    → is_keyed d ≡ true
    → covered test (filter test (values d)) d ≡ true
covered_at_first test [] keyed = refl
covered_at_first test (e ∷ es) keyed =
    ground (arith, covered_at_first test es, covered_more test e.1 (filter test (values es)) es)

covered-remove :
    (test : Client → Bool) (c : Client) (cs : List Client) (d : Dict Client)
    → covered test (c ∷ cs) d ≡ true
    → covered test cs (remove c.id d) ≡ true
unfolding remove
covered-remove test c cs [] all = refl
covered-remove test c cs (e ∷ es) all =
    ground (arith, covered-remove test c cs es, eq_iff e.0 c.id, eq_iff c.id e.0)

none_covered :
    (test : Client → Bool) (d : Dict Client)
    → covered test [] d ≡ true
    → filter test (values d) ≡ []
none_covered test [] all = refl
none_covered test (e ∷ es) all = ground (arith, none_covered test es)

filter-filter :
    (f g : Client → Bool) (l : List Client) → filter f (filter g l) ≡ filter (λ c. g c && f c) l
filter-filter f g [] = refl
filter-filter f g (c ∷ cs) = ground (arith, filter-filter f g cs)

internal_ok : {E A : Type 0} (r : Result E A) (a : A) → internal r ≡ ok a → r ≡ ok a
internal_ok (ok b) a same = ground (arith, same)
internal_ok (err e) a same = absurd (ground (arith, ap is_ok same))

module _ (cp : ClientProvider) where
  -- What a deletion leaves of the repository.
  abbrev Removed : String → ClientRepository cp → ClientRepository cp → Type 0
  Removed id r r' =
      (r'.clients ≡ remove id r.clients) × (r'.keep_lost_clients ≡ r.keep_lost_clients)

  force_delete_lem :
      (close_fails : Bool) (c : Client) (r r' : ClientRepository cp)
      → force_delete cp close_fails c r ≡ (ok tt, r')
      → Removed c.id r r'
  unfolding force_delete Repository.delete
  force_delete_lem close_fails c r r' done =
      let (u, closed, step) =
        bind_ok (lift (refuse_if (is_connected c && close_fails) close_failed))
          (λ _. Repository.delete cp c) r r' tt done in
      let (v, kept, last) =
        bind_ok (stored cp delete_failed (cp.delete c.id)) (λ _. change_clients cp (remove c.id)) r
          r' tt step in
      (ap (λ x. x.1.clients) (sym last), ap (λ x. x.1.keep_lost_clients) (sym last))

  -- The clients that are counted as bound to the credentials.
  abbrev bound : ℕ → String → Option ℕ → Client → Bool
  bound now id keep c = not (obsolete keep now c) && str_eq c.client_auth_id id

  bound_lem :
      (now : ℕ) (id : String) (r : ClientRepository cp)
      → get_all_by_client_auth_id cp now id r
        ≡ filter (bound now id r.keep_lost_clients) (values r.clients)
  unfolding get_all_by_client_auth_id get_all
  bound_lem now id r =
      filter-filter (λ c. str_eq c.client_auth_id id)
        (λ c. not (obsolete r.keep_lost_clients now c)) (values r.clients)

  module _ (p : Provider) where
    cleared :
        (now : ℕ) (id : String) (closes : Client → Bool) (cs : List Client) (s s' : Server p cp)
        → covered (bound now id s.repo.keep_lost_clients) cs s.repo.clients ≡ true
        → force_delete_all p cp closes cs s ≡ (ok tt, s')
        → get_all_by_client_auth_id cp now id s'.repo ≡ []
    cleared now id closes [] s s' all done =
        ap (λ x. get_all_by_client_auth_id cp now id x.1.repo) (sym done)
        ∙ bound_lem now id s.repo
        ∙ none_covered (bound now id s.repo.keep_lost_clients) s.repo.clients all
    cleared now id closes (c ∷ cs) s s' all done =
        let m = force_delete cp (closes c) c in
        let (u, deleted, step) =
          bind_ok (on_clients p cp m) (λ _. force_delete_all p cp closes cs) s s' tt done in
        let (same, keep) =
          force_delete_lem (closes c) c s.repo (m s.repo).1
            (ap (λ x. (x, (m s.repo).1)) (internal_ok (m s.repo).0 tt deleted)) in
        cleared now id closes cs (on_clients p cp m s).1 s'
          (rw keep (
            rw same
              (covered-remove (bound now id s.repo.keep_lost_clients) c cs s.repo.clients all)))
          step

    auth_deleted :
        (env : p.Env) (id : String) (s s' : Server p cp)
        → on_auths p cp (delete p env id) s ≡ (ok tt, s')
        → (get p id s'.auths ≡ none) × (s'.repo ≡ s.repo)
    unfolding delete
    auth_deleted env id s s' done =
        let a = s.auths in
        let whole = internal_ok (delete p env id a).0 tt (ap (λ x. x.0) done) in
        let (u, gone, last) =
          bind_ok (in_provider p (p.delete env id)) (λ _. change p (remove id)) a
            (delete p env id a).1 tt (ap (λ x. (x, (delete p env id a).1)) whole) in
        (
          ap (λ x. lookup id x.1.auths.clients) (sym done)
              ∙ ap (λ x. lookup id x.1.clients) (sym last)
              ∙ lookup-remove id id a.clients
              ∙ ground (arith, eq_iff id id),
          ap (λ x. x.1.repo) (sym done),
        )

    covered-bound :
        (now : ℕ) (id : String) (s : Server p cp) (cs : List Client)
        → is_keyed s.repo.clients ≡ true
        → get_all_by_client_auth_id cp now id s.repo ≡ cs
        → covered (bound now id s.repo.keep_lost_clients) cs s.repo.clients ≡ true
    covered-bound now id s cs keyed listed =
        ap (λ x. covered (bound now id s.repo.keep_lost_clients) x s.repo.clients)
          (sym listed ∙ bound_lem now id s.repo)
        ∙ covered_at_first (bound now id s.repo.keep_lost_clients) s.repo.clients keyed

    delete_bound_lem :
        (env : p.Env) (now : ℕ) (closes : Client → Bool) (id : String) (force : Bool)
        (cs : List Client) (s s' : Server p cp)
        → is_keyed s.repo.clients ≡ true
        → get_all_by_client_auth_id cp now id s.repo ≡ cs
        → delete_bound p cp env closes id force cs s ≡ (ok tt, s')
        → (get p id s'.auths ≡ none) × (get_all_by_client_auth_id cp now id s'.repo ≡ [])
    delete_bound_lem env now closes id force cs s s' keyed listed done =
        let (u, allowed, step) =
          bind_ok (lift (refuse_if (not force && not (is_empty cs)) conflict)) _ s s' tt done in
        let (v, deleted, last) =
          bind_ok (force_delete_all p cp closes cs) (λ _. on_auths p cp (delete p env id)) s s' tt
            step in
        let s1 = (force_delete_all p cp closes cs s).1 in
        let (gone, same) = auth_deleted env id s1 s' last in
        (
          gone,
          ap (get_all_by_client_auth_id cp now id) same
              ∙ cleared now id closes cs s s1 (covered-bound now id s cs keyed listed)
                  (ap (λ x. (x, s1)) deleted),
        )

-- After credentials were deleted, forced or not, the provider knows their id no more, and no client of
-- the repository that is not obsolete at that time is bound to them, if every client stood under its
-- own id.
pub handle_delete_client_auth_lem :
    (p : Provider) (cp : ClientProvider) (env : p.Env) (now : ℕ) (closes : Client → Bool)
    (parse_bool : String → Option Bool) (auth_write : Bool) (id force_str : String)
    (s s' : Server p cp)
    → is_keyed s.repo.clients ≡ true
    → handle_delete_client_auth p cp env now closes parse_bool auth_write id force_str s
      ≡ (ok tt, s')
    → (get p id s'.auths ≡ none) × (get_all_by_client_auth_id cp now id s'.repo ≡ [])
unfolding handle_delete_client_auth
handle_delete_client_auth_lem p cp env now closes parse_bool auth_write id force_str s s' keyed
      done =
    let (u1, allowed, d1) =
      bind_ok (lift (allow_client_auth_write p cp auth_write)) _ s s' tt done in
    let (u2, has_name, d2) = bind_ok (lift (refuse_if (str_eq id "") bad_request)) _ s s' tt d1 in
    let (force, forced, d3) = bind_ok (lift (force_of parse_bool force_str)) _ s s' tt d2 in
    let (u4, known, d4) =
      bind_ok (reads (λ s. refuse_if (is_none (get p id s.auths)) not_found)) _ s s' tt d3 in
    let (cs, listed, d5) =
      bind_ok (reads (λ s. ok (get_all_by_client_auth_id cp now id s.repo)))
        (λ cs. delete_bound p cp env closes id force cs) s s' tt d4 in
    delete_bound_lem cp p env now closes id force cs s s' keyed (ap (value_or []) listed) d5
