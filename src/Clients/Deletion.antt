-- ===== src/Clients/Deletion.antt =====
-- server/client_service.go: a client that was deleted does not come back when its connection ends.
use rport.Prelude.{
  ℕ, String, Bool, true, false, Option, none, some, [], ◌∷◌, ◌≡◌, refl, arith, either, ◌∙◌, is_none,
}
use rport.Result.{Result}
use rport.Exec.{◌>>◌}
use rport.Dict.{Dict, lookup, remove, lookup-remove}
use rport.Clients.Model.{Client}
use rport.Clients.Repository.{
  ClientProvider, Error, ClientRepository, get_by_id, assign, delete, delete_failed, stored,
  change_clients,
}
use rport.Clients.Service.{terminate, save_if_known, disconnect}

lookup-assign :
    (object : ℕ) (f : Client → Client) (key : String) (d : Dict Client)
    → lookup key d ≡ none
    → lookup key (assign object f d) ≡ none
unfolding lookup assign
lookup-assign object f key [] missing = refl
lookup-assign object f key (e ∷ es) missing = ground (arith, lookup-assign object f key es)

module _ (p : ClientProvider) (c : Client) where
  delete_lem :
      (answer : Bool × p.Store) (r : ClientRepository p)
      → lookup c.id r.clients ≡ none
      → lookup c.id
          ((stored p delete_failed (λ st. answer) >> change_clients p (remove c.id)) r).1.clients
        ≡ none
  delete_lem (true, st) r missing = lookup-remove c.id c.id r.clients ∙ ground (arith, missing)
  delete_lem (false, st) r missing = missing

  unknown_lem :
      (c' : Client) (o : Option Client) (r : ClientRepository p)
      → o ≡ none
      → lookup c.id r.clients ≡ none
      → lookup c.id (save_if_known p c' o r).1.clients ≡ none
  unknown_lem c' none r unseen missing = missing
  unknown_lem c' (some existing) r unseen missing = absurd (ground (arith, unseen))

  -- Where the repository has no client under an id any more, `Terminate` of a connection with that id
  -- leaves none there, whether lost clients are kept or not, and whatever the provider answers.
  pub terminate_deleted :
      (now later : ℕ) (r : ClientRepository p)
      → lookup c.id r.clients ≡ none
      → lookup c.id (terminate p now later c r).1.clients ≡ none
  unfolding terminate delete get_by_id
  terminate_deleted now later r missing =
      let r' : ClientRepository p = record r {
        clients = assign c.object (disconnect p now) r.clients;
      } in
      let missing' = lookup-assign c.object (disconnect p now) c.id r.clients missing in
      let unseen : get_by_id p later c.id r' ≡ none = rw missing' refl in
      either {A = Result Error (Unit {0}) × ClientRepository p}
        (λ x. lookup c.id x.1.clients ≡ none) (is_none r.keep_lost_clients) _ _
        (delete_lem (p.delete c.id r.store) r missing)
        (unknown_lem (disconnect p now c) (get_by_id p later c.id r') r' unseen missing')
