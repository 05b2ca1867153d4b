-- ===== src/Clients/Lifecycle.antt =====
-- server/client_service.go: what a client is after it connected, and after it is gone.
use rport.Prelude.{
  ℕ, String, Bool, Option, none, some, List, [], ◌∷◌, ◌++◌, ◌≡◌, refl, arith, either, eq_iff, sym,
  ap, ◌∙◌,
}
use rport.Result.{value_or, Result, ok, err, is_ok}
use rport.Dict.{lookup, lookup-insert}
use rport.Remote.{Remote, is_local_specified}
use rport.Ports.{MapSet, PortDistributor, refresh, get_random_port}
use rport.Clients.Acl.{Net}
use rport.Clients.Model.{Client, Tunnel, find_tunnel_by_remote}
use rport.Clients.Repository.{ClientProvider, Error, save, stored, save_failed, ClientRepository}
use rport.Exec.{continue, bind_ok, lift, reads, pure, ◌>>=◌}
use rport.Clients.Start.{
  Step, with_tunnels, begin, connect, look, admit, keep_started, on_repo, new_client, old_remotes,
  start_unless, use_port, check_local_port, check_acl, put_ports, refresh_ports, Strconv, Env,
  ConnectionRequest, ClientService, Starting, choose_port, start_tunnel, start_one, start_all,
  start_client_tunnels, start_client,
}

-- What starting a tunnel leaves alone.
abbrev core : Client → String × Option ℕ × String × List String
core c = (c.id, c.disconnected_at, c.client_auth_id, c.allowed_user_groups)

module _ (p : ClientProvider) (s : MapSet) (net : Net) (conv : Strconv) where
  abbrev Keeps : {A : Type 0} → Step p s net conv A → Type 0
  Keeps m = (st : Starting p s net conv) → core (m st).1.client ≡ core st.client

  continue-Keeps :
      {A B : Type 0} (f : A → Step p s net conv B) (r : Result Error A) (c : Client)
      (st : Starting p s net conv)
      → ((a : A) → Keeps (f a))
      → core st.client ≡ core c
      → core (continue r f st).1.client ≡ core c
  continue-Keeps f (ok a) c st keeps same = keeps a st ∙ same
  continue-Keeps f (err e) c st keeps same = same

  bind-Keeps :
      {A B : Type 0} (m : Step p s net conv A) (f : A → Step p s net conv B)
      → Keeps m
      → ((a : A) → Keeps (f a))
      → Keeps (m >>= f)
  bind-Keeps m f first rest st = continue-Keeps f (m st).0 st.client (m st).1 rest (first st)

  module _ (env : Env s) where
    core-start_unless :
        (r : Remote) (o : Option Tunnel) (c : Client)
        → core (start_unless p s net conv env r o c).1 ≡ core c
    core-start_unless r none c =
        either {A = Result Error Tunnel × Client} (λ x. core x.1 ≡ core c) (env.listens r) _ _ refl
          refl
    core-start_unless r (some t) c = refl

    use_port-Keeps :
        (r : Remote) (o : Option (ℕ × PortDistributor s)) → Keeps (use_port p s net conv r o)
    use_port-Keeps r none st = refl
    use_port-Keeps r (some (n, d)) st = refl

    choose_port-Keeps : (r : Remote) → Keeps (choose_port p s net conv env r)
    unfolding choose_port
    choose_port-Keeps r st =
        either {A = Step p s net conv Remote} (λ m. core (m st).1.client ≡ core st.client)
          (is_local_specified r) _ _
          (bind-Keeps (reads (λ st. check_local_port p s net conv r.local_port st.ports))
            (λ x. pure r) (λ st. refl) (λ x st. refl) st)
          (use_port-Keeps r (get_random_port s env.busy st.ports) st)

    start_one-Keeps : (r : Remote) → Keeps (start_one p s net conv env r)
    unfolding start_one start_tunnel
    start_one-Keeps r =
        bind-Keeps (choose_port p s net conv env r) _ (choose_port-Keeps r) λ chosen.
          bind-Keeps (lift (check_acl p s net conv chosen.acl)) _ (λ st. refl)
            λ x st.
              core-start_unless chosen (find_tunnel_by_remote chosen st.client.tunnels) st.client

    start_all-Keeps : (rs : List Remote) → Keeps (start_all p s net conv env rs)
    unfolding start_all
    start_all-Keeps [] st = refl
    start_all-Keeps (r ∷ rs) st =
        bind-Keeps (start_one p s net conv env r) _ (start_one-Keeps r)
          (λ t. bind-Keeps (start_all p s net conv env rs) _ (start_all-Keeps rs) (λ ts st. refl))
          st

    put_ports-Keeps : (o : Option (PortDistributor s)) → Keeps (put_ports p s net conv o)
    put_ports-Keeps none st = refl
    put_ports-Keeps (some d) st = refl

    start_client_tunnels-Keeps :
        (rs : List Remote) → Keeps (start_client_tunnels p s net conv env rs)
    unfolding start_client_tunnels
    start_client_tunnels-Keeps rs =
        bind-Keeps (refresh_ports p s net conv env) _
          (λ st. put_ports-Keeps (refresh s env.busy st.ports) st) (λ x. start_all-Keeps rs)

  with_tunnels_ok :
      (res : Result Error (List Tunnel)) (st : Starting p s net conv)
      (sv sv' : ClientService p s net conv) (c : Client)
      → with_tunnels p s net conv (res, st) sv ≡ (ok c, sv')
      → c ≡ st.client
  with_tunnels_ok (ok ts) st sv sv' c done = sym (ap (λ x. value_or st.client x.0) done)
  with_tunnels_ok (err e) st sv sv' c done = absurd (ground (arith, ap (λ x. is_ok x.0) done))

  saved :
      (c : Client) (r r' : ClientRepository p)
      → save p c r ≡ (ok tt, r')
      → lookup c.id r'.clients ≡ some c
  unfolding save
  saved c r r' done =
      let (u, stored, changed) = bind_ok (stored p save_failed (p.save c)) _ r r' tt done in
      rw (sym (ap (λ x. x.1.clients) changed))
        (lookup-insert c.id c.id c r.clients ∙ ground (arith, eq_iff c.id c.id))

  module _ (env : Env s) (client_auth_id client_id : String) (req : ConnectionRequest) where
    begin_ok :
        (old : Option Client) (host : String) (sv sv' : ClientService p s net conv) (c : Client)
        → begin p s net conv env client_auth_id client_id req old host sv ≡ (ok c, sv')
        → core c ≡ (client_id, none, client_auth_id, [])
    begin_ok old host sv sv' c done =
        let built = new_client p s net conv env client_auth_id client_id req old host in
        let remotes = req.remotes ++ old_remotes p s net conv old req.remotes in
        let st : Starting p s net conv = record { client = built; ports = sv.port_distributor } in
        let res = start_client_tunnels p s net conv env remotes st in
        ap core (with_tunnels_ok res.0 res.1 sv sv' c done)
        ∙ start_client_tunnels-Keeps env remotes st

    connect_ok :
        (old : Option Client) (host : String) (sv sv' : ClientService p s net conv) (c : Client)
        → connect p s net conv env client_auth_id client_id req old host sv ≡ (ok c, sv')
        → (core c ≡ (client_id, none, client_auth_id, [])) × (lookup c.id sv'.repo.clients ≡ some c)
    connect_ok old host sv sv' c done =
        let start = begin p s net conv env client_auth_id client_id req old host in
        let between = (start sv).1 in
        let (built, started, step) = bind_ok start (keep_started p s net conv) sv sv' c done in
        let (u, stored, last) =
          bind_ok (on_repo p s net conv (save p built)) (λ x. pure built) between sv' c step in
        let after = save p built between.repo in
        let same : built ≡ c = ap (λ x. value_or built x.0) last in
        let found = saved built between.repo after.1 (ap (λ x. (x, after.1)) stored) in
        (
          rw (sym same) (begin_ok old host sv between built (ap (λ x. (x, between)) started)),
          rw (sym same, sym (ap (λ x. x.1.repo.clients) last)) found,
        )

    -- A client whose connection `StartClient` accepted is in the repository under its id, with its
    -- auth id, and is connected. Its list of allowed user groups is empty, whichever groups its
    -- entry of before the connection allowed.
    pub start_client-found :
        (multiuse : Bool) (sv sv' : ClientService p s net conv) (c : Client)
        → start_client p s net conv env client_auth_id client_id multiuse req sv ≡ (ok c, sv')
        → (lookup client_id sv'.repo.clients ≡ some c)
          × (c.disconnected_at ≡ none)
          × (c.client_auth_id ≡ client_auth_id)
          × (c.allowed_user_groups ≡ [])
    unfolding start_client
    start_client-found multiuse sv sv' c done =
        let (old, _, step1) =
          bind_ok (look p s net conv env client_id)
            (λ old.
              admit p s net conv env client_auth_id client_id multiuse old
              >>= connect p s net conv env client_auth_id client_id req old)
            sv sv' c done in
        let (host, _, step2) =
          bind_ok (admit p s net conv env client_auth_id client_id multiuse old)
            (connect p s net conv env client_auth_id client_id req old) sv sv' c step1 in
        let (same, found) =
          connect_ok old host (admit p s net conv env client_auth_id client_id multiuse old sv).1
            sv' c step2 in
        (
          rw (sym (ap (λ x. x.0) same)) found,
          ap (λ x. x.1) same,
          ap (λ x. x.2) same,
          ap (λ x. x.3) same,
        )
