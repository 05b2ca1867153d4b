-- ===== src/Clients/Refusal.antt =====
-- server/client_service.go: connections that `StartClient` refuses.
use rport.Prelude.{
  ℕ, String, Bool, true, false, not, ◌&&◌, ◌||◌, ◌≡◌, refl, ap, sym, ◌∙◌, ◌⊎◌, inl, inr, Option,
  none, some, List, [], ◌∷◌, str_eq, eq_iff, arith, Bool-cases, is_none, if◌then◌else◌,
}
use rport.Dict.{lookup}
use rport.Clients.Model.{Client, is_connected, obsolete}
use rport.Clients.Obsolete.{obsolete-is_connected}
use rport.Result.{Result, err, refuse_if}
use rport.Exec.{continue, lift, ◌>>◌}
use rport.Ports.{MapSet}
use rport.Clients.Acl.{Net}
use rport.Clients.Repository.{
  ClientProvider, ClientRepository, Error, values, filter, unless, get_all,
  get_all_by_client_auth_id, get_by_id, client_id_in_use, client_auth_id_in_use,
}
use rport.Clients.Service.{other_id, is_client_auth_id_in_use}
use rport.Clients.Start.{
  Strconv, Env, ConnectionRequest, ClientService, connect, host_of, old_in_use, start_client,
}

-- One of the clients of a list.
abbrev pub IsOneOf : Client → List Client → Type 0
IsOneOf c [] = ⊥
IsOneOf c (d ∷ ds) = (c ≡ d) ⊎ IsOneOf c ds

kept_by :
    (test : Client → Bool) (c : Client) (cs : List Client)
    → test c ≡ true
    → IsOneOf c cs
    → IsOneOf c (filter test cs)
kept_by test c [] passes missing = absurd missing
kept_by test c (d ∷ ds) passes (inl same) = rw (ap test (sym same) ∙ passes) (inl same)
kept_by test c (d ∷ ds) passes (inr later) = elim (Bool-cases (test d)) [
  | inl also ↦ rw also (inr (kept_by test c ds passes later))
  | inr dropped ↦ rw dropped (kept_by test c ds passes later)
]

differs : (a b : String) → ¬ (a ≡ b) → str_eq a b ≡ false
differs a b other = elim (Bool-cases (str_eq a b)) [
  | inl same ↦ absurd (other ((eq_iff a b).0 same))
  | inr apart ↦ apart
]

found_other :
    (p : ClientProvider) (client_id : String) (c : Client) (cs : List Client)
    → str_eq c.id client_id ≡ false
    → IsOneOf c cs
    → other_id p client_id cs ≡ true
found_other p client_id c [] other missing = absurd missing
found_other p client_id c (d ∷ ds) other (inl same) =
    ground (arith, ap (λ (x : Client). str_eq x.id client_id) same, other)
found_other p client_id c (d ∷ ds) other (inr later) =
    ground (arith, found_other p client_id c ds other later)

connected-obsolete :
    (keep : Option ℕ) (now : ℕ) (c : Client) → is_connected c ≡ true → obsolete keep now c ≡ false
connected-obsolete keep now c open_ = elim (Bool-cases (obsolete keep now c)) [
  | inl lost ↦ absurd (ground (arith, obsolete-is_connected keep now c lost, open_))
  | inr current ↦ current
]

module _ (p : ClientProvider) (s : MapSet) (net : Net) (conv : Strconv) where
  refused_lem :
      (first : Bool) (second : ClientService p s net conv → Bool) (e e' : Error)
      (host : Result Error String) (sv : ClientService p s net conv)
      → (first || second sv) ≡ true
      → (why : Error) × ((lift (refuse_if first e)
              >> ((λ sv. (refuse_if (second sv) e', sv)) >> lift host))
            sv
          ≡ (err why, sv))
  refused_lem true second e e' host sv refused = (e, refl)
  refused_lem false second e e' host sv refused =
      (e', ap (λ b. (lift (refuse_if b e') >> lift host) sv) refused)

  stopped_lem :
      (env : Env s) (client_auth_id client_id : String) (multiuse : Bool) (req : ConnectionRequest)
      (sv : ClientService p s net conv)
      → (old_in_use p s net conv (get_by_id p env.now client_id sv.repo)
          || (not multiuse && is_client_auth_id_in_use p env.now client_auth_id client_id sv.repo))
        ≡ true
      → (why : Error) × (start_client p s net conv env client_auth_id client_id multiuse req sv
          ≡ (err why, sv))
  unfolding start_client
  stopped_lem env client_auth_id client_id multiuse req sv refused =
      let old = get_by_id p env.now client_id sv.repo in
      let (why, stopped) =
        refused_lem (old_in_use p s net conv old)
          (λ sv.
            not multiuse && is_client_auth_id_in_use p env.now client_auth_id client_id sv.repo)
          (client_id_in_use client_id) (client_auth_id_in_use client_auth_id)
          (host_of p s net conv env.client_host) sv refused in
      (
        why,
        ap (λ x. continue x.0 (connect p s net conv env client_auth_id client_id req old) x.1)
            stopped,
      )

  -- The repository's entry for the id is a client that has not disconnected.
  pub record IsConnectedAs (client_id : String) (r : ClientRepository p) (c : Client) : Type 0 where
    pub entry : lookup client_id r.clients ≡ some c
    pub connected : c.disconnected_at ≡ none

  -- A client of another id came by the same auth id, and is not obsolete.
  pub record IsRival (now : ℕ) (client_auth_id client_id : String) (r : ClientRepository p)
      (c : Client) : Type 0 where
    pub kept : IsOneOf c (values r.clients)
    pub current : obsolete r.keep_lost_clients now c ≡ false
    pub same_auth_id : c.client_auth_id ≡ client_auth_id
    pub another : ¬ (c.id ≡ client_id)

  connected_in_use :
      (now : ℕ) (client_id : String) (r : ClientRepository p) (c : Client)
      → IsConnectedAs client_id r c
      → old_in_use p s net conv (get_by_id p now client_id r) ≡ true
  unfolding get_by_id
  connected_in_use now client_id r c known =
      let open_ : is_connected c ≡ true = ap is_none known.connected in
      let current : obsolete r.keep_lost_clients now c ≡ false =
        connected-obsolete r.keep_lost_clients now c open_ in
      ap (λ o. old_in_use p s net conv (unless (obsolete r.keep_lost_clients now) o)) known.entry
      ∙ ap (λ b. old_in_use p s net conv (if b then none else some c)) current
      ∙ open_

  rival_in_use :
      (now : ℕ) (client_auth_id client_id : String) (r : ClientRepository p) (c : Client)
      → IsRival now client_auth_id client_id r c
      → is_client_auth_id_in_use p now client_auth_id client_id r ≡ true
  unfolding is_client_auth_id_in_use get_all_by_client_auth_id get_all
  rival_in_use now client_auth_id client_id r c rival =
      found_other p client_id c _ (differs c.id client_id rival.another) (
        kept_by _ c _ ((eq_iff c.client_auth_id client_auth_id).1 rival.same_auth_id)
          (kept_by _ c (values r.clients) (ap not rival.current) rival.kept))

  -- Where the repository's entry for the id is a client that has not disconnected, or auth ids are for
  -- one client only and a client of another id with that auth id is not obsolete, `StartClient` fails
  -- and changes nothing.
  pub start_client_refused :
      (env : Env s) (client_auth_id client_id : String) (multiuse : Bool) (req : ConnectionRequest)
      (sv : ClientService p s net conv) (c : Client)
      → IsConnectedAs client_id sv.repo c
        ⊎ ((multiuse ≡ false) × IsRival env.now client_auth_id client_id sv.repo c)
      → (why : Error) × (start_client p s net conv env client_auth_id client_id multiuse req sv
          ≡ (err why, sv))
  start_client_refused env client_auth_id client_id multiuse req sv c (inl known) =
      stopped_lem env client_auth_id client_id multiuse req sv
        (ground (arith, connected_in_use env.now client_id sv.repo c known))
  start_client_refused env client_auth_id client_id multiuse req sv c (inr (single, rival)) =
      stopped_lem env client_auth_id client_id multiuse req sv
        (ground (arith, single, rival_in_use env.now client_auth_id client_id sv.repo c rival))
