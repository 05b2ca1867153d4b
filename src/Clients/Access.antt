-- ===== src/Clients/Access.antt =====
-- server/client_service.go, `CheckClientsAccess`, against what it is for.
use rport.Prelude.{
  String, true, false, List, [], ◌∷◌, ◌≡◌, refl, arith, inl, inr, ◌⊎◌, ◌↔◌, All, All-map,
  Bool-cases, eq_iff,
}
use rport.Result.{ok}
use rport.Users.Model.{User, entries, has, is_admin, administrators}
use rport.Clients.Model.{Client, has_access}
use rport.Clients.Service.{check_clients_access, no_access, denied}

-- Some group of the list may use the client.
pub record IsShared (groups : List String) (c : Client) : Type 0 where
  pub group : String
  pub is_member : has group groups ≡ true
  pub is_allowed : has group c.allowed_user_groups ≡ true

of_tail : (g : String) (gs : List String) (c : Client) → IsShared gs c → IsShared (g ∷ gs) c
of_tail g gs c shared = record {
  group = shared.group;
  is_member = ground (arith, shared.is_member);
  is_allowed = shared.is_allowed;
}

has_access-IsShared :
    (c : Client) (groups : List String)
    → has administrators groups ≡ false
    → has_access c groups ≡ true
    → IsShared groups c
unfolding has_access
has_access-IsShared c [] plain access = absurd (ground arith)
has_access-IsShared c (g ∷ gs) plain access = elim (Bool-cases (has g c.allowed_user_groups)) [
  | inl allowed ↦ record { group = g; is_member = ground (arith, eq_iff g g); is_allowed = allowed }
  | inr other ↦ of_tail g gs c (has_access-IsShared c gs (ground arith) (ground arith))
]

access_of :
    (c : Client) (groups : List String) (g : String)
    → has g groups ≡ true
    → has g c.allowed_user_groups ≡ true
    → has_access c groups ≡ true
unfolding has_access
access_of c [] g member allowed = absurd (ground arith)
access_of c (h ∷ gs) g member allowed = ground (arith, eq_iff h g, access_of c gs g)

refused_none :
    (groups : List String) (cs : List Client)
    → no_access groups cs ≡ []
    → All (λ c. has_access c groups ≡ true) cs
refused_none groups [] none_refused = tt
refused_none groups (c ∷ cs) none_refused = elim (Bool-cases (has_access c groups)) [
  | inl access ↦ (access, refused_none groups cs (ground arith))
  | inr refused ↦ absurd (ground arith)
]

none_refused_of :
    (groups : List String) (cs : List Client)
    → All (λ c. has_access c groups ≡ true) cs
    → no_access groups cs ≡ []
none_refused_of groups [] access = refl
none_refused_of groups (c ∷ cs) (a, access) = ground (arith, none_refused_of groups cs access)

denied_ok : (ids : List String) → denied ids ≡ ok tt → ids ≡ []
denied_ok [] passed = refl
denied_ok (id ∷ ids) passed = absurd (ground arith)

-- `CheckClientsAccess` lets a user pass exactly when the user is an administrator or every one of
-- the clients allows a group that the user is in.
pub check_clients_access_iff :
    (clients : List Client) (user : User)
    → (check_clients_access clients user ≡ ok tt)
      ↔ ((is_admin user ≡ true) ⊎ All (IsShared (entries user.groups)) clients)
unfolding check_clients_access is_admin
check_clients_access_iff clients user =
    let groups = entries user.groups in
    (
      λ passed. elim (Bool-cases (has administrators groups)) [
        | inl admin ↦ inl admin
        | inr plain ↦ inr (
            All-map (λ c. has_access c groups ≡ true) (IsShared groups) clients
              (λ c access. has_access-IsShared c groups plain access)
              (refused_none groups clients (denied_ok (no_access groups clients) (ground arith))))
      ],
      λ why. elim why [
        | inl admin ↦ ground arith
        | inr shared ↦ ground (
          arith,
          none_refused_of groups clients (
              All-map (IsShared groups) (λ c. has_access c groups ≡ true) clients
                (λ c s. access_of c groups s.group s.is_member s.is_allowed) shared),
        )
      ],
    )
