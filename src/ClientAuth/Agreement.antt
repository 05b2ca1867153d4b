-- ===== src/ClientAuth/Agreement.antt =====
-- server/clientsauth/cache.go over file.go: the cache answers what the file holds.
use rport.Prelude.{
  String, Bool, true, Option, none, some, ◌≡◌, refl, arith, eq_iff, Bool-cases, ◌⊎◌, inl, inr,
  Option-cases,
}
use rport.Result.{Result, ok, err}
use rport.Exec.{continue, pure, ◌>>◌}
use rport.Dict.{Dict, lookup, insert, remove, lookup-insert, lookup-remove}
use rport.ClientAuth.Model.{ClientAuth, Error, write_failed, read_failed}
use rport.ClientAuth.File
use rport.ClientAuth.File.{FileEnv, FileCall, load, write, add_new, file_provider}
use rport.ClientAuth.Cache.{CachedProvider, in_provider, change, add, delete}

-- The credentials that a file says an id has.
abbrev pub entry : String → Option String → Option ClientAuth
entry id none = none
entry id (some password) = some (record { id = id; password = password })

abbrev pub Cached : Type 0
Cached = CachedProvider file_provider

abbrev pub Agrees : Dict ClientAuth → Dict String → Type 0
Agrees clients file = (id : String) → lookup id clients ≡ entry id (lookup id file)

insert-Agrees :
    (client : ClientAuth) (clients : Dict ClientAuth) (file : Dict String)
    → Agrees clients file
    → Agrees (insert client.id client clients) (insert client.id client.password file)
insert-Agrees client clients file agree id = ground (
  arith,
  agree id,
  lookup-insert client.id id client clients,
  lookup-insert client.id id client.password file,
  eq_iff client.id id,
)

remove-Agrees :
    (key : String) (clients : Dict ClientAuth) (file : Dict String)
    → Agrees clients file
    → Agrees (remove key clients) (remove key file)
remove-Agrees key clients file agree id =
    ground (arith, agree id, lookup-remove key id clients, lookup-remove key id file)

-- A write that succeeds, or one that fails before it touches the file.
abbrev pub Leaves : FileEnv → Dict String → Type 0
Leaves env file = (env.write_leaves ≡ none) ⊎ (env.write_leaves ≡ some file)

-- A call that did its work, or failed and left the file.
abbrev Settled : {A : Type 0} → Result Error A × Dict String → Dict String → Dict String → Type 0
Settled {A = A} r wanted file =
    ((a : A) × (r ≡ (ok a, wanted))) ⊎ ((e : Error) × (r ≡ (err e, file)))

write-Settled :
    (env : FileEnv) (wanted file : Dict String)
    → Leaves env file
    → Settled (write env wanted file) wanted file
write-Settled env wanted file (inl writes) = inl (tt, rw writes refl)
write-Settled env wanted file (inr leaves) = inr (write_failed, rw leaves refl)

load_fails :
    (env : FileEnv) (file : Dict String)
    → (load env file ≡ ok file) ⊎ (load env file ≡ err read_failed)
load_fails env file = elim (Bool-cases env.read_fails) [
  | inl fails ↦ inr (rw fails refl)
  | inr reads ↦ inl (rw reads refl)
]

module _ (env : FileEnv) (file : Dict String) (harmless : Leaves env file) where
  read-Settled :
      {A : Type 0} (wanted : Dict String) (k : Dict String → FileCall A)
      (r : Result Error (Dict String))
      → (r ≡ ok file) ⊎ (r ≡ err read_failed)
      → Settled (k file file) wanted file
      → Settled (continue r k file) wanted file
  read-Settled wanted k r (inr fails) settled = inr (read_failed, rw fails refl)
  read-Settled wanted k r (inl read) settled = rw read settled

  added-Settled :
      (client : ClientAuth) (known : Option String)
      → known ≡ none
      → Settled (add_new env client file known file) (insert client.id client.password file) file
  added-Settled client (some p) missing = absurd (ground (arith, missing))
  added-Settled client none missing =
      elim (write-Settled env (insert client.id client.password file) file harmless) [
        | inl (u, done) ↦ inl (true, rw done refl)
        | inr (e, failed) ↦ inr (e, rw failed refl)
      ]

  add-Settled :
      (client : ClientAuth)
      → lookup client.id file ≡ none
      → Settled (File.add env client file) (insert client.id client.password file) file
  unfolding File.add
  add-Settled client missing =
      read-Settled (insert client.id client.password file)
        (λ pairs. add_new env client pairs (lookup client.id pairs)) (load env file)
        (load_fails env file) (added-Settled client (lookup client.id file) missing)

  delete-Settled : (id : String) → Settled (File.delete env id file) (remove id file) file
  unfolding File.delete
  delete-Settled id =
      read-Settled (remove id file) (λ pairs. write env (remove id pairs)) (load env file)
        (load_fails env file) (write-Settled env (remove id file) file harmless)

abbrev pub IsSynced : Cached → Type 0
IsSynced c = Agrees c.clients c.store

module _ (c : Cached) (agree : IsSynced c) where
  after_add :
      (client : ClientAuth) (r : Result Error Bool × Dict String)
      → Settled r (insert client.id client.password c.store) c.store
      → IsSynced
          ((in_provider file_provider (λ _. r)
              >> change file_provider (insert client.id client)
              >> pure true)
            c).1
  after_add client r (inl (b, done)) = rw done (insert-Agrees client c.clients c.store agree)
  after_add client r (inr (e, failed)) = rw failed agree

  after_delete :
      (id : String) (r : Result Error (Unit {0}) × Dict String)
      → Settled r (remove id c.store) c.store
      → IsSynced ((in_provider file_provider (λ _. r) >> change file_provider (remove id)) c).1
  after_delete id r (inl (b, done)) = rw done (remove-Agrees id c.clients c.store agree)
  after_delete id r (inr (e, failed)) = rw failed agree

  missing_in_file : (id : String) → lookup id c.clients ≡ none → lookup id c.store ≡ none
  missing_in_file id missing = ground (arith, agree id, missing)

add-IsSynced :
    (env : FileEnv) (client : ClientAuth) (c : Cached)
    → Leaves env c.store
    → IsSynced c
    → IsSynced (add file_provider env client c).1
unfolding add
add-IsSynced env client c harmless agree = elim (Option-cases (lookup client.id c.clients)) [
  | inl missing ↦ rw missing (
      after_add c agree client (File.add env client c.store)
        (add-Settled env c.store harmless client (missing_in_file c agree client.id missing)))
  | inr (known, found) ↦ rw found agree
]

delete-IsSynced :
    (env : FileEnv) (id : String) (c : Cached)
    → Leaves env c.store
    → IsSynced c
    → IsSynced (delete file_provider env id c).1
unfolding delete
delete-IsSynced env id c harmless agree =
    after_delete c agree id (File.delete env id c.store) (delete-Settled env c.store harmless id)

-- Calls in a row, of which reads may fail and writes may fail before they touch the file.
pub data Reach (c : Cached) : Cached → Type 0 where
  here : Reach c c
  adds :
      {m : Cached} (env : FileEnv) (client : ClientAuth)
      → Reach c m
      → Leaves env m.store
      → Reach c (add file_provider env client m).1
  deletes :
      {m : Cached} (env : FileEnv) (id : String)
      → Reach c m
      → Leaves env m.store
      → Reach c (delete file_provider env id m).1

pub Reach-IsSynced : (c c' : Cached) → IsSynced c → Reach c c' → IsSynced c'
Reach-IsSynced c c' agree here = agree
Reach-IsSynced c c' agree (adds {m = m} env client before harmless) =
    add-IsSynced env client m harmless (Reach-IsSynced c m agree before)
Reach-IsSynced c c' agree (deletes {m = m} env id before harmless) =
    delete-IsSynced env id m harmless (Reach-IsSynced c m agree before)
