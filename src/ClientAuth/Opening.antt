-- ===== src/ClientAuth/Opening.antt =====
-- server/clientsauth/cache.go, `NewCachedProvider`, over file.go.
use rport.Prelude.{
  String, true, Option, none, some, List, [], ◌∷◌, ◌≡◌, refl, arith, eq_iff, ap, sym, ◌∙◌, inl, inr,
}
use rport.Result.{ok, value_or, Result-cases}
use rport.Dict.{Dict, lookup, insert, lookup-insert, has_distinct_keys, lookup_missing}
use rport.ClientAuth.Model.{ClientAuth}
use rport.ClientAuth.File.{FileEnv, file_provider, credentials}
use rport.ClientAuth.Cache.{get, load_from, new_cached_provider}
use rport.ClientAuth.Agreement.{entry, Cached, IsSynced, Reach, Reach-IsSynced}

abbrev first_of : Option ClientAuth → Option ClientAuth → Option ClientAuth
first_of none other = other
first_of (some a) other = some a

decoded_head :
    (e : String × String) (es : Dict String) (clients : List ClientAuth)
    → credentials (e ∷ es) ≡ ok clients
    → (rest : List ClientAuth) × (credentials es ≡ ok rest)
      × (clients ≡ record { id = e.0; password = e.1 } ∷ rest)
unfolding credentials
decoded_head e es clients decoded = elim (Result-cases (credentials es)) [
  | inr (x, failed) ↦ absurd (ground arith)
  | inl (rest, good) ↦ (rest, good, ground arith)
]

lookup-load_from :
    (id : String) (m : Dict ClientAuth) (file : Dict String) (clients : List ClientAuth)
    → has_distinct_keys file ≡ true
    → credentials file ≡ ok clients
    → lookup id (load_from m clients) ≡ first_of (entry id (lookup id file)) (lookup id m)
unfolding load_from credentials lookup
lookup-load_from id m [] clients distinct decoded =
    ap (λ x. lookup id (load_from m x)) (sym (ap (value_or clients) decoded))
lookup-load_from id m (e ∷ es) clients distinct decoded =
    let (rest, good, split) = decoded_head e es clients decoded in
    let c : ClientAuth = record { id = e.0; password = e.1 } in
    rw split (
      ground (
        arith,
        lookup-load_from id (insert e.0 c m) es rest (ground arith) good,
        lookup-insert e.0 id c m,
        eq_iff e.0 id,
        lookup_missing e.0 es,
      ))

or_none : (o : Option ClientAuth) → first_of o none ≡ o
or_none none = refl
or_none (some a) = refl

opened :
    (env : FileEnv) (file : Dict String) (c : Cached)
    → has_distinct_keys file ≡ true
    → new_cached_provider file_provider env file ≡ ok c
    → IsSynced c
unfolding new_cached_provider lookup
opened env file c distinct made id = elim (Result-cases (credentials file)) [
  | inr (x, failed) ↦ absurd (ground arith)
  | inl (clients, decoded) ↦
      let lists : load_from [] clients ≡ c.clients = ground arith in
      let stored : file ≡ c.store = ground arith in
      rw (sym lists) (
        rw (sym stored) (
          lookup-load_from id [] file clients distinct decoded
          ∙ or_none (entry id (lookup id file))))
]

-- Over any sequence of Add and Delete after the start, the credentials that the cache answers for an
-- id are exactly those that the file holds for it, where the file was a map at the start, any read may
-- fail, and a write may fail before it touches the file.
pub cached_file_lem :
    (env : FileEnv) (file : Dict String) (c c' : Cached) (id : String)
    → has_distinct_keys file ≡ true
    → new_cached_provider file_provider env file ≡ ok c
    → Reach c c'
    → get file_provider id c' ≡ entry id (lookup id c'.store)
cached_file_lem env file c c' id distinct made calls =
    Reach-IsSynced c c' (opened env file c distinct made) calls id
