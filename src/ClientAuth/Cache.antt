-- ===== src/ClientAuth/Cache.antt =====
-- server/clientsauth/cache.go. The mutex makes each call atomic.
use rport.Prelude.{String, Bool, true, false, Option, none, some, List, [], ◌∷◌, map}
use rport.Result.{Result, ok, and_then}
use rport.Exec.{Exec, pure, ◌>>◌}
use rport.Dict.{Dict, lookup, insert, remove}
use rport.ClientAuth.Model.{ClientAuth, Provider, Error}

unfoldable pub load_from : Dict ClientAuth → List ClientAuth → Dict ClientAuth
load_from m [] = m
load_from m (v ∷ rest) = load_from (insert v.id v m) rest

module _ (p : Provider) where
  pub record CachedProvider : Type 0 where
    pub clients : Dict ClientAuth
    pub store : p.Store

  abbrev pub Call : Type 0 → Type 0
  Call = Exec Error CachedProvider

  abbrev pub in_provider : {A : Type 0} → (p.Store → Result Error A × p.Store) → Call A
  in_provider f c = ((f c.store).0, record c { store = (f c.store).1 })

  abbrev pub change : (Dict ClientAuth → Dict ClientAuth) → Call (Unit {0})
  change f c = (ok tt, record c { clients = f c.clients })

  -- `NewCachedProvider`
  unfoldable pub new_cached_provider : p.Env → p.Store → Result Error CachedProvider
  unfolding load_from
  new_cached_provider env store =
      and_then (p.get_all env store)
        λ clients. ok (record { clients = load_from [] clients; store = store })

  abbrev pub get : String → CachedProvider → Option ClientAuth
  get id c = lookup id c.clients

  abbrev pub get_all : CachedProvider → List ClientAuth
  get_all c = map (λ e. e.1) c.clients

  abbrev pub add_new : p.Env → ClientAuth → Option ClientAuth → Call Bool
  add_new env client (some known) = pure false
  add_new env client none =
      in_provider (p.add env client) >> change (insert client.id client) >> pure true

  unfoldable pub add : p.Env → ClientAuth → Call Bool
  add env client c = add_new env client (lookup client.id c.clients) c

  unfoldable pub delete : p.Env → String → Call (Unit {0})
  delete env id = in_provider (p.delete env id) >> change (remove id)
