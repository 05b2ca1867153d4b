-- ===== src/ClientAuth/Handlers.antt =====
-- server/api.go: creating and deleting client credentials. Decoding a request's body is left out: its
-- fields are arguments; the log lines are left out too.
use Prim.Native.String.{len}
use rport.Prelude.{
  ℕ, String, Bool, false, not, ◌&&◌, Option, none, some, List, [], ◌∷◌, str_eq, ltb, if◌then◌else◌,
  is_empty, is_none,
}
use rport.Result.{Result, ok, err, refuse_if, map_err, and_then}
use rport.Exec.{Exec, pure, lift, reads, ◌>>=◌, ◌>>◌}
use rport.Clients.Model.{Client}
use rport.Clients.Repository.{ClientProvider, ClientRepository, get_all_by_client_auth_id}
use rport.Clients.Service.{force_delete}
use rport.ClientAuth.Model.{ClientAuth, Provider, Error}
use rport.ClientAuth.Cache.{CachedProvider, get, add, delete}

pub data Refusal : Type 0 where
  method_not_allowed bad_request not_found conflict internal_server_error : Refusal

abbrev pub min_credentials_length : ℕ
min_credentials_length = 3

abbrev pub internal : {E A : Type 0} → Result E A → Result Refusal A
internal = map_err (λ e. internal_server_error)

-- `force` of the query, once it is decoded; `parse_bool` is Go's.
abbrev pub parsed : Option Bool → Result Refusal Bool
parsed none = err bad_request
parsed (some force) = ok force

abbrev pub force_of : (String → Option Bool) → String → Result Refusal Bool
force_of parse_bool s = if str_eq s "" then ok false else parsed (parse_bool s)

module _ (p : Provider) (cp : ClientProvider) where
  pub record Server : Type 0 where
    pub auths : CachedProvider p
    pub repo : ClientRepository cp

  abbrev pub Call : Type 0 → Type 0
  Call = Exec Refusal Server

  abbrev pub on_auths : {A : Type 0} → Exec Error (CachedProvider p) A → Call A
  on_auths m s = (internal (m s.auths).0, record s { auths = (m s.auths).1 })

  abbrev pub on_clients : {E A : Type 0} → Exec E (ClientRepository cp) A → Call A
  on_clients m s = (internal (m s.repo).0, record s { repo = (m s.repo).1 })

  abbrev pub allow_client_auth_write : Bool → Result Refusal (Unit {0})
  allow_client_auth_write auth_write =
      and_then (refuse_if (not p.is_writeable) method_not_allowed)
        λ _. refuse_if (not auth_write) method_not_allowed

  unfoldable pub handle_post_clients_auth : p.Env → Bool → ClientAuth → Call (Unit {0})
  unfolding add
  handle_post_clients_auth env auth_write new_client = do
    lift (allow_client_auth_write auth_write)
    lift (refuse_if (ltb (len new_client.id) min_credentials_length) bad_request)
    lift (refuse_if (ltb (len new_client.password) min_credentials_length) bad_request)
    added ← on_auths (add p env new_client)
    lift (refuse_if (not added) conflict)

  -- `closes`: whether closing a client's connection fails.
  abbrev pub force_delete_all : (Client → Bool) → List Client → Call (Unit {0})
  force_delete_all closes [] = pure tt
  force_delete_all closes (c ∷ cs) =
      on_clients (force_delete cp (closes c) c) >> force_delete_all closes cs

  abbrev pub delete_bound : p.Env → (Client → Bool) → String → Bool → List Client → Call (Unit {0})
  delete_bound env closes id force all_clients = do
    lift (refuse_if (not force && not (is_empty all_clients)) conflict)
    force_delete_all closes all_clients
    on_auths (delete p env id)

  unfoldable pub handle_delete_client_auth :
      p.Env
      → ℕ
      → (Client → Bool)
      → (String → Option Bool)
      → Bool
      → String
      → String
      → Call (Unit {0})
  unfolding force_delete delete get_all_by_client_auth_id
  handle_delete_client_auth env now closes parse_bool auth_write id force_str = do
    lift (allow_client_auth_write auth_write)
    lift (refuse_if (str_eq id "") bad_request)
    force ← lift (force_of parse_bool force_str)
    reads (λ s. refuse_if (is_none (get p id s.auths)) not_found)
    all_clients ← reads (λ s. ok (get_all_by_client_auth_id cp now id s.repo))
    delete_bound env closes id force all_clients
