-- ===== src/Login/Steps.antt =====
-- The API's state over any sequence of requests, each answered before the next one comes. The program
-- answers requests in goroutines and has no lock around a handler, so that requests which overlap may
-- do more.
use rport.Prelude.{ℕ, String, ◌≤◌}
use rport.Login.Model.{Listener, Packages, Config, Env, Request}
use rport.Login.Handlers.{
  wrap_with_auth, ws_auth, handle_login, handle_post_verify_2fa_token, handle_delete_logout,
}
use rport.Login.Preserved.{
  IsKept, wrap_with_auth-keeps, ws_auth-keeps, handle_login-keeps, verify-keeps, logout-keeps,
}
use rport.Login.Keyed.{IsKeyed, IsKeyed-IsKept}

-- One request of any kind, under the configured packages.
pub data Step (lib : Packages) (cfg : Config) (env : Env) (l : Listener) : Listener → Type 0 where
  authenticates : (req : Request) → Step lib cfg env l (wrap_with_auth lib cfg env req l).1
  connects :
      (req : Request) (token : String) → Step lib cfg env l (ws_auth lib cfg env req token l).1
  logs_in :
      (req : Request) (username pwd : String)
      → Step lib cfg env l (handle_login lib cfg env req username pwd l).1
  verifies :
      (req : Request) (username token : String)
      → Step lib cfg env l (handle_post_verify_2fa_token lib cfg env req username token l).1
  logs_out : (req : Request) → Step lib cfg env l (handle_delete_logout lib cfg env req l).1

-- Any requests, none of them before the time `start`.
pub data Reach (lib : Packages) (cfg : Config) (start : ℕ) (l : Listener) : Listener → Type 0 where
  here : Reach lib cfg start l l
  then_step :
      {m m' : Listener} (env : Env)
      → start ≤ env.now
      → Reach lib cfg start l m
      → Step lib cfg env m m'
      → Reach lib cfg start l m'

module _ {P : Listener → Type 0} {lib : Packages} {cfg : Config} where
  Step-keeps :
      {env : Env} {l l' : Listener} → IsKept P lib cfg env → Step lib cfg env l l' → P l → P l'
  Step-keeps {l = l} k (authenticates req) held = wrap_with_auth-keeps k req l held
  Step-keeps {l = l} k (connects req token) held = ws_auth-keeps k req token l held
  Step-keeps {l = l} k (logs_in req username pwd) held =
      handle_login-keeps k req username pwd l held
  Step-keeps {l = l} k (verifies req username token) held = verify-keeps k req username token l held
  Step-keeps {l = l} k (logs_out req) held = logout-keeps k req l held

  pub Reach-keeps :
      {start : ℕ} {l l' : Listener}
      → ((env : Env) → start ≤ env.now → IsKept P lib cfg env)
      → Reach lib cfg start l l'
      → P l
      → P l'
  Reach-keeps k here held = held
  Reach-keeps k (then_step env after before step) held =
      Step-keeps (k env after) step (Reach-keeps k before held)

-- Whatever requests are answered, also those that fail, every session that is kept stands under its
-- own token, if that was so at the start.
pub Reach-IsKeyed :
    (lib : Packages) (cfg : Config) (l l' : Listener)
    → Reach lib cfg 0 l l'
    → IsKeyed l
    → IsKeyed l'
Reach-IsKeyed lib cfg l l' = Reach-keeps (λ env after. IsKeyed-IsKept lib cfg env)
