-- ===== src/ClientLoop/Servers.antt =====
-- client/client.go, `connectToMainOrFallback`: which of the servers a client ends up connected to.
use rport.Prelude.{
  ℕ, suc, String, false, ◌&&◌, List, [], ◌∷◌, ◌++◌, ◌≡◌, ◌==◌, arith, ap, All, is_empty, length,
  length-append, inl, inr,
}
use rport.Result.{Result, ok, is_ok, Result-cases}
use rport.ClientLoop.Dialing.{try_servers, connect_to_main_or_fallback}

module _ {Conn : Type 0} (connect : String → Result String Conn) where
  -- Every server of the list is unreachable.
  abbrev pub Unreachable : String → Type 0
  Unreachable server = is_ok (connect server) ≡ false

  skip_servers :
      (i : ℕ) (first : String) (more skipped : List String) (server : String) (rest : List String)
      (conn : Conn)
      → first ∷ more ≡ skipped ++ server ∷ rest
      → All Unreachable skipped
      → connect server ≡ ok conn
      → try_servers connect i first more ≡ ok (conn, is_empty skipped && i == 0)
  unfolding try_servers
  skip_servers i first [] [] server rest conn order down up = ground arith
  skip_servers i first (next ∷ more) [] server rest conn order down up = ground arith
  skip_servers i first [] (s ∷ ss) server rest conn order down up =
      absurd (omega (arith, ap length order, length-append ss (server ∷ rest)))
  skip_servers i first (next ∷ more) (s ∷ ss) server rest conn order (d, ds) up =
      elim (Result-cases (connect first)) [
        | inl (other, answered) ↦ absurd (ground arith)
        | inr (e, failed) ↦ rw failed (
            ground (arith, skip_servers (suc i) next more ss server rest conn (ground arith) ds up))
      ]

  -- The servers are tried in their order: the servers before the first that answers are dialed in
  -- vain, and the connection is the primary one exactly when there are none before it.
  pub connect-first :
      (main : String) (fallbacks skipped : List String) (server : String) (rest : List String)
      (conn : Conn)
      → main ∷ fallbacks ≡ skipped ++ server ∷ rest
      → All Unreachable skipped
      → connect server ≡ ok conn
      → connect_to_main_or_fallback connect main fallbacks ≡ ok (conn, is_empty skipped)
  unfolding connect_to_main_or_fallback
  connect-first main fallbacks skipped server rest conn order down up =
      ground (arith, skip_servers 0 main fallbacks skipped server rest conn order down up)
