-- ===== src/ClientLoop/Passes.antt =====
-- client/client.go, `connectionLoop`: each pass through the loop, given what the world does in it.
use rport.Prelude.{
  ℤ, pos, negsuc, ℕ, zero, suc, String, Bool, true, false, not, ◌||◌, Option, none, some, List, [],
  ◌∷◌, str_eq, leb, ◌≡◌, if◌then◌else◌,
}
use rport.Text.{has_suffix}
use rport.Result.{Result, ok, err}
use rport.ClientLoop.Dialing.{
  is_retryable, connect_to_main_or_fallback, Reply, Json, send_connection_request,
}

-- The library that spaces the retries, from the longest pause.
pub record Backoff : Type 1 where
  pub State : Type 0
  pub new : ℕ → State
  pub attempt : State → ℕ
  pub duration : State → ℕ × State
  pub reset : State → State

-- It counts the pauses that it gave since it was made or reset.
pub record IsBackoff (b : Backoff) : Type 0 where
  pub attempt-new : (longest : ℕ) → b.attempt (b.new longest) ≡ 0
  pub attempt-duration : (s : b.State) → b.attempt (b.duration s).1 ≡ suc (b.attempt s)
  pub attempt-reset : (s : b.State) → b.attempt (b.reset s) ≡ 0

pub record Config : Type 0 where
  pub server : String
  pub fallback_servers : List String
  pub max_retry_count : ℤ
  pub max_retry_interval : ℕ

-- What happens in one pass. `switched` is the connection to the main server that a goroutine of this
-- pass or of an earlier one makes before the next pass, and `closed` says that `Close` is called.
pub record Round (Conn : Type 0) : Type 0 where
  pub connect : String → Result String Conn
  pub reply : Conn → String → Reply
  pub wait : Option String
  pub switched : Option Conn
  pub closed : Bool

-- `attempts` is the state of the backoff, and `ended` says that the loop was left and `runningc` closed.
-- `switching` counts the goroutines that may still deliver a connection.
pub record Loop (b : Backoff) (Conn : Type 0) : Type 0 where
  pub running : Bool
  pub ended : Bool
  pub connerr : Option String
  pub attempts : b.State
  pub switchback : Option Conn
  pub switching : ℕ

-- `c.config.Connection.MaxRetryCount >= 0 && attempt >= c.config.Connection.MaxRetryCount`
abbrev pub is_last_attempt : ℤ → ℕ → Bool
is_last_attempt (pos n) attempt = leb n attempt
is_last_attempt (negsuc n) attempt = false

-- The errors at the end of a connection that count as a failure.
unfoldable pub disconnect_error : Option String → Option String
unfolding has_suffix
disconnect_error none = none
disconnect_error (some e) =
    if str_eq e "EOF" || has_suffix e "use of closed network connection" then none else some e

module _ {Conn : Type 0} where
  -- The `select`: a connection that waits in the channel is taken before a server is dialed.
  unfoldable pub acquire : Config → Round Conn → Option Conn → Result String (Conn × Bool)
  unfolding connect_to_main_or_fallback
  acquire config round (some conn) = ok (conn, true)
  acquire config round none =
      connect_to_main_or_fallback round.connect config.server config.fallback_servers

module _ {b : Backoff} {Conn : Type 0} where
  -- The `if connerr != nil` at the top: the pause is taken even by the pass that gives up.
  unfoldable pub retry : ℤ → Loop b Conn → Loop b Conn
  retry max l = elim l.connerr [
    | none ↦ l
    | some e ↦
        if is_last_attempt max (b.attempt l.attempts)
        then record l { attempts = (b.duration l.attempts).1; ended = true }
        else record l { attempts = (b.duration l.attempts).1; connerr = none }
  ]

  -- A goroutine puts its connection into the channel, which holds one.
  abbrev pub deliver : Conn → ℕ → Option Conn → Loop b Conn → Loop b Conn
  deliver conn zero waiting l = l
  deliver conn (suc n) none l = record l { switchback = some conn; switching = n }
  deliver conn (suc n) (some other) l = l

  unfoldable pub arrive : Option Conn → Loop b Conn → Loop b Conn
  arrive none l = l
  arrive (some conn) l = deliver conn l.switching l.switchback l

  abbrev pub start_switchback : Bool → Loop b Conn → Loop b Conn
  start_switchback is_primary l = if is_primary then l else record l { switching = suc l.switching }

  -- A failed pass: `connerr = err` and `continue`, or the `break` of an error that is not retryable.
  abbrev pub fail : String → Loop b Conn → Loop b Conn
  fail e l = if is_retryable e then record l { connerr = some e } else record l { ended = true }

module _ {b : Backoff} {Conn Remote : Type 0} (json : Json Remote) (config : Config) where
  abbrev pub serve : Round Conn → Result String (List Remote) → Loop b Conn → Loop b Conn
  serve round (err e) l = fail e l
  serve round (ok remotes) l = record l {
    attempts = b.reset l.attempts;
    connerr = disconnect_error round.wait;
  }

  abbrev pub request : Round Conn → Result String (Conn × Bool) → Loop b Conn → Loop b Conn
  request round (err e) l = fail e l
  request round (ok (conn, is_primary)) l =
      serve round (send_connection_request json (round.reply conn)) (start_switchback is_primary l)

  abbrev pub attempt_connection : Round Conn → Loop b Conn → Loop b Conn
  attempt_connection round l =
      request round (acquire config round l.switchback) (record l { switchback = none })

  abbrev pub after_retry : Round Conn → Loop b Conn → Loop b Conn
  after_retry round l = if l.ended then l else attempt_connection round l

  -- `Close` during a pass is seen when the next one begins.
  abbrev pub close : Bool → Loop b Conn → Loop b Conn
  close closed l = if closed then record l { running = false } else l

  -- One pass of `for c.running`, and what goroutines and callers do before the next.
  unfoldable pub pass : Round Conn → Loop b Conn → Loop b Conn
  unfolding retry arrive
  pass round l =
      if l.ended
      then l
      else if not l.running
      then record l { ended = true }
      else close round.closed
          (arrive round.switched (after_retry round (retry config.max_retry_count l)))

  unfoldable pub connection_loop : List (Round Conn) → Loop b Conn → Loop b Conn
  unfolding pass
  connection_loop [] l = l
  connection_loop (round ∷ rounds) l = connection_loop rounds (pass round l)

module _ (b : Backoff) {Conn : Type 0} where
  abbrev pub new_loop : Config → Loop b Conn
  new_loop config = record {
    running = true;
    ended = false;
    connerr = none;
    attempts = b.new config.max_retry_interval;
    switchback = none;
    switching = 0;
  }
