-- ===== src/ClientLoop/GiveUp.antt =====
-- client/client.go, `connectionLoop`: when a client that reaches no server gives up.
use rport.ClientLoop.Counting.{
  gives_up, ends_within, gives_up_now, gives_up_later, gives_up_never, ends_within-suc,
  ends_within_zero,
}
use rport.Prelude.{
  ℕ, zero, suc, Bool, true, false, Option, none, some, List, [], ◌∷◌, ◌≡◌, refl, arith, All,
  Bool-cases, if_then, if_else, not, inl, inr, length, String, sym, ◌∙◌, ap,
}
use rport.Result.{Result, ok, err, is_ok}
use rport.ClientLoop.Dialing.{Json, send_connection_request}
use rport.Prelude.{ℤ}
use rport.ClientLoop.Passes.{
  Backoff, IsBackoff, Config, Round, Loop, is_last_attempt, retry, acquire, arrive, deliver,
  after_retry, start_switchback, serve, request, attempt_connection, pass, connection_loop,
  new_loop,
}

module _ {Conn Remote : Type 0} (json : Json Remote) where
  -- In this pass no server accepts the client, and nobody calls `Close`.
  pub record IsHopeless (round : Round Conn) : Type 0 where
    pub refused : (conn : Conn) → is_ok (send_connection_request json (round.reply conn)) ≡ false
    pub not_closed : round.closed ≡ false

module _ (b : Backoff) (law : IsBackoff b) {Conn Remote : Type 0} (json : Json Remote)
    (config : Config) where
  record IsFailing (a : ℕ) (l : Loop b Conn) : Type 0 where
    running : l.running ≡ true
    going : l.ended ≡ false
    failed : (e : String) × (l.connerr ≡ some e)
    attempts : b.attempt l.attempts ≡ a

  record IsOpen (a : ℕ) (l : Loop b Conn) : Type 0 where
    running : l.running ≡ true
    going : l.ended ≡ false
    attempts : b.attempt l.attempts ≡ a

  abbrev IsEnded : Loop b Conn → Type 0
  IsEnded l = l.ended ≡ true

  start_switchback-IsOpen :
      (a : ℕ) (primary : Bool) (l : Loop b Conn)
      → IsOpen a l
      → IsOpen a (start_switchback primary l)
  start_switchback-IsOpen a true l o = o
  start_switchback-IsOpen a false l o = record {
    running = o.running;
    going = o.going;
    attempts = o.attempts;
  }

  serve-IsFailing :
      (a : ℕ) (round : Round Conn) (r : Result String (List Remote)) (l : Loop b Conn)
      → is_ok r ≡ false
      → IsOpen a l
      → IsFailing a (serve json config round r l)
  serve-IsFailing a round (ok remotes) l bad o = absurd (ground arith)
  serve-IsFailing a round (err e) l bad o = record {
    running = o.running;
    going = o.going;
    failed = (e, refl);
    attempts = o.attempts;
  }

  request-IsFailing :
      (a : ℕ) (round : Round Conn) (r : Result String (Conn × Bool)) (l : Loop b Conn)
      → IsHopeless json round
      → IsOpen a l
      → IsFailing a (request json config round r l)
  request-IsFailing a round (ok (conn, primary)) l h o =
      serve-IsFailing a round (send_connection_request json (round.reply conn))
        (start_switchback primary l) (h.refused conn) (start_switchback-IsOpen a primary l o)
  request-IsFailing a round (err e) l h o = record {
    running = o.running;
    going = o.going;
    failed = (e, refl);
    attempts = o.attempts;
  }

  deliver-IsFailing :
      (a : ℕ) (conn : Conn) (n : ℕ) (waiting : Option Conn) (l : Loop b Conn)
      → IsFailing a l
      → IsFailing a (deliver conn n waiting l)
  deliver-IsFailing a conn zero waiting l f = f
  deliver-IsFailing a conn (suc n) none l f = record {
    running = f.running;
    going = f.going;
    failed = f.failed;
    attempts = f.attempts;
  }
  deliver-IsFailing a conn (suc n) (some other) l f = f

  deliver-ended :
      (conn : Conn) (n : ℕ) (waiting : Option Conn) (l : Loop b Conn)
      → (deliver conn n waiting l).ended ≡ l.ended
  deliver-ended conn zero waiting l = refl
  deliver-ended conn (suc n) none l = refl
  deliver-ended conn (suc n) (some other) l = refl

  arrive-IsFailing :
      (a : ℕ) (conn : Option Conn) (l : Loop b Conn) → IsFailing a l → IsFailing a (arrive conn l)
  unfolding arrive
  arrive-IsFailing a none l f = f
  arrive-IsFailing a (some conn) l f = deliver-IsFailing a conn l.switching l.switchback l f

  arrive-ended : (conn : Option Conn) (l : Loop b Conn) → (arrive conn l).ended ≡ l.ended
  unfolding arrive
  arrive-ended none l = refl
  arrive-ended (some conn) l = deliver-ended conn l.switching l.switchback l

  retried :
      (max : ℤ) (a : ℕ) (l : Loop b Conn)
      → IsFailing a l
      → is_last_attempt max a ≡ false
      → IsOpen (suc a) (retry max l)
  unfolding retry
  retried max a l f more = rw f.failed.1 rw f.attempts rw more record {
    running = f.running;
    going = f.going;
    attempts = law.attempt-duration l.attempts ∙ ap suc f.attempts;
  }

  exhausted :
      (max : ℤ) (a : ℕ) (l : Loop b Conn)
      → IsFailing a l
      → is_last_attempt max a ≡ true
      → (retry max l).ended ≡ true
  unfolding retry
  exhausted max a l f last = rw f.failed.1 rw f.attempts rw last refl

  -- An open loop goes through the rest of a hopeless pass.
  attempt-IsFailing :
      (a : ℕ) (round : Round Conn) (l : Loop b Conn)
      → IsHopeless json round
      → IsOpen a l
      → IsFailing a (arrive round.switched (after_retry json config round l))
  attempt-IsFailing a round l h o = arrive-IsFailing a round.switched _ (
      if_else (IsFailing a) l.ended l (attempt_connection json config round l) o.going (
        request-IsFailing a round (acquire config round l.switchback) _ h
          record { running = o.running; going = o.going; attempts = o.attempts }))

  -- A pass that begins runs up to its end.
  enter :
      (P : Loop b Conn → Type 0) (round : Round Conn) (l : Loop b Conn)
      → round.closed ≡ false
      → l.running ≡ true
      → l.ended ≡ false
      → P (arrive round.switched (after_retry json config round (retry config.max_retry_count l)))
      → P (pass json config round l)
  unfolding pass
  enter P round l open_ running going p = if_else P l.ended l _ going (
      if_else P (not l.running) (record l { ended = true }) _ (ap not running)
        (if_else P round.closed _ _ open_ p))

  pass-IsFailing :
      (a : ℕ) (round : Round Conn) (l : Loop b Conn)
      → IsHopeless json round
      → IsFailing a l
      → is_last_attempt config.max_retry_count a ≡ false
      → IsFailing (suc a) (pass json config round l)
  pass-IsFailing a round l h f more =
      enter (IsFailing (suc a)) round l h.not_closed f.running f.going
        (attempt-IsFailing (suc a) round _ h (retried config.max_retry_count a l f more))

  pass-exhausted :
      (a : ℕ) (round : Round Conn) (l : Loop b Conn)
      → IsHopeless json round
      → IsFailing a l
      → is_last_attempt config.max_retry_count a ≡ true
      → (pass json config round l).ended ≡ true
  pass-exhausted a round l h f last =
      let over = exhausted config.max_retry_count a l f last in
      enter IsEnded round l h.not_closed f.running f.going (
        arrive-ended round.switched _
        ∙ if_then IsEnded (retry config.max_retry_count l).ended _ _ over over)

  ended_forever :
      (rounds : List (Round Conn)) (l : Loop b Conn)
      → l.ended ≡ true
      → (connection_loop json config rounds l).ended ≡ true
  unfolding connection_loop pass
  ended_forever [] l e = e
  ended_forever (round ∷ rounds) l e =
      ended_forever rounds (pass json config round l) (if_then IsEnded l.ended _ _ e e)

  failing-ended :
      (a : ℕ) (rounds : List (Round Conn)) (l : Loop b Conn)
      → All (IsHopeless json) rounds
      → IsFailing a l
      → (connection_loop json config rounds l).ended
        ≡ gives_up config.max_retry_count a (length rounds)
  unfolding connection_loop
  failing-ended a [] l h f = f.going ∙ sym (gives_up_never config.max_retry_count a)
  failing-ended a (round ∷ rounds) l (h, hs) f =
      elim (Bool-cases (is_last_attempt config.max_retry_count a)) [
        | inl last ↦
            ended_forever rounds (pass json config round l) (pass-exhausted a round l h f last)
            ∙ sym (gives_up_now config.max_retry_count a (length rounds) last)
        | inr more ↦
            failing-ended (suc a) rounds (pass json config round l) hs
              (pass-IsFailing a round l h f more)
            ∙ gives_up_later config.max_retry_count a (length rounds) more
      ]

  first_pass :
      (round : Round Conn)
      → IsHopeless json round
      → IsFailing 0 (pass json config round (new_loop b config))
  unfolding retry
  first_pass round h = enter (IsFailing 0) round (new_loop b config) h.not_closed refl refl (
      attempt-IsFailing 0 round (new_loop b config) h record {
        running = refl;
        going = refl;
        attempts = law.attempt-new config.max_retry_interval;
      })

  -- A client whose connection requests are never accepted, whichever servers it reaches, gives up: with
  -- a maximal retry count `n` of at least 0 the loop has ended after more than `n + 1` such passes and
  -- not before, and with a negative count it never ends.
  pub connection_loop-ended :
      (rounds : List (Round Conn))
      → All (IsHopeless json) rounds
      → (connection_loop json config rounds (new_loop b config)).ended
        ≡ ends_within config.max_retry_count (length rounds)
  unfolding connection_loop
  connection_loop-ended [] h = ends_within_zero config.max_retry_count
  connection_loop-ended (round ∷ rounds) (h, hs) =
      failing-ended 0 rounds (pass json config round (new_loop b config)) hs (first_pass round h)
      ∙ ends_within-suc config.max_retry_count (length rounds)
