-- ===== src/Streams/Reading.antt =====
-- How the loop of a stream's reader goes on and ends.
use faststream.Prelude.{
  ℕ, suc, ◌+◌, ◌≡◌, refl, subst, ◌∙◌, Bool, true, false, List, [], ◌∷◌, ◌++◌, length, arith,
  if◌then◌else◌,
}
use faststream.Exceptions.{Exc, Result, ok, err, isinstance, exception}
use faststream.Exec.{Exec}
use faststream.Streams.{
  Reader, Turn, again, returned, is_a, claim_unsupported, response_error, after_error,
  after_get_msgs, stop_on_terminal_error, turn, consume_loop, if_running,
}

if_running-again :
    (b : Bool) (t : Turn) (rest : Reader → Turn × Reader) (s' s : Reader)
    → b ≡ true
    → t ≡ again
    → if_running b t rest s' s ≡ rest s'
if_running-again b t rest s' s e f = rw (e, f)

if_running-returned :
    (b : Bool) (t : Turn) (rest : Reader → Turn × Reader) (s' s : Reader)
    → b ≡ true
    → t ≡ returned
    → if_running b t rest s' s ≡ (returned, s')
if_running-returned b t rest s' s e f = rw (e, f)

module _ (says_nogroup says_syntax : Exc → Bool) where
  -- An exception that is logged, and after which the loop goes on.
  abbrev pub is_passing : Exc → Bool
  is_passing e =
      if is_a claim_unsupported e
      then false
      else if is_a response_error e
      then false
      else isinstance e exception

  -- An exception after which the subscriber is stopped for good.
  abbrev pub is_terminal : Exc → Bool
  is_terminal e =
      if is_a claim_unsupported e
      then true
      else if is_a response_error e
      then says_nogroup e
      else false

  abbrev pub Passes : Result (Unit {0}) → Type 0
  Passes (ok _) = Unit
  Passes (err e) = is_passing e ≡ true

  -- A fetch that returns or fails in passing. It counts no read itself, and does not stop the
  -- subscriber.
  pub record IsPassing (fetch : Exec Reader (Unit {0})) : Type 0 where
    pub outcome : (s : Reader) → Passes (fetch s).0
    pub running : (s : Reader) → (fetch s).1.running ≡ s.running
    pub reads : (s : Reader) → (fetch s).1.reads ≡ s.reads

  pub record IsTerminal (fetch : Exec Reader (Unit {0})) : Type 0 where
    pub error : Reader → Exc
    pub outcome : (s : Reader) → (fetch s).0 ≡ err (error s)
    pub terminal : (s : Reader) → is_terminal (error s) ≡ true
    pub reads : (s : Reader) → (fetch s).1.reads ≡ s.reads

  abbrev pub AllPassing : List (Exec Reader (Unit {0})) → Type 0
  AllPassing [] = Unit
  AllPassing (f ∷ fs) = IsPassing f × AllPassing fs

  -- A turn that leaves the loop running.
  record Goes (has_app : Bool) (fetch : Exec Reader (Unit {0})) (s : Reader) : Type 0 where
    next : (turn says_nogroup says_syntax has_app fetch s).0 ≡ again
    running : (turn says_nogroup says_syntax has_app fetch s).1.running ≡ true
    reads : (turn says_nogroup says_syntax has_app fetch s).1.reads ≡ suc s.reads
    signal : (turn says_nogroup says_syntax has_app fetch s).1.start_signal ≡ true

  after-passing :
      (has_app : Bool) (r : Result (Unit {0})) (t : Reader)
      → Passes r
      → ((after_get_msgs says_nogroup says_syntax has_app r t).0 ≡ again)
        × ((after_get_msgs says_nogroup says_syntax has_app r t).1.running ≡ t.running)
        × ((after_get_msgs says_nogroup says_syntax has_app r t).1.reads ≡ t.reads)
  unfolding after_get_msgs after_error
  after-passing has_app (ok u) t p = (refl, refl, refl)
  after-passing has_app (err e) t p = ground arith

  turn-Goes :
      (has_app : Bool) (fetch : Exec Reader (Unit {0})) (s : Reader)
      → IsPassing fetch
      → s.running ≡ true
      → Goes has_app fetch s
  unfolding turn
  turn-Goes has_app fetch s p run =
      let start : Reader = record s { reads = suc s.reads } in
      let (next, running, reads) =
        after-passing has_app (fetch start).0 (fetch start).1 (p.outcome start) in
      record {
        next = next;
        running = running ∙ p.running start ∙ run;
        reads = reads ∙ p.reads start;
        signal = refl;
      }

  loop-Goes :
      (has_app : Bool) (fetch : Exec Reader (Unit {0})) (fetches : List (Exec Reader (Unit {0})))
      (s : Reader)
      → s.running ≡ true
      → Goes has_app fetch s
      → consume_loop says_nogroup says_syntax has_app (fetch ∷ fetches) s
        ≡ consume_loop says_nogroup says_syntax has_app fetches
            (turn says_nogroup says_syntax has_app fetch s).1
  unfolding consume_loop
  loop-Goes has_app fetch fetches s run g =
      if_running-again s.running (turn says_nogroup says_syntax has_app fetch s).0 _ _ s run g.next

  -- While fetches return or fail in passing, the loop goes on, and each is one read.
  consume_loop-passing :
      (has_app : Bool) (fetches behind : List (Exec Reader (Unit {0}))) (s : Reader)
      → AllPassing fetches
      → s.running ≡ true
      → (t : Reader) × (consume_loop says_nogroup says_syntax has_app (fetches ++ behind) s
          ≡ consume_loop says_nogroup says_syntax has_app behind t)
        × (t.running ≡ true)
        × (t.reads ≡ s.reads + length fetches)
  consume_loop-passing has_app [] behind s p run = (s, refl, run, omega arith)
  consume_loop-passing has_app (f ∷ fs) behind s (p, ps) run =
      let g = turn-Goes has_app f s p run in
      let (t, e, r, n) =
        consume_loop-passing has_app fs behind (turn says_nogroup says_syntax has_app f s).1 ps
          g.running in
      (t, loop-Goes has_app f (fs ++ behind) s run g ∙ e, r, omega (arith, n, g.reads))

  after-terminal :
      (has_app : Bool) (r : Result (Unit {0})) (t : Reader) (e : Exc)
      → r ≡ err e
      → is_terminal e ≡ true
      → ((after_get_msgs says_nogroup says_syntax has_app r t).0 ≡ returned)
        × ((after_get_msgs says_nogroup says_syntax has_app r t).1.running ≡ false)
        × ((after_get_msgs says_nogroup says_syntax has_app r t).1.reads ≡ t.reads)
        × ((after_get_msgs says_nogroup says_syntax has_app r t).1.exit_requested
            ≡ (if has_app then true else t.exit_requested))
  unfolding after_get_msgs after_error stop_on_terminal_error
  after-terminal has_app (ok u) t e h p = cc
  after-terminal has_app (err x) t e h p = ground arith

  loop-terminal :
      (has_app : Bool) (last : Exec Reader (Unit {0})) (behind : List (Exec Reader (Unit {0})))
      (s : Reader)
      → IsTerminal last
      → s.running ≡ true
      → consume_loop says_nogroup says_syntax has_app (last ∷ behind) s
        ≡ (returned, (turn says_nogroup says_syntax has_app last s).1)
  unfolding consume_loop turn
  loop-terminal has_app last behind s l run =
      let start : Reader = record s { reads = suc s.reads } in
      let ended =
        after-terminal has_app (last start).0 (last start).1 (l.error start) (l.outcome start)
          (l.terminal start) in
      if_running-returned s.running _ _ _ s run ended.0

  pub record Ended (has_app : Bool) (n : ℕ) (t : Reader) : Type 0 where
    pub running : t.running ≡ false
    pub reads : t.reads ≡ n
    pub signal : t.start_signal ≡ true
    pub exits : has_app ≡ true → t.exit_requested ≡ true

  turn-Ended :
      (has_app : Bool) (last : Exec Reader (Unit {0})) (s : Reader)
      → IsTerminal last
      → Ended has_app (suc s.reads) (turn says_nogroup says_syntax has_app last s).1
  unfolding turn
  turn-Ended has_app last s l =
      let start : Reader = record s { reads = suc s.reads } in
      let (how, stopped, kept, exits) =
        after-terminal has_app (last start).0 (last start).1 (l.error start) (l.outcome start)
          (l.terminal start) in
      record {
        running = stopped;
        reads = kept ∙ l.reads start;
        signal = refl;
        exits = λ h. exits ∙ (rw h);
      }

  -- The loop outlives every fetch that returns or fails in passing and does not itself stop the
  -- subscriber. The first fetch with an error that reading again cannot mend, that of an unsupported option or of a lost group, ends it for
  -- good: the loop returns, no fetch behind it is made, the subscriber does not run, the
  -- application is told to exit if there is one, and whoever waits for the start is woken.
  pub consume_loop-ends :
      (has_app : Bool) (fetches : List (Exec Reader (Unit {0}))) (last : Exec Reader (Unit {0}))
      (behind : List (Exec Reader (Unit {0}))) (s : Reader)
      → AllPassing fetches
      → IsTerminal last
      → s.running ≡ true
      → let (how, t) = consume_loop says_nogroup says_syntax has_app (fetches ++ last ∷ behind) s in
        (how ≡ returned) × Ended has_app (s.reads + length fetches + 1) t
  consume_loop-ends has_app fetches last behind s p l run =
      let (t, e, running, reads) = consume_loop-passing has_app fetches (last ∷ behind) s p run in
      let end = turn-Ended has_app last t l in
      let total : suc t.reads ≡ s.reads + length fetches + 1 = omega (arith, reads) in
      rw (e, loop-terminal has_app last behind t l running)
        (
          refl,
          subst (λ n. Ended has_app n (turn says_nogroup says_syntax has_app last t).1) total end,
        )
