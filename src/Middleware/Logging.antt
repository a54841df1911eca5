-- ===== src/Middleware/Logging.antt =====
-- middlewares/logging.py: the log of each message. It sees every outcome and changes none.
pub mod Quiet
use faststream.Prelude.{
  ℕ, ◌≡◌, refl, Bool, true, false, Option, none, some, List, [], ◌∷◌, ◌++◌, arith, length,
  get_elem?, set, set-append_last, get_elem?-append_last, append_assoc, append-nil, if◌then◌else◌,
}
use faststream.Exceptions.{Exc, Result, ok, err, isinstance, ignored_exception}
use faststream.Message.{SourceType, consume, response, StreamMessage}
use faststream.Runtime.{World, LogRecord, received, processed, ignored, failed, write_log}
use faststream.Exec.{Exec, pure, gets, modify, attempt, continue, ◌>>=◌, ◌>>◌}
use faststream.Middleware.{Middleware, within, leave}
use faststream.Middleware.Acknowledgement.Session.{failure, passed}

abbrev source_at : Option StreamMessage → SourceType
source_at none = consume
source_at (some m) = m.source_type

abbrev own_source : Option SourceType → SourceType
own_source none = consume
own_source (some t) = t

module _ {U : Type 0} where
  unfoldable pub begin : ℕ → SourceType → Exec (World U) (Unit {0})
  begin self source_type = do
    modify (λ w. record w { sources = set w.sources self source_type })
    elim source_type [ response ↦ pure tt | consume ↦ write_log received ]

  unfoldable pub consume_scope : {A : Type 0} → ℕ → (ℕ → Exec (World U) A) → ℕ → Exec (World U) A
  consume_scope self call_next msg = do
    source_type ← gets (λ w. source_at (get_elem? w.messages msg))
    begin self source_type
    call_next msg

  log_outcome : Option Exc → Exec (World U) (Unit {0})
  log_outcome none = pure tt
  log_outcome (some e) =
      if isinstance e ignored_exception then write_log (ignored e) else write_log (failed e)

  unfoldable pub aexit : ℕ → Option Exc → Exec (World U) Bool
  unfolding log_outcome
  aexit self outcome = do
    source_type ← gets (λ w. own_source (get_elem? w.sources self))
    elim source_type [
      | response ↦ pure false
      | consume ↦ do log_outcome outcome; write_log processed; pure false
    ]

  unfoldable pub logging_middleware : {A : Type 0} → ℕ → Exec (World U) (Middleware U A)
  logging_middleware msg w = (
    ok (record {
      on_enter = pure tt;
      on_exit = aexit (length w.sources);
      consume_scope = consume_scope (length w.sources);
      publish_scope = λ call_next cmd. call_next cmd;
    }),
    record w { sources = w.sources ++ consume ∷ [] },
  )

-- The lines of the log that an outcome is owed.
abbrev pub outcome_lines : Option Exc → List LogRecord
outcome_lines none = []
outcome_lines (some e) = (if isinstance e ignored_exception then ignored e else failed e) ∷ []

abbrev pub opening_lines : SourceType → List LogRecord
opening_lines response = []
opening_lines consume = received ∷ []

abbrev pub closing_lines : SourceType → Option Exc → List LogRecord
closing_lines response outcome = []
closing_lines consume outcome = outcome_lines outcome ++ processed ∷ []

module _ {U : Type 0} where
  aexit-closing_lines :
      (self : ℕ) (t : SourceType) (outcome : Option Exc) (w : World U)
      → get_elem? w.sources self ≡ some t
      → aexit self outcome w ≡ (ok false, record w { log = w.log ++ closing_lines t outcome })
  unfolding aexit
  aexit-closing_lines self response outcome w h = ground (arith, append-nil w.log)
  aexit-closing_lines self consume none w h = ground arith
  aexit-closing_lines self consume (some e) w h = ground (
    arith,
    append_assoc w.log (ignored e ∷ []) (processed ∷ []),
    append_assoc w.log (failed e ∷ []) (processed ∷ []),
  )

  -- The state that the call starts in.
  abbrev pub started : SourceType → World U → World U
  started t w = record w { sources = w.sources ++ t ∷ []; log = w.log ++ opening_lines t }

  begin-started :
      (t : SourceType) (w : World U)
      → begin (length w.sources) t (record w { sources = w.sources ++ consume ∷ [] })
        ≡ (ok tt, started t w)
  unfolding begin
  begin-started response w =
      rw (set-append_last w.sources consume response) (ground (arith, append-nil w.log))
  begin-started consume w = rw (set-append_last w.sources consume consume)

module _ {U A : Type 0} where
  -- The middleware alone around a call: entered, its consume scope run, exited.
  pub session : (ℕ → Exec (World U) A) → ℕ → Exec (World U) (Option A)
  session call_next msg = do
    m ← logging_middleware msg
    within m (do r ← m.consume_scope call_next msg; pure (some r))

  consume_scope-started :
      (call_next : ℕ → Exec (World U) A) (msg : ℕ) (w : World U) (m : StreamMessage)
      → get_elem? w.messages msg ≡ some m
      → consume_scope
          (length w.sources)
          call_next
          msg
          (record w { sources = w.sources ++ consume ∷ [] })
        ≡ call_next msg (started m.source_type w)
  unfolding consume_scope
  consume_scope-started call_next msg w m h = rw (h, begin-started m.source_type w)

  -- A message of the subscriber is logged when it comes and when it is done, with a line for an
  -- exception by its kind; a response is not logged. The outcome is passed on as it is, and but for
  -- the log the state is what the call leaves.
  pub session-logged :
      (call_next : ℕ → Exec (World U) A) (msg : ℕ) (w w' : World U) (m : StreamMessage)
      (r : Result A)
      → get_elem? w.messages msg ≡ some m
      → call_next msg (started m.source_type w) ≡ (r, w')
      → get_elem? w'.sources (length w.sources) ≡ some m.source_type
      → session call_next msg w
        ≡ (passed r false, record w' { log = w'.log ++ closing_lines m.source_type (failure r) })
  unfolding session logging_middleware within
  session-logged call_next msg w w' m r here ran kept = ground (
    arith,
    consume_scope-started call_next msg w m here,
    aexit-closing_lines (length w.sources) m.source_type (failure r) w' kept,
  )
