-- ===== src/Tests/Middlewares.antt =====
-- Middlewares at work.
use faststream.Prelude.{ℕ, ◌≡◌, ◌↔◌, refl, false, some, [], ◌∷◌, ◌+◌, All, none}
use faststream.Exceptions.{ok, err, raised, exception, value_error, builtin, key_error, mro}
use faststream.Value.{int}
use faststream.Exec.{Exec}
use faststream.Response.{Returned, plain}
use faststream.Message.{acked}
use faststream.Runtime.{World}
use faststream.Middleware.Acknowledgement.{base_driver, nack_on_error, ack_first}
use faststream.Middleware.Acknowledgement.Disposition.{disposition, is_suppressed, settled, after}
use faststream.Middleware.Acknowledgement.Session.{
  session, session-late, session-early, started, passed,
}
use faststream.Middleware.ExceptionHandlers.{
  first_handler, Handler, Handlers, ExceptionMiddleware, init,
}
use faststream.Middleware.ExceptionHandlers.Nearest.{HasNone, Nearest, first_handler_iff}
use faststream.Tests.{order, idle, counting}

abbrev failing : ℕ → Exec (World ℕ) Returned
failing = counting (err (raised value_error))

-- The state in which the call of a first session ends.
abbrev called : World ℕ → World ℕ
called w = record w { user = w.user + 1 }

session-late_example : session base_driver [] nack_on_error failing 0 idle ≡ (
  passed (err (raised value_error)) (is_suppressed (some (raised value_error))),
  after (disposition nack_on_error (some (raised value_error))) 0 order (called (started 0 idle)),
)
session-late_example =
    session-late nack_on_error failing 0 idle (called (started 0 idle)) (err (raised value_error))
      order (λ e. cc) (λ e. cc) refl (record { watched_at = refl; stored = refl }) refl

session-early_example :
    session base_driver [] ack_first failing 0 idle
    ≡ (passed (err (raised value_error)) false, called (settled acked 0 order (started 0 idle)))
session-early_example =
    session-early failing 0 idle (called (settled acked 0 order (started 0 idle)))
      (err (raised value_error)) order refl refl

abbrev known_classes : Handlers ℕ
known_classes = (builtin value_error, 1) ∷ (builtin exception, 2) ∷ []

first_handler_iff_example :
    ((first_handler (mro (builtin key_error)) known_classes ≡ some 2)
      ↔ Nearest known_classes 2 (mro (builtin key_error)))
    × ((first_handler (mro (builtin key_error)) known_classes ≡ none)
        ↔ All (HasNone known_classes) (mro (builtin key_error)))
first_handler_iff_example = first_handler_iff (mro (builtin key_error)) known_classes 2

abbrev answer : Handler ℕ Returned
answer e = counting (ok (plain (int 3))) 0

abbrev bare : ExceptionMiddleware ℕ Returned
bare = init [] []
