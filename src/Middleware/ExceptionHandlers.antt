-- ===== src/Middleware/ExceptionHandlers.antt =====
-- middlewares/exception.py: handlers by exception class, for the consume scope and for the exit.
pub mod Nearest
use faststream.Prelude.{
  ℕ, String, Bool, true, false, Option, none, some, List, [], ◌∷◌, if◌then◌else◌,
}
use faststream.Exceptions.{
  Exc, ExcClass, builtin, Result, ok, err, isinstance, exception, ignored_exception, mro,
  same_class,
}
use faststream.Value.{Value, null, truthy, bool}
use faststream.Context.{Slot, get_local}
use faststream.Runtime.{World, with_scope}
use faststream.Exec.{Exec, pure, raise, gets, attempt, continue, ◌>>=◌, ◌>>◌}
use faststream.Middleware.{Middleware}

-- A dict of handlers, keyed by class.
abbrev pub Handlers : Type 0 → Type 0
Handlers H = List (ExcClass × H)

module _ {H : Type 0} where
  unfoldable pub handler_of : ExcClass → Handlers H → Option H
  handler_of c [] = none
  handler_of c ((d, h) ∷ hs) = if same_class c d then some h else handler_of c hs

  unfoldable pub put_handler : ExcClass → H → Handlers H → Handlers H
  put_handler c h [] = (c, h) ∷ []
  put_handler c h ((d, g) ∷ hs) =
      if same_class c d then (d, h) ∷ hs else (d, g) ∷ put_handler c h hs

  put_all : Handlers H → Handlers H → Handlers H
  unfolding put_handler
  put_all hs [] = hs
  put_all hs ((c, h) ∷ more) = put_all (put_handler c h hs) more

  -- for cls in mro: if cls in handlers: …
  unfoldable pub first_handler : List ExcClass → Handlers H → Option H
  unfolding handler_of
  first_handler [] hs = none
  first_handler (c ∷ cs) hs = elim (handler_of c hs) [
    | some h ↦ some h
    | none ↦ first_handler cs hs
  ]

abbrev pub Handler : Type 0 → Type 0 → Type 0
Handler U A = Exc → Exec (World U) A

-- ignore_handler
abbrev pub ignore_handler : {U A : Type 0} → Handler U A
ignore_handler e = raise e

pub record ExceptionMiddleware (U A : Type 0) : Type 0 where
  pub handlers : Handlers (Handler U A)
  pub publish_handlers : Handlers (Handler U A)

abbrev pub is_set : Slot → Bool
is_set none = false
is_set (some v) = truthy v

module _ {U A : Type 0} where
  unfoldable pub init : Handlers (Handler U A) → Handlers (Handler U A) → ExceptionMiddleware U A
  unfolding put_all
  init handlers publish_handlers = record {
    handlers = put_all ((builtin ignored_exception, ignore_handler) ∷ []) handlers;
    publish_handlers = put_all ((builtin ignored_exception, ignore_handler) ∷ []) publish_handlers;
  }

  unfoldable pub add_handler :
      ExcClass → Bool → Handler U A → ExceptionMiddleware U A → ExceptionMiddleware U A
  add_handler exc true func m = record m {
    publish_handlers = put_handler exc func m.publish_handlers;
  }
  add_handler exc false func m = record m { handlers = put_handler exc func m.handlers }

  run_or_raise : Option (Handler U A) → Exc → Exec (World U) A
  run_or_raise none e = raise e
  run_or_raise (some h) e = h e

  recover : Handlers (Handler U A) → Result A → Exec (World U) A
  unfolding run_or_raise
  recover hs (ok v) = pure v
  recover hs (err e) =
      if isinstance e exception then run_or_raise (first_handler (mro e.cls) hs) e else raise e

  unfoldable pub consume_scope :
      ExceptionMiddleware U A → (ℕ → Exec (World U) A) → ℕ → Exec (World U) A
  unfolding recover
  consume_scope m call_next msg = do
    outcome ← attempt (call_next msg)
    recover m.publish_handlers outcome

  -- The raw message `raw` stands in for the parsed one where there is none.
  handled : Value → Option (Handler U A) → Exc → Exec (World U) Bool
  handled raw none e = pure false
  handled raw (some h) e = do
    known ← gets (λ w. is_set (get_local "message" none w.context))
    (if known then h e else with_scope (("message", some raw) ∷ []) (h e))
    pure true

  unfoldable pub after_processed :
      ExceptionMiddleware U A → Value → Option Exc → Exec (World U) Bool
  unfolding handled
  after_processed m raw none = pure false
  after_processed m raw (some e) = handled raw (first_handler (mro e.cls) m.handlers) e

  unfoldable pub exception_middleware : ExceptionMiddleware U A → Value → Middleware U A
  exception_middleware m raw = record {
    on_enter = pure tt;
    on_exit = after_processed m raw;
    consume_scope = consume_scope m;
    publish_scope = λ call_next cmd. call_next cmd;
  }
