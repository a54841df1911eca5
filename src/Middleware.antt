-- ===== src/Middleware.antt =====
-- _internal/middlewares.py, and how `AsyncExitStack` runs what was entered.
pub mod Acknowledgement
pub mod Logging
pub mod Quiet
pub mod ExceptionHandlers
use faststream.Prelude.{ℕ, Bool, true, false, Option, none, some, List, [], ◌∷◌, ◌++◌}
use faststream.Exceptions.{Exc, Result, ok, err}
use faststream.Value.{Value}
use faststream.Response.{PublishCommand}
use faststream.Runtime.{World}
use faststream.Exec.{Exec, pure, raise, attempt, ◌>>=◌, ◌>>◌, continue}

-- An object of a subclass of `BaseMiddleware`. A scope is handed what comes next.
pub record Middleware (U A : Type 0) : Type 0 where
  -- __aenter__
  pub on_enter : Exec (World U) (Unit {0})
  -- __aexit__, and whether its answer is true
  pub on_exit : Option Exc → Exec (World U) Bool
  pub consume_scope : (ℕ → Exec (World U) A) → ℕ → Exec (World U) A
  pub publish_scope :
      (PublishCommand → Exec (World U) Value) → PublishCommand → Exec (World U) Value

-- BaseMiddleware itself: `on_receive` does nothing, `after_processed` answers False.
unfoldable pub base_middleware : {U A : Type 0} → Middleware U A
base_middleware = record {
  on_enter = pure tt;
  on_exit = λ _. pure false;
  consume_scope = λ call_next msg. call_next msg;
  publish_scope = λ call_next cmd. call_next cmd;
}

module _ {U A B : Type 0} where
  -- The exit callback sees the outcome of the block: `none` is a block that was left without a
  -- value, because an exception was suppressed further in.
  unfoldable pub leave : Middleware U A → Result (Option B) → Exec (World U) (Option B)
  leave m (ok r) = do m.on_exit none; pure r
  leave m (err e) = do
    suppressed ← m.on_exit (some e)
    elim suppressed [ true ↦ pure none | false ↦ raise e ]

  -- await stack.enter_async_context(m), the rest of the block, and the exit
  unfoldable pub within : Middleware U A → Exec (World U) (Option B) → Exec (World U) (Option B)
  unfolding leave
  within m body = do m.on_enter; outcome ← attempt body; leave m outcome

  -- `base_m(msg, context=context)` for each of the stack, entered in order
  unfoldable pub enter_all :
      List (ℕ → Exec (World U) (Middleware U A))
      → ℕ
      → List (Middleware U A)
      → (List (Middleware U A) → Exec (World U) (Option B))
      → Exec (World U) (Option B)
  unfolding within
  enter_all [] msg entered body = body entered
  enter_all (base_m ∷ stack) msg entered body = do
    m ← base_m msg
    within m (enter_all stack msg (entered ++ m ∷ []) body)
