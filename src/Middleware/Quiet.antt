-- ===== src/Middleware/Quiet.antt =====
-- Middlewares that leave the lock and the scopes alone.
use faststream.Prelude.{ℕ, Option}
use faststream.Exceptions.{Exc, Result, ok, err}
use faststream.Value.{Value}
use faststream.Response.{PublishCommand}
use faststream.Exec.{Exec}
use faststream.Runtime.{World}
use faststream.Runtime.Frames.{IsQuiet}
use faststream.Middleware.{Middleware}

-- A middleware whose hooks are quiet, and whose scopes are if what they call is.
pub record QuietMiddleware {U A : Type 0} (m : Middleware U A) : Type 0 where
  pub on_enter : IsQuiet m.on_enter
  pub on_exit : (outcome : Option Exc) → IsQuiet (m.on_exit outcome)
  pub consume_scope :
      (f : ℕ → Exec (World U) A)
      → ((msg : ℕ) → IsQuiet (f msg))
      → (msg : ℕ) → IsQuiet (m.consume_scope f msg)
  pub publish_scope :
      (f : PublishCommand → Exec (World U) Value)
      → ((cmd : PublishCommand) → IsQuiet (f cmd))
      → (cmd : PublishCommand) → IsQuiet (m.publish_scope f cmd)

-- The middleware that an outcome holds, if it holds one.
abbrev pub Made : {U A : Type 0} → Result (Middleware U A) → Type 0
Made (ok m) = QuietMiddleware m
Made (err e) = Unit

-- A class of middlewares: making one is quiet, and so is what is made.
pub record QuietMaker {U A : Type 0} (b : ℕ → Exec (World U) (Middleware U A)) : Type 0 where
  pub quiet : (raw : ℕ) → IsQuiet (b raw)
  pub made : (raw : ℕ) (w : World U) → Made (b raw w).0
