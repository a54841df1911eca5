-- ===== src/Middleware/Logging/Quiet.antt =====
-- The logging middleware leaves the lock and the scopes alone.
use faststream.Prelude.{ℕ, refl, false, Option, none, some, length, get_elem?, set}
use faststream.Exceptions.{Exc}
use faststream.Message.{SourceType, consume, response}
use faststream.Context.Scopes.{Same-refl}
use faststream.Exec.{Exec, pure, gets, modify, ◌>>◌}
use faststream.Exec.Keeps.{Keeps, Keeps-pure, Keeps-gets, Keeps-if, Keeps-bind}
use faststream.Runtime.{World, write_log, received, processed, ignored, failed}
use faststream.Runtime.Frames.{Frame, Keeps-modify, write_log-Frame}
use faststream.Middleware.Quiet.{QuietMaker}
use faststream.Middleware.Logging.{
  begin, consume_scope, log_outcome, aexit, logging_middleware, source_at, own_source,
}

module _ {U : Type 0} (w0 : World U) where
  greeting-Frame :
      (t : SourceType)
      → Keeps
          (Frame w0)
          (elim t [ response ↦ pure {S = World U} tt | consume ↦ write_log received ])
  greeting-Frame response = Keeps-pure tt
  greeting-Frame consume = write_log-Frame w0 received

  begin-Frame : (self : ℕ) (t : SourceType) → Keeps (Frame w0) (begin {U = U} self t)
  unfolding begin
  begin-Frame self t =
      Keeps-bind (modify (λ (w : World U). record w { sources = set w.sources self t })) _
        (Keeps-modify w0 _ (λ w. record { lock = refl; scope = refl; same = Same-refl w.context }))
        (λ _. greeting-Frame t)

  log_outcome-Frame : (outcome : Option Exc) → Keeps (Frame w0) (log_outcome {U = U} outcome)
  unfolding log_outcome
  log_outcome-Frame none = Keeps-pure tt
  log_outcome-Frame (some e) =
      Keeps-if _ _ _ (write_log-Frame w0 (ignored e)) (write_log-Frame w0 (failed e))

  closing-Frame :
      (outcome : Option Exc) (t : SourceType)
      → Keeps (Frame w0) (elim t [
        | response ↦ pure {S = World U} false
        | consume ↦ do log_outcome outcome; write_log processed; pure false
      ])
  closing-Frame outcome response = Keeps-pure false
  closing-Frame outcome consume =
      Keeps-bind (log_outcome outcome) _ (log_outcome-Frame outcome) (λ _.
        Keeps-bind (write_log processed) _ (write_log-Frame w0 processed) (λ _. Keeps-pure false))

  aexit-Frame : (self : ℕ) (outcome : Option Exc) → Keeps (Frame w0) (aexit {U = U} self outcome)
  unfolding aexit
  aexit-Frame self outcome =
      Keeps-bind (gets (λ (w : World U). own_source (get_elem? w.sources self))) _ (Keeps-gets _)
        (closing-Frame outcome)

  consume_scope-Frame :
      {A : Type 0} (self : ℕ) (f : ℕ → Exec (World U) A) (msg : ℕ)
      → Keeps (Frame w0) (f msg)
      → Keeps (Frame w0) (consume_scope self f msg)
  unfolding consume_scope
  consume_scope-Frame self f msg h =
      Keeps-bind (gets (λ (w : World U). source_at (get_elem? w.messages msg))) _ (Keeps-gets _)
        (λ t. Keeps-bind (begin self t) _ (begin-Frame self t) (λ _. h))

pub logging_middleware-Quiet : {U A : Type 0} → QuietMaker (logging_middleware {U = U} {A = A})
unfolding logging_middleware
logging_middleware-Quiet = record {
  quiet = λ raw. record {
    at = λ w. record { at = λ v p. record { lock = p.lock; scope = p.scope; same = p.same } };
  };
  made = λ raw w. record {
    on_enter = record { at = λ v. Keeps-pure tt };
    on_exit = λ outcome. record { at = λ v. aexit-Frame v (length w.sources) outcome };
    consume_scope = λ f h msg. record {
      at = λ v. consume_scope-Frame v (length w.sources) f msg ((h msg).at v);
    };
    publish_scope = λ f h. h;
  };
}
