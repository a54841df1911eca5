-- ===== src/Middleware/Acknowledgement/Quiet.antt =====
-- The acknowledgement middleware leaves the lock and the scopes alone, if the broker does.
use faststream.Prelude.{ℕ, refl, Bool, true, false, Option, none, some, [], set, length}
use faststream.Exceptions.{Exc, Result, ok, err}
use faststream.Message.{AckStatus, acked, nacked, rejected}
use faststream.Context.Scopes.{Same-refl}
use faststream.Exec.{pure, lift, modify, attempt, ◌>>◌}
use faststream.Exec.Keeps.{
  Keeps, Keeps-pure, Keeps-raise, Keeps-lift, Keeps-gets, Keeps-if, Keeps-attempt, Keeps-bind,
}
use faststream.Runtime.{World, critical}
use faststream.Runtime.Frames.{Frame, IsQuiet, Keeps-modify, write_log-Frame}
use faststream.Middleware.Acknowledgement.{
  AckPolicy, Options, Driver, settle_message, settle_watched, attempted, merge_kwargs, report,
  aexit, after_outcome, on_handler_exception, on_error, watch, consume_scope, instance_at,
  acknowledgement_middleware, ack_first, ack_always, reject_on_error, nack_on_error, manual,
}
use faststream.Middleware.Quiet.{QuietMiddleware, QuietMaker}

module _ {U : Type 0} (driver : Driver U) (extra_options : Options)
    (quiet : (status : AckStatus) (options : Options) (i : ℕ)
      → IsQuiet (driver.call status options i)) where
  report-Frame :
      (w0 : World U) (r : Result (Unit {0})) → Keeps (Frame w0) (report driver extra_options r)
  unfolding report
  report-Frame w0 (ok _) = Keeps-pure tt
  report-Frame w0 (err e) = Keeps-if _ _ _ (write_log-Frame w0 (critical e)) (Keeps-raise e)

  attempted-Frame :
      (w0 : World U) (status : AckStatus) (options : Options) (msg : ℕ)
      → Keeps (Frame w0) (attempted driver extra_options status options msg)
  unfolding attempted
  attempted-Frame w0 status options msg =
      Keeps-bind (lift (merge_kwargs options extra_options)) _ (Keeps-lift _)
        (λ all_options. (quiet status all_options msg).at w0)

  settle_watched-Frame :
      (w0 : World U) (status : AckStatus) (options : Options) (o : Option ℕ)
      → Keeps (Frame w0) (settle_watched driver extra_options status options o)
  unfolding settle_watched
  settle_watched-Frame w0 status options none = Keeps-pure tt
  settle_watched-Frame w0 status options (some msg) =
      Keeps-bind (attempt (attempted driver extra_options status options msg))
        (report driver extra_options) (Keeps-attempt _ (attempted-Frame w0 status options msg))
        (report-Frame w0)

  settle_message-Frame :
      (w0 : World U) (status : AckStatus) (options : Options) (self : ℕ)
      → Keeps (Frame w0) (settle_message driver extra_options status options self)
  unfolding settle_message
  settle_message-Frame w0 status options self =
      Keeps-bind _ _ (Keeps-gets _) (settle_watched-Frame w0 status options)

  settled-Frame :
      (w0 : World U) (status : AckStatus) (options : Options) (self : ℕ) (b : Bool)
      → Keeps
          (Frame w0)
          (settle_message driver extra_options status options self >> pure {S = World U} b)
  settled-Frame w0 status options self b =
      Keeps-bind (settle_message driver extra_options status options self) _
        (settle_message-Frame w0 status options self) (λ _. Keeps-pure b)

  on_error-Frame :
      (w0 : World U) (policy : AckPolicy) (self : ℕ)
      → (q : AckPolicy) → Keeps (Frame w0) (on_error driver extra_options policy self q)
  unfolding on_error
  on_error-Frame w0 policy self reject_on_error = settled-Frame w0 rejected [] self false
  on_error-Frame w0 policy self nack_on_error = settled-Frame w0 nacked [] self false
  on_error-Frame w0 policy self ack_always = settled-Frame w0 acked [] self false
  on_error-Frame w0 policy self ack_first = Keeps-pure false
  on_error-Frame w0 policy self manual = Keeps-pure false

  on_handler_exception-Frame :
      (w0 : World U) (policy : AckPolicy) (self : ℕ) (e : Exc)
      → Keeps (Frame w0) (on_handler_exception driver extra_options policy self e)
  unfolding on_handler_exception
  on_handler_exception-Frame w0 policy self e =
      Keeps-bind _ _
        (Keeps-if _ _ _ (settle_message-Frame w0 acked e.extra_options self) (
          Keeps-if _ _ _ (settle_message-Frame w0 nacked e.extra_options self) (
            Keeps-if _ _ _ (settle_message-Frame w0 rejected e.extra_options self)
              (Keeps-pure tt))))
        (λ _. Keeps-pure true)

  after_outcome-Frame :
      (w0 : World U) (policy : AckPolicy) (self : ℕ) (outcome : Option Exc)
      → Keeps (Frame w0) (after_outcome driver extra_options policy self outcome)
  unfolding after_outcome
  after_outcome-Frame w0 policy self none = settled-Frame w0 acked [] self false
  after_outcome-Frame w0 policy self (some e) =
      Keeps-if _ _ _ (on_handler_exception-Frame w0 policy self e)
        (Keeps-if _ _ _ (Keeps-pure false) (on_error-Frame w0 policy self policy))

  aexit-Frame :
      (w0 : World U) (policy : AckPolicy) (self : ℕ) (outcome : Option Exc)
      → Keeps (Frame w0) (aexit driver extra_options policy self outcome)
  unfolding aexit
  aexit-Frame w0 ack_first self outcome = Keeps-pure false
  aexit-Frame w0 policy self outcome = after_outcome-Frame w0 policy self outcome

  early-Frame :
      (w0 : World U) (self : ℕ) (policy : AckPolicy)
      → Keeps (Frame w0) (elim policy [
        | ack_first ↦ settle_message driver extra_options acked [] self
        | _ ↦ pure {S = World U} tt
      ])
  early-Frame w0 self ack_first = settle_message-Frame w0 acked [] self
  early-Frame w0 self _ = Keeps-pure tt

  watch-Frame :
      (w0 : World U) (policy : AckPolicy) (self msg : ℕ)
      → Keeps (Frame w0) (watch driver extra_options policy self msg)
  unfolding watch
  watch-Frame w0 policy self msg =
      Keeps-bind (modify (λ (w : World U). record w { watched = set w.watched self (some msg) })) _
        (Keeps-modify w0 _ (λ w. record { lock = refl; scope = refl; same = Same-refl w.context }))
        (λ _. early-Frame w0 self policy)

  pub instance_at-Quiet :
      {A : Type 0} (policy : AckPolicy) (self : ℕ)
      → QuietMiddleware (instance_at driver extra_options policy self {A = A})
  unfolding instance_at consume_scope
  instance_at-Quiet policy self = record {
    on_enter = record { at = λ w. Keeps-pure tt };
    on_exit = λ outcome. record { at = λ w. aexit-Frame w policy self outcome };
    consume_scope = λ f h msg. record {
      at = λ w. Keeps-bind _ _ (watch-Frame w policy self msg) (λ _. (h msg).at w);
    };
    publish_scope = λ f h. h;
  }

  pub acknowledgement_middleware-Quiet :
      {A : Type 0} (policy : AckPolicy)
      → QuietMaker (acknowledgement_middleware driver extra_options {A = A} policy)
  unfolding acknowledgement_middleware
  acknowledgement_middleware-Quiet policy = record {
    quiet = λ raw. record {
      at = λ w. record { at = λ v p. record { lock = p.lock; scope = p.scope; same = p.same } };
    };
    made = λ raw w. instance_at-Quiet policy (length w.watched);
  }
