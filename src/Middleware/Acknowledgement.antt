-- ===== src/Middleware/Acknowledgement.antt =====
-- middlewares/acknowledgement: the watcher that settles a message after its processing.
pub mod Disposition
pub mod Session
pub mod Quiet
use faststream.Prelude.{
  ℕ, String, Bool, true, false, Option, none, some, List, [], ◌∷◌, ◌++◌, length, get_elem?, set,
  any, str_eq, if◌then◌else◌,
}
use faststream.Exceptions.{
  Exc, Result, ok, err, raised, isinstance, exception, type_error, handler_exception, ack_message,
  nack_message, reject_message, cancelled_error,
}
use faststream.Value.{Value}
use faststream.Message.{acked, nacked, rejected, AckStatus, ack, nack, reject}
use faststream.Message.Commit.{settle}
use faststream.Runtime.{World, on_message, write_log, critical}
use faststream.Exec.{Exec, pure, raise, modify, gets, attempt, ◌>>=◌, ◌>>◌, continue}
use faststream.Middleware.{Middleware}

pub data AckPolicy : Type 0 where
  ack_first ack_always reject_on_error nack_on_error manual : AckPolicy

abbrev pub Options : Type 0
Options = List (String × ℕ)

-- The broker's own `ack`, `nack` and `reject` methods of its message class.
pub record Driver (U : Type 0) : Type 0 where
  pub call : AckStatus → Options → ℕ → Exec (World U) (Unit {0})

-- The methods of `StreamMessage` itself, which take no options.
unfoldable pub base_driver : {U : Type 0} → Driver U
unfolding on_message
base_driver = record {
  call = λ status options i. elim options [
    | [] ↦ modify (on_message i (settle status))
    | _ ∷ _ ↦ raise (raised type_error)
  ];
}

-- f(**a, **b) is a TypeError where a key stands in both.
unfoldable pub merge_kwargs : Options → Options → Result Options
merge_kwargs a b =
    if any (λ p. any (λ q. str_eq p.0 q.0) b) a then err (raised type_error) else ok (a ++ b)

module _ {U : Type 0} (driver : Driver U) (extra_options : Options) where
  attempted : AckStatus → Options → ℕ → Exec (World U) (Unit {0})
  unfolding merge_kwargs
  attempted status exc_options msg = do
    options ← (λ w. (merge_kwargs exc_options extra_options, w))
    driver.call status options msg

  -- except Exception as er: self.logger.log(repr(er), logging.CRITICAL, exc_info=er)
  report : Result (Unit {0}) → Exec (World U) (Unit {0})
  report (ok _) = pure tt
  report (err er) = if isinstance er exception then write_log (critical er) else raise er

  settle_watched : AckStatus → Options → Option ℕ → Exec (World U) (Unit {0})
  unfolding attempted report
  settle_watched status exc_options none = pure tt
  settle_watched status exc_options (some msg) = do
    outcome ← attempt (attempted status exc_options msg)
    report outcome

  abbrev the_watched : Option (Option ℕ) → Option ℕ
  the_watched none = none
  the_watched (some m) = m

  -- __ack, __nack and __reject of the middleware number `self`
  unfoldable pub settle_message : AckStatus → Options → ℕ → Exec (World U) (Unit {0})
  unfolding settle_watched
  settle_message status exc_options self = do
    msg ← gets (λ w. the_watched (get_elem? w.watched self))
    settle_watched status exc_options msg

  module _ (ack_policy : AckPolicy) (self : ℕ) where
    -- the first lines of `consume_scope`
    watch : ℕ → Exec (World U) (Unit {0})
    watch msg = do
      modify (λ w. record w { watched = set w.watched self (some msg) })
      elim ack_policy [ ack_first ↦ settle_message acked [] self | _ ↦ pure tt ]

    unfoldable pub consume_scope : {A : Type 0} → (ℕ → Exec (World U) A) → ℕ → Exec (World U) A
    unfolding watch
    consume_scope call_next msg = do watch msg; call_next msg

    on_handler_exception : Exc → Exec (World U) Bool
    on_handler_exception e = do
      (if isinstance e ack_message
          then settle_message acked e.extra_options self
          else if isinstance e nack_message
          then settle_message nacked e.extra_options self
          else if isinstance e reject_message
          then settle_message rejected e.extra_options self
          else pure tt)
      pure true

    on_error : AckPolicy → Exec (World U) Bool
    on_error reject_on_error = do settle_message rejected [] self; pure false
    on_error nack_on_error = do settle_message nacked [] self; pure false
    on_error ack_always = do settle_message acked [] self; pure false
    on_error ack_first = pure false
    on_error manual = pure false

    after_outcome : Option Exc → Exec (World U) Bool
    unfolding on_handler_exception on_error
    after_outcome none = do settle_message acked [] self; pure false
    after_outcome (some e) =
        if isinstance e handler_exception
        then on_handler_exception e
        else if isinstance e cancelled_error
        then pure false
        else on_error ack_policy

    -- __aexit__
    unfoldable pub aexit : Option Exc → Exec (World U) Bool
    unfolding after_outcome
    aexit outcome = elim ack_policy [ ack_first ↦ pure false | _ ↦ after_outcome outcome ]

    unfoldable pub instance_at : {A : Type 0} → Middleware U A
    instance_at = record {
      on_enter = pure tt;
      on_exit = aexit;
      consume_scope = consume_scope;
      publish_scope = λ call_next cmd. call_next cmd;
    }

  -- AcknowledgementMiddleware.__call__: a new instance, which watches no message yet.
  unfoldable pub acknowledgement_middleware :
      {A : Type 0} → AckPolicy → ℕ → Exec (World U) (Middleware U A)
  acknowledgement_middleware ack_policy msg w = (
    ok (instance_at ack_policy (length w.watched)),
    record w { watched = w.watched ++ none ∷ [] },
  )
