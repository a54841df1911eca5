-- ===== src/Tests/Consuming.antt =====
-- A subscriber at work.
use faststream.Prelude.{
  ℕ, ◌≡◌, refl, Bool, true, false, Option, none, some, List, [], ◌∷◌, ◌+◌, ◌*◌, All, ◌||◌,
}
use faststream.Exceptions.{
  Result, ok, err, raised, stop_consume, cancelled_error, system_exit, isinstance, exception,
}
use faststream.Value.{int, null}
use faststream.Context.{enter, exit}
use faststream.Response.{plain, Returned}
use faststream.Exec.{Exec, pure, raise}
use faststream.Exec.Keeps.{Keeps-raise, Keeps-pure}
use faststream.Runtime.{World}
use faststream.Runtime.Frames.{Frame, IsQuiet, Keeps-modify, on_message-Frame}
use faststream.Runtime.{with_lock, with_scope, with_message_scope, enter_message_scope}
use faststream.Middleware.{Middleware, enter_all, within}
use faststream.Middleware.Logging.{logging_middleware}
use faststream.Middleware.Acknowledgement.{acknowledgement_middleware, instance_at}
use faststream.Middleware.Acknowledgement.{base_driver, Options}
use faststream.Message.{AckStatus, set_decoder}
use faststream.Message.Commit.{settle}
use faststream.Subscriber.{
  HandlerItem, process_message, consume, try_calls, build_middlewares_stack, is_suitable, call,
  handle, cached_message, scoped, consume_scopes,
}
use faststream.Subscriber.Frames.{QuietApp, QuietItem}
use faststream.Subscriber.Isolation.{process_message-Frame}
use faststream.Subscriber.Outcomes.{consume-escapes, consume-stops}
use faststream.Subscriber.Selection.{Ending, Search, try_calls-Ending, carry_out}
use faststream.Subscriber.Onion.{call-onion, onion}
use faststream.Tests.{
  idle, parse, handler_that, subscriber_of, refusing, answering, stopping, cancelling,
}

handler_that-Quiet : (r : Result Returned) (b : Bool) → QuietItem (handler_that r b)
handler_that-Quiet r b = record {
  filter = λ m. record { at = λ w. Keeps-pure b };
  handler = λ m. record {
    at = λ w. record { at = λ v p. record { lock = p.lock; scope = p.scope; same = p.same } };
  };
  publishers = tt;
}

base_driver-Quiet :
    (status : AckStatus) (options : Options) (i : ℕ)
    → IsQuiet ((base_driver {U = ℕ}).call status options i)
unfolding base_driver
base_driver-Quiet status [] i = record {
  at = λ w. Keeps-modify w _ (on_message-Frame i (settle status));
}
base_driver-Quiet status (_ ∷ _) i = record { at = λ w. Keeps-raise _ }

subscriber_of-Quiet :
    (calls : List (HandlerItem ℕ)) → All QuietItem calls → QuietApp (subscriber_of calls)
subscriber_of-Quiet calls q = record {
  parse = λ p raw. record { at = λ w. Keeps-pure raw };
  driver = base_driver-Quiet;
  middlewares = tt;
  calls = q;
  replies = λ m. tt;
}

cancelled_out :
    (consume (subscriber_of (refusing ∷ cancelling ∷ [])) 0 idle).0 ≡ err (raised cancelled_error)
unfolding consume process_message with_lock with_scope with_message_scope enter_message_scope
    enter_all build_middlewares_stack enter exit acknowledgement_middleware logging_middleware
    instance_at within scoped try_calls handle is_suitable call cached_message
    faststream.Prelude.lookup faststream.Middleware.Acknowledgement.consume_scope
    faststream.Middleware.Logging.consume_scope faststream.Middleware.Logging.begin
    faststream.Runtime.on_message set_decoder faststream.Middleware.Logging.aexit
    faststream.Middleware.Acknowledgement.aexit faststream.Prelude.insert
cancelled_out = refl

stopped_out : (process_message (subscriber_of (stopping ∷ [])) 0 idle).0 ≡ err (raised stop_consume)
unfolding process_message with_lock with_scope with_message_scope enter_message_scope enter_all
    build_middlewares_stack enter exit acknowledgement_middleware logging_middleware instance_at
    within scoped try_calls handle is_suitable call cached_message faststream.Prelude.lookup
    faststream.Middleware.Acknowledgement.consume_scope faststream.Middleware.Logging.consume_scope
    faststream.Middleware.Logging.begin faststream.Runtime.on_message set_decoder
    faststream.Middleware.Logging.aexit faststream.Middleware.Acknowledgement.aexit
    faststream.Prelude.insert faststream.Middleware.Acknowledgement.settle_message base_driver
stopped_out = refl

abbrev asked : World ℕ
asked = (is_suitable parse refusing 0 [] idle).1

asked_out : is_suitable parse refusing 0 [] idle ≡ (ok (none, (1, 0) ∷ []), asked)
unfolding is_suitable cached_message
asked_out = refl

abbrev broken_parse : ℕ → ℕ → Exec (World ℕ) ℕ
broken_parse p raw = raise (raised cancelled_error)

abbrev scaling : ℕ → Middleware ℕ Returned
scaling n = record {
  on_enter = pure tt;
  on_exit = λ outcome. pure false;
  consume_scope = λ call_next msg w. call_next msg (record w { user = n * w.user + 1 });
  publish_scope = λ call_next cmd. call_next cmd;
}

abbrev outer : Middleware ℕ Returned
outer = scaling 2

abbrev inner : Middleware ℕ Returned
inner = scaling 3

process_message-Frame_example :
    Frame idle (process_message (subscriber_of (refusing ∷ answering ∷ [])) 0 idle).1
process_message-Frame_example =
    process_message-Frame (subscriber_of (refusing ∷ answering ∷ []))
      (subscriber_of-Quiet (refusing ∷ answering ∷ []) (
        handler_that-Quiet (ok (plain null)) false,
        (handler_that-Quiet (ok (plain (int 7))) true, tt),
      ))
      0 idle

consume-escapes_example :
    (isinstance (raised cancelled_error) exception ≡ false)
    × (isinstance (raised cancelled_error) system_exit ≡ false)
consume-escapes_example =
    consume-escapes (subscriber_of (refusing ∷ cancelling ∷ [])) (λ w. refl) 0 idle
      (raised cancelled_error) cancelled_out

consume-stops_example :
    consume (subscriber_of (stopping ∷ [])) 0 (consume (subscriber_of (stopping ∷ [])) 0 idle).1
    ≡ (ok none, (consume (subscriber_of (stopping ∷ [])) 0 idle).1)
consume-stops_example =
    consume-stops (subscriber_of (stopping ∷ [])) (λ w. refl) 0 idle refl (raised stop_consume)
      stopped_out refl 0

try_calls-Ending_example :
    (e : Ending ℕ) × (w' : World ℕ) × Search
      (subscriber_of (refusing ∷ answering ∷ []))
      0
      (refusing ∷ answering ∷ [])
      []
      idle
      e
      w'
    × (try_calls
          (subscriber_of (refusing ∷ answering ∷ []))
          (refusing ∷ answering ∷ [])
          0
          []
          []
          idle
        ≡ carry_out (subscriber_of (refusing ∷ answering ∷ [])) 0 [] e w')
try_calls-Ending_example =
    try_calls-Ending (subscriber_of (refusing ∷ answering ∷ [])) 0 [] (refusing ∷ answering ∷ []) []
      idle

call-onion_example :
    call answering 0 (consume_scopes (outer ∷ inner ∷ []))
    ≡ onion (outer ∷ inner ∷ []) answering.handler 0
call-onion_example = call-onion answering 0 (outer ∷ inner ∷ [])
