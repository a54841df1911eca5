-- ===== src/Subscriber.antt =====
-- _internal/endpoint/subscriber/usecase.py and call_item.py: how a subscriber consumes one message.
-- Handlers run outside of the test mode, where `trigger` does nothing.
pub mod Onion
pub mod Selection
pub mod Frames
pub mod Isolation
pub mod Outcomes
use faststream.Prelude.{
  ℕ, String, Bool, true, false, Option, none, some, List, [], ◌∷◌, ◌++◌, reverse, map, ◌==◌, str_eq,
  get_elem?, if◌then◌else◌,
}
use faststream.Exceptions.{
  Exc, Result, ok, err, raised, isinstance, exception, system_exit, stop_consume, setup_error,
  subscriber_not_found,
}
use faststream.Value.{Value, message, null}
use faststream.Context.{Slot, get}
use faststream.Message.{StreamMessage, set_decoder, str_or}
use faststream.Response.{
  Response, Returned, plain, ensure_response, PublishCommand, as_publish_command,
}
use faststream.Runtime.{
  World, on_message, with_scope, with_lock, with_message_scope, enter_message_scope,
}
use faststream.Exec.{Exec, pure, raise, gets, modify, attempt, continue, ◌>>=◌, ◌>>◌}
use faststream.Middleware.{Middleware, enter_all}
use faststream.Middleware.Acknowledgement.{AckPolicy, Options, Driver, acknowledgement_middleware}
use faststream.Middleware.Logging.{logging_middleware}
use faststream.Middleware.ExceptionHandlers.{is_set}

abbrev pub Publish : Type 0 → Type 0
Publish U = PublishCommand → Exec (World U) Value

-- A publisher carries out a command under the publish scopes that it is given.
pub record Publisher (U : Type 0) : Type 0 where
  pub publish : List (Publish U → Publish U) → Publish U

-- Parsers and decoders are known by their numbers. `filter` and `handler` are functions of the
-- application, on the number of a message.
pub record HandlerItem (U : Type 0) : Type 0 where
  pub parser : Option ℕ
  pub decoder : Option ℕ
  pub filter : ℕ → Exec (World U) Bool
  pub handler : ℕ → Exec (World U) Returned
  pub publishers : List (Publisher U)

pub record Subscriber (U : Type 0) : Type 0 where
  pub calls : List (HandlerItem U)
  pub parse : ℕ → ℕ → Exec (World U) ℕ
  pub driver : Driver U
  pub no_reply : Bool
  pub auto_ack_disabled : Bool
  pub ack_policy : AckPolicy
  pub extra_watcher_options : Options
  pub broker_middlewares : List (ℕ → Exec (World U) (Middleware U Returned))
  -- the scope of every message: "handler_", "logger" and the extra context
  pub outer_items : List (String × Slot)
  pub get_log_context : ℕ → Value
  pub make_response_publisher : ℕ → List (Publisher U)
  -- what `stop` does after `running` is reset
  pub wait_release : Exec (World U) (Unit {0})

abbrev Cache : Type 0
Cache = List (ℕ × ℕ)

unfoldable pub cached_message : ℕ → List (ℕ × ℕ) → Option ℕ
cached_message p [] = none
cached_message p ((q, m) ∷ cache) = if q == p then some m else cached_message p cache

-- for middleware in scopes: call = partial(middleware, call)
unfoldable pub scoped : {C : Type 0} → List (C → C) → C → C
scoped [] call = call
scoped (scope ∷ scopes) call = scoped scopes (scope call)

-- The two texts that the code reads of a message; of no message they are empty.
abbrev reply_to_of : Option StreamMessage → String
reply_to_of none = ""
reply_to_of (some m) = m.reply_to

abbrev correlation_id_of : Option StreamMessage → String
correlation_id_of none = ""
correlation_id_of (some m) = m.correlation_id

-- if not result_msg.correlation_id: result_msg.correlation_id = message.correlation_id
unfoldable pub with_correlation_id : String → Response → Response
with_correlation_id c r = record r { correlation_id = some (str_or r.correlation_id c) }

-- An outcome of `none` is an exception that a middleware suppressed.
abbrev pub or_empty : Option Response → Response
or_empty none = ensure_response (plain null)
or_empty (some r) = r

module _ {U : Type 0} where
  -- cache.get(parser) or await parser(msg)
  parse_cached : (ℕ → ℕ → Exec (World U) ℕ) → ℕ → ℕ → Option ℕ → Exec (World U) ℕ
  parse_cached parse parser raw (some m) = pure m
  parse_cached parse parser raw none = parse parser raw

  filtered :
      (ℕ → ℕ → Exec (World U) ℕ)
      → HandlerItem U
      → ℕ
      → ℕ
      → ℕ
      → List (ℕ × ℕ)
      → Exec (World U) (Option ℕ × List (ℕ × ℕ))
  unfolding parse_cached
  filtered parse h parser decoder raw cache = do
    m ← parse_cached parse parser raw (cached_message parser cache)
    modify (on_message m (set_decoder decoder))
    suitable ← h.filter m
    pure ((if suitable then some m else none), (parser, m) ∷ cache)

  set_up :
      (ℕ → ℕ → Exec (World U) ℕ)
      → HandlerItem U
      → ℕ
      → List (ℕ × ℕ)
      → Option ℕ
      → Option ℕ
      → Exec (World U) (Option ℕ × List (ℕ × ℕ))
  unfolding filtered
  set_up parse h raw cache (some parser) (some decoder) = filtered parse h parser decoder raw cache
  set_up parse h raw cache _ _ = raise (raised setup_error)

  -- HandlerItem.is_suitable: the message if it passes the filter, and the cache
  unfoldable pub is_suitable :
      (ℕ → ℕ → Exec (World U) ℕ)
      → HandlerItem U
      → ℕ
      → List (ℕ × ℕ)
      → Exec (World U) (Option ℕ × List (ℕ × ℕ))
  unfolding set_up
  is_suitable parse h raw cache = set_up parse h raw cache h.parser h.decoder

  -- HandlerItem.call; `_extra_middlewares` are the consume scopes, innermost first
  unfoldable pub call :
      HandlerItem U
      → ℕ
      → List ((ℕ → Exec (World U) Returned) → ℕ → Exec (World U) Returned)
      → Exec (World U) Returned
  call h m extra_middlewares = scoped extra_middlewares h.handler m

  abbrev pub consume_scopes :
      List (Middleware U Returned)
      → List ((ℕ → Exec (World U) Returned) → ℕ → Exec (World U) Returned)
  consume_scopes ms = map (λ m. m.consume_scope) (reverse ms)

  abbrev publish_scopes : List (Middleware U Returned) → List (Publish U → Publish U)
  publish_scopes ms = map (λ m. m.publish_scope) (reverse ms)

  unfoldable pub publish_all :
      List (Publisher U) → Response → List (Publish U → Publish U) → Exec (World U) (Unit {0})
  publish_all [] result scopes = pure tt
  publish_all (p ∷ ps) result scopes = do
    p.publish scopes (as_publish_command result)
    publish_all ps result scopes

  unfoldable pub get_response_publisher : Subscriber U → ℕ → String → List (Publisher U)
  get_response_publisher s m reply_to =
      if str_eq reply_to "" then [] else if s.no_reply then [] else s.make_response_publisher m

  -- the block under `if message is not None`
  unfoldable pub handle :
      Subscriber U
      → HandlerItem U
      → ℕ
      → List (Middleware U Returned)
      → Exec (World U) (Option Response)
  unfolding call get_response_publisher publish_all with_correlation_id
  handle s h m middlewares = do
    enter_message_scope
        (("log_context", some (s.get_log_context m)) ∷ ("message", some (message m)) ∷ [])
    returned ← call h m (consume_scopes middlewares)
    sent ← gets (λ w. get_elem? w.messages m)
    result ← pure (with_correlation_id (correlation_id_of sent) (ensure_response returned))
    publish_all (get_response_publisher s m (reply_to_of sent) ++ h.publishers) result
        (publish_scopes middlewares)
    pure (some result)

  -- the loop over `self.calls`; a parsing error ends it and is raised again behind it
  unfoldable pub try_calls :
      Subscriber U
      → List (HandlerItem U)
      → ℕ
      → List (ℕ × ℕ)
      → List (Middleware U Returned)
      → Exec (World U) (Option Response)
  try_calls s [] raw cache middlewares = raise (raised subscriber_not_found)
  try_calls s (h ∷ hs) raw cache middlewares = do
    found ← is_suitable s.parse h raw cache
    elim found.0 [
      | some m ↦ handle s h m middlewares
      | none ↦ try_calls s hs raw found.1 middlewares
    ]

  -- __build__middlewares_stack
  unfoldable pub build_middlewares_stack :
      Subscriber U → List (ℕ → Exec (World U) (Middleware U Returned))
  build_middlewares_stack s =
      if s.auto_ack_disabled
      then logging_middleware ∷ s.broker_middlewares
      else acknowledgement_middleware s.driver s.extra_watcher_options s.ack_policy
        ∷ logging_middleware
        ∷ s.broker_middlewares

  unfoldable pub process_message : Subscriber U → ℕ → Exec (World U) Response
  unfolding build_middlewares_stack try_calls
  process_message s raw = do
    result ← with_lock (
        with_scope s.outer_items (
          with_message_scope (
            enter_all (build_middlewares_stack s) raw []
              (λ middlewares. try_calls s s.calls raw [] middlewares))))
    pure (or_empty result)

  unfoldable pub stop : Subscriber U → Exec (World U) (Unit {0})
  stop s = do modify (λ w. record w { running = false }); s.wait_release

  exit_application : Subscriber U → Exec (World U) (Unit {0})
  exit_application s = do
    app ← gets (λ w. get "app" none w.context)
    (if is_set app then modify (λ w. record w { exit_requested = true }) else pure tt)

  after_message : Subscriber U → Result Response → Exec (World U) (Option Response)
  unfolding exit_application
  after_message s (ok r) = pure (some r)
  after_message s (err e) =
      if isinstance e stop_consume
      then (do stop s; pure none)
      else if isinstance e system_exit
      then (do stop s; exit_application s; pure none)
      else if isinstance e exception
      then pure none
      else raise e

  unfoldable pub consume : Subscriber U → ℕ → Exec (World U) (Option Response)
  unfolding after_message
  consume s raw w =
      if w.running
      then (do outcome ← attempt (process_message s raw); after_message s outcome) w
      else (ok none, w)
