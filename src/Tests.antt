-- ===== src/Tests.antt =====
-- A small application, on which the theorems are tried: one subscriber with two handlers.
pub mod Consuming
pub mod Middlewares
pub mod Values
pub mod Formats
pub mod Routing
pub mod Members
pub mod Stopping
pub mod Supervising
pub mod Starting
pub mod Settling
pub mod Declaring
pub mod Endpoints
pub mod Addresses
pub mod Rewriting
pub mod Claiming
pub mod Delivering
pub mod Arguments
pub mod Recording
pub mod Streaming
pub mod Working
use faststream.Prelude.{
  ℕ, String, refl, Bool, true, false, Option, none, some, List, [], ◌∷◌, ◌==◌, ◌+◌,
}
use faststream.Exceptions.{
  Exc, Result, ok, err, raised, stop_consume, value_error, nack_message, builtin, cancelled_error,
}
use faststream.Value.{Value, null, int, str, message}
use faststream.Context.{ContextRepo, Slot}
use faststream.Message.{StreamMessage, AckStatus, acked, nacked, rejected, consume}
use faststream.Response.{Response, Returned, plain, PublishCommand}
use faststream.Exec.{Exec, pure, raise, modify, ◌>>=◌, ◌>>◌}
use faststream.Runtime.{World}
use faststream.Middleware.{Middleware}
use faststream.Middleware.Acknowledgement.{nack_on_error, base_driver}
use faststream.Subscriber.{Subscriber, HandlerItem, Publisher, Publish}

abbrev pub order : StreamMessage
order = record {
  raw_message = 0;
  body = str "order";
  reply_to = "";
  content_type = none;
  source_type = consume;
  headers = ("id", int 1) ∷ [];
  batch_headers = [];
  path = [];
  correlation_id = "c";
  message_id = "m";
  committed = none;
  processed = false;
  decoder = none;
  decoded_caches = [];
}

-- The state of the application is the number of its calls.
abbrev pub idle : World ℕ
idle = record {
  messages = order ∷ [];
  watched = [];
  sources = [];
  context = record {
    global_context = ("app", some (int 1)) ∷ [];
    scope_context = [];
    variables = 0;
    tokens = 0;
    unused = λ token. false;
  };
  message_scope = [];
  lock = 0;
  running = true;
  exit_requested = false;
  log = [];
  user = 0;
}

abbrev pub counting : {A : Type 0} → Result A → ℕ → Exec (World ℕ) A
counting r m w = (r, record w { user = w.user + 1 })

abbrev pub parse : ℕ → ℕ → Exec (World ℕ) ℕ
parse p raw = pure raw

abbrev pub handler_that : Result Returned → Bool → HandlerItem ℕ
handler_that r passes = record {
  parser = some 1;
  decoder = some 2;
  filter = λ m. pure passes;
  handler = counting r;
  publishers = [];
}

abbrev pub subscriber_of : List (HandlerItem ℕ) → Subscriber ℕ
subscriber_of calls = record {
  calls = calls;
  parse = parse;
  driver = base_driver;
  no_reply = false;
  auto_ack_disabled = false;
  ack_policy = nack_on_error;
  extra_watcher_options = [];
  broker_middlewares = [];
  outer_items = ("logger", some (int 5)) ∷ [];
  get_log_context = λ m. str "ctx";
  make_response_publisher = λ m. [];
  wait_release = pure tt;
}

abbrev pub refusing : HandlerItem ℕ
refusing = handler_that (ok (plain null)) false

abbrev pub answering : HandlerItem ℕ
answering = handler_that (ok (plain (int 7))) true

abbrev pub stopping : HandlerItem ℕ
stopping = handler_that (err (raised stop_consume)) true

abbrev pub cancelling : HandlerItem ℕ
cancelling = handler_that (err (raised cancelled_error)) true
