-- ===== src/Rabbit/Testing.antt =====
-- rabbit/testing.py, FakeProducer: which subscribers of the in-memory broker get a message.
use faststream.Prelude.{Bool, true, false, ◌||◌, Option, none, some, List, [], ◌∷◌, if◌then◌else◌}
use faststream.Text.{Text, same_text}
use faststream.Exceptions.{Result, ok, err, raised, assertion_error, subscriber_not_found}
use faststream.Exec.{Exec, continue}
use faststream.Rabbit.{apply_pattern}

-- The types of exchanges that the broker tells apart, and any other.
pub data ExchangeType : Type 0 where
  direct fanout topic headers other : ExchangeType

-- Headers with texts as their values.
abbrev pub Headers : Type 0
Headers = List (Text × Text)

pub record RabbitSubscriber : Type 0 where
  pub exchange_name : Text
  pub exchange_type : ExchangeType
  pub routing : Text
  pub bind_arguments : Headers

-- dict.get
abbrev pub get_header : Text → Headers → Option Text
get_header key [] = none
get_header key ((k, v) ∷ more) = if same_text k key then some v else get_header key more

-- dict.pop with a default
abbrev pub pop_header : Text → Text → Headers → Text × Headers
pop_header key default [] = (default, [])
pop_header key default ((k, v) ∷ more) =
    let (found, left) = pop_header key default more in
    if same_text k key then (v, more) else (found, (k, v) ∷ left)

-- headers.get(k) == v
abbrev is_given : Option Text → Text → Bool
is_given none v = false
is_given (some w) v = same_text w v

abbrev pub agrees : Headers → Text × Text → Bool
agrees given (k, v) = is_given (get_header k given) v

-- the loop over the headers of the queue, with `full_match` and `is_headers_empty`
unfoldable pub match_headers : Headers → Bool → Bool → Headers → Bool × Bool
match_headers given full_match is_headers_empty [] = (full_match, is_headers_empty)
match_headers given full_match is_headers_empty (pair ∷ more) =
    let agreed = match_headers given full_match false more in
    let differs = match_headers given false is_headers_empty more in
    if agrees given pair then agreed else differs

-- "x-match", "all" and "any"
abbrev pub x_match : Text
x_match = 120 ∷ 45 ∷ 109 ∷ 97 ∷ 116 ∷ 99 ∷ 104 ∷ []

abbrev pub all_rule : Text
all_rule = 97 ∷ 108 ∷ 108 ∷ []

abbrev pub any_rule : Text
any_rule = 97 ∷ 110 ∷ 121 ∷ []

-- the branch of the headers exchange
unfoldable pub headers_match : Headers → Headers → Bool
unfolding match_headers
headers_match given [] = true
headers_match given (pair ∷ more) =
    let (match_rule, queue_headers) = pop_header x_match all_rule (pair ∷ more) in
    let (full_match, is_headers_empty) = match_headers given true true queue_headers in
    if is_headers_empty then false else full_match || same_text match_rule any_rule

abbrev pub by_type : ExchangeType → RabbitSubscriber → Text → Headers → Result Bool
by_type direct handler routing_key given = ok (same_text handler.routing routing_key)
by_type fanout handler routing_key given = ok true
by_type topic handler routing_key given = ok (apply_pattern handler.routing routing_key)
by_type headers handler routing_key given = ok (headers_match given handler.bind_arguments)
by_type other handler routing_key given = err (raised assertion_error)

-- _is_handler_matches
unfoldable pub is_handler_matches : RabbitSubscriber → Text → Headers → Text → Result Bool
is_handler_matches handler routing_key given exchange_name =
    if same_text handler.exchange_name exchange_name
    then by_type handler.exchange_type handler routing_key given
    else ok false

module _ {S A : Type 0} (execute_handler : RabbitSubscriber → Exec S A) where
  -- publish, on a message with this key and these headers
  unfoldable pub publish_each :
      Text → Headers → Text → Bool → List RabbitSubscriber → Exec S (Unit {0})
  publish_each routing_key given exchange called [] s =
      if called then (ok tt, s) else (err (raised subscriber_not_found), s)
  publish_each routing_key given exchange called (h ∷ subscribers) s =
      let not_for_it = publish_each routing_key given exchange called subscribers in
      let for_it = publish_each routing_key given exchange true subscribers in
      elim (is_handler_matches h routing_key given exchange) [
        | err e ↦ (err e, s)
        | ok matches ↦
            if matches
            then continue (execute_handler h s).0 (λ _. for_it) (execute_handler h s).1
            else not_for_it s
      ]

  -- request
  unfoldable pub request_first : Text → Headers → Text → List RabbitSubscriber → Exec S A
  request_first routing_key given exchange [] s = (err (raised subscriber_not_found), s)
  request_first routing_key given exchange (h ∷ subscribers) s =
      let rest = request_first routing_key given exchange subscribers in
      elim (is_handler_matches h routing_key given exchange) [
        | err e ↦ (err e, s)
        | ok matches ↦ if matches then execute_handler h s else rest s
      ]
