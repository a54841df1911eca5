-- ===== src/Tests/Delivering.antt =====
-- Two queues on an exchange by headers, and one on another exchange.
use faststream.Prelude.{ℕ, ◌≡◌, refl, [], List, ◌∷◌, ◌++◌, any, false}
use faststream.Text.{Text}
use faststream.Exceptions.{ok}
use faststream.Exec.{Exec}
use faststream.Rabbit.Testing.{
  direct, headers, Headers, RabbitSubscriber, x_match, any_rule, publish_each, request_first,
}
use faststream.Rabbit.Delivery.{
  is_for, chosen, execute_all, execute_first, or_not_found, publish_each-delivered,
}

-- "a", "b" and "logs"
abbrev a : Text
a = 97 ∷ []

abbrev b : Text
b = 98 ∷ []

abbrev logs : Text
logs = 108 ∷ 111 ∷ 103 ∷ 115 ∷ []

abbrev bound : Headers → RabbitSubscriber
bound arguments = record {
  exchange_name = logs;
  exchange_type = headers;
  routing = [];
  bind_arguments = arguments;
}

abbrev elsewhere : RabbitSubscriber
elsewhere = record { exchange_name = b; exchange_type = direct; routing = a; bind_arguments = [] }

abbrev queues : List RabbitSubscriber
queues =
    bound ((x_match, any_rule) ∷ (a, a) ∷ (b, b) ∷ [])
    ∷ elsewhere
    ∷ bound ((a, a) ∷ (b, b) ∷ [])
    ∷ []

-- The state is the list of the queues whose handlers were executed, by the number of their headers.
abbrev noted : RabbitSubscriber → Exec (List Headers) ℕ
noted h s = (ok 0, s ++ h.bind_arguments ∷ [])

abbrev sent : Headers
sent = (a, a) ∷ (b, a) ∷ []

publish_each-delivered_example :
    (publish_each noted a sent logs false queues []
      ≡ or_not_found a sent logs noted
          (any (is_for a sent logs) queues)
          (execute_all a sent logs noted (chosen a sent logs queues))
          [])
    × (request_first noted a sent logs queues []
        ≡ execute_first a sent logs noted (chosen a sent logs queues) [])
publish_each-delivered_example =
    publish_each-delivered a sent logs noted queues [] (refl, (refl, (refl, tt)))
