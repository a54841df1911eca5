-- ===== src/Tests/Declaring.antt =====
-- An exchange that is declared while its binding fails, and one whose binding succeeds.
use faststream.Prelude.{ℕ, ◌≡◌, refl, true, false, none, List, [], length, ◌+◌, String}
use faststream.Exceptions.{Result, ok, err, raised, value_error}
use faststream.Rabbit.Declarer.{
  RabbitExchange, unbound, bound_to, ExchangeOptions, Request, bind, open_channel, set_qos,
  declare_queue_at, declare_exchange_at, State, get_channel, declare_exchange,
}
use faststream.Rabbit.Declarer.Binding.{declare_exchange-Grown}
use faststream.Rabbit.Declarer.Growth.{Grown}

abbrev named : String → ExchangeOptions
named name = record {
  name = name;
  type = 0;
  durable = true;
  auto_delete = false;
  arguments = 0;
  declare = true;
  routing_key = "";
  bind_arguments = 0;
}

abbrev logs : RabbitExchange
logs = bound_to (named "logs") (unbound (named "all"))

abbrev connected : State
connected = record {
  connected = true;
  default_channel = record { identity = 1; prefetch_count = 10 };
  channels = [];
  queues = [];
  exchanges = [];
  requests = [];
}

abbrev willing : List Request → Request → Result ℕ
willing made r = ok (length made)

abbrev no_binding : List Request → Request → Result ℕ
no_binding made (bind exch parent_obj key given) = err (raised value_error)
no_binding made (open_channel c) = ok (length made)
no_binding made (set_qos ch n) = ok (length made)
no_binding made (declare_queue_at ch q p) = ok (length made)
no_binding made (declare_exchange_at ch e p) = ok (length made)

abbrev own_default : ℕ → ℕ
own_default ch = 100 + ch

declare_exchange-Grown_example :
    Grown willing own_default connected
      (declare_exchange willing own_default logs none none connected).1
unfolding declare_exchange faststream.Rabbit.Declarer.same_exchange
declare_exchange-Grown_example =
    declare_exchange-Grown willing own_default logs none none connected 2 refl

abbrev opened : State
opened = (get_channel no_binding own_default none connected).1

abbrev half_declared : State
half_declared = (declare_exchange no_binding own_default logs none none connected).1

-- The first call raised.
half_declared_raised :
    (declare_exchange no_binding own_default logs none none connected).0 ≡ err (raised value_error)
unfolding declare_exchange faststream.Rabbit.Declarer.same_exchange
half_declared_raised = refl
