-- ===== src/Tests/Settling.antt =====
-- Messages whose first call to the client fails.
use faststream.Prelude.{◌≡◌, refl, true, false, none, some, List, [], ◌∷◌, arith}
use faststream.Exceptions.{Result, ok, err, raised, value_error}
use faststream.Message.{acked}
use faststream.Settling.{Delivery, Client, run, told, settled_as}
use faststream.Settling.NatsMessage as Nats
use faststream.Settling.NatsMessage.Once.{Marks, marks, run-settled}
use faststream.Settling.KafkaMessage as Kafka
use faststream.Settling.KafkaMessage.Once.{run-committed, new}
use faststream.Settling.RabbitMessage as Rabbit
use faststream.Settling.RabbitMessage.Once.{Locks, first_returned, run-first}
use faststream.Settling.RedisMessage as Redis
use faststream.Tests.{order}

-- The first call on each message fails.
abbrev answer : {C : Type 0} → List C → Result (Unit {0})
answer [] = err (raised value_error)
answer (_ ∷ _) = ok tt

abbrev fresh : {C : Type 0} → Delivery C
fresh = record { message = order; marked = false; made = []; returned = [] }

abbrev nats : Client Nats.NatsCall
nats made c = (answer made, marks (answer made) (Nats.status_of c))

nats-Marks : Marks nats
nats-Marks = record { at = λ made c. refl }

abbrev nats_calls : List Nats.Operation
nats_calls = Nats.acks ∷ Nats.progresses ∷ Nats.nacks none ∷ Nats.rejects ∷ []

run-settled_example :
    settled_as Nats.status_of (run (Nats.operation nats) nats_calls fresh).returned
    ≡ told (run (Nats.operation nats) nats_calls fresh).message.committed
run-settled_example = run-settled nats nats_calls fresh nats-Marks refl refl refl

abbrev plain : {C : Type 0} → Client C
plain made c = (answer made, false)

abbrev offset_seven : Kafka.Place
offset_seven = record { topic = "orders"; partition = 1; offset = 7 }

abbrev kafka_calls : List Kafka.Operation
kafka_calls = Kafka.acks ∷ Kafka.nacks ∷ Kafka.rejects ∷ []

abbrev aiokafka_end : Delivery Kafka.KafkaCall
aiokafka_end = run (Kafka.operation plain offset_seven) kafka_calls (new (Kafka.init_ackable order))

abbrev confluent_end : Delivery Kafka.KafkaCall
confluent_end =
    run (Kafka.operation_confluent plain true (some offset_seven)) kafka_calls
      (new (Kafka.init_confluent true order))

run-committed_example :
    (settled_as Kafka.status_of aiokafka_end.returned ≡ told aiokafka_end.message.committed)
    × (settled_as Kafka.status_of confluent_end.returned ≡ told confluent_end.message.committed)
run-committed_example = run-committed plain offset_seven kafka_calls order refl

abbrev locking : Client Rabbit.RabbitCall
locking made c = (answer made, elim (answer made) [ ok _ ↦ true | err _ ↦ false ])

locking-Locks : Locks locking
locking-Locks = record { at = λ made c. ground arith }

abbrev rabbit_calls : List Rabbit.RabbitCall
rabbit_calls = Rabbit.call_nack false true ∷ Rabbit.call_reject false ∷ []

abbrev rabbit_end : Delivery Rabbit.RabbitCall
rabbit_end = run (Rabbit.operation locking) (Rabbit.call_ack false ∷ rabbit_calls) fresh

-- The object says that it is acknowledged, and the server hears `nack`.
run-first_example :
    (rabbit_end.returned ≡ first_returned locking [] (Rabbit.call_ack false ∷ rabbit_calls))
    × (rabbit_end.message.committed ≡ some acked)
run-first_example =
    run-first locking (Rabbit.call_ack false) rabbit_calls fresh locking-Locks refl refl refl

abbrev redis_calls : List Redis.Operation
redis_calls =
    Redis.acks true (some "group") ∷ Redis.deletes true ∷ Redis.acks true (some "group") ∷ []
