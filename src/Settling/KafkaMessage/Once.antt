-- ===== src/Settling/KafkaMessage/Once.antt =====
-- A Kafka message is committed or sought back once, and its object says which.
use faststream.Prelude.{◌≡◌, refl, true, false, none, some, List, [], ◌∷◌, arith}
use faststream.Message.{StreamMessage, ack, nack}
use faststream.Settling.{Delivery, Client, call, run, told, settled_as, settled_as-snoc}
use faststream.Settling.KafkaMessage.{
  KafkaCall, Operation, Place, acks, rejects, nacks, status_of, operation, operation_confluent,
  commit, seek_back, init_ackable, init_confluent,
}

abbrev Agrees : Delivery KafkaCall → Type 0
Agrees d = settled_as status_of d.returned ≡ told d.message.committed

module _ (client : Client KafkaCall) (place : Place) where
  operation-Agrees :
      (o : Operation) (d : Delivery KafkaCall) → Agrees d → Agrees (operation client place o d).1
  unfolding operation call ack nack
  operation-Agrees acks d h = ground (arith, settled_as-snoc status_of d.returned commit)
  operation-Agrees rejects d h = ground (arith, settled_as-snoc status_of d.returned commit)
  operation-Agrees nacks d h =
      ground (arith, settled_as-snoc status_of d.returned (seek_back place))

  confluent-Agrees :
      (o : Operation) (d : Delivery KafkaCall)
      → Agrees d
      → Agrees (operation_confluent client true (some place) o d).1
  unfolding operation_confluent call ack nack
  confluent-Agrees acks d h = ground (arith, settled_as-snoc status_of d.returned commit)
  confluent-Agrees rejects d h = ground (arith, settled_as-snoc status_of d.returned commit)
  confluent-Agrees nacks d h =
      ground (arith, settled_as-snoc status_of d.returned (seek_back place))

  run-keeps :
      (os : List Operation) (d : Delivery KafkaCall)
      → Agrees d
      → Agrees (run (operation client place) os d)
        × Agrees (run (operation_confluent client true (some place)) os d)
  unfolding run
  run-keeps [] d h = (h, h)
  run-keeps (o ∷ os) d h = (
    (run-keeps os (operation client place o d).1 (operation-Agrees o d h)).0,
    (run-keeps os (operation_confluent client true (some place) o d).1 (confluent-Agrees o d h)).1,
  )

abbrev pub new : StreamMessage → Delivery KafkaCall
new m = record { message = m; marked = false; made = []; returned = [] }

-- Whatever is called on a new message of a consumer that commits by hand, in any order, and
-- whichever calls to the consumer raise: of the commits and seeks that returned there is at most
-- one, and it is what the status of the message object says. So it is for aiokafka, and for
-- confluent where the message has a place.
pub run-committed :
    (client : Client KafkaCall) (place : Place) (os : List Operation) (m : StreamMessage)
    → m.committed ≡ none
    → Agrees (run (operation client place) os (new (init_ackable m)))
      × Agrees (run (operation_confluent client true (some place)) os (new (init_confluent true m)))
unfolding init_ackable init_confluent
run-committed client place os m h =
    ((run-keeps client place os _ refl).0, (run-keeps client place os _ (ground arith)).1)
