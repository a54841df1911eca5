-- ===== src/Settling/KafkaMessage.antt =====
-- kafka/message.py and confluent/message.py: messages of a consumer that commits by hand, and of
-- one that does not.
pub mod Once
use faststream.Prelude.{ℕ, Bool, true, false, Option, none, some, List, [], ◌∷◌, ◌&&◌, String}
use faststream.Message.{AckStatus, StreamMessage, acked, nacked, rejected, ack, nack, reject}
use faststream.Exec.{Exec, pure, continue, ◌>>=◌, ◌>>◌}
use faststream.Settling.{Delivery, Client, call, call_if, on, is_open}

pub data KafkaCall : Type 0 where
  commit : KafkaCall
  -- topic, partition and offset
  seek : String → ℕ → ℕ → KafkaCall

-- What the application calls on a message.
pub data Operation : Type 0 where
  acks rejects nacks : Operation

-- Where the raw message stands, of a batch the first one. The confluent client may not know.
pub record Place : Type 0 where
  pub topic : String
  pub partition : ℕ
  pub offset : ℕ

-- KafkaMessage.__init__: the message counts as acknowledged.
unfoldable pub init_message : StreamMessage → StreamMessage
init_message m = record m { committed = some acked }

-- KafkaAckableMessage.__init__
unfoldable pub init_ackable : StreamMessage → StreamMessage
unfolding init_message
init_ackable m = record (init_message m) { committed = none }

-- KafkaMessage.__init__ of confluent
unfoldable pub init_confluent : Bool → StreamMessage → StreamMessage
init_confluent true m = m
init_confluent false m = record m { committed = some acked }

module _ (client : Client KafkaCall) where
  abbrev pub unless_committed : Bool → KafkaCall → Exec (Delivery KafkaCall) (Unit {0})
  unless_committed is_manual c d = call_if client (is_manual && is_open d.message.committed) c d

abbrev pub seek_back : Place → KafkaCall
seek_back p = seek p.topic p.partition p.offset

module _ (client : Client KafkaCall) (place : Place) where
  -- KafkaAckableMessage
  unfoldable pub ack_message : Exec (Delivery KafkaCall) (Unit {0})
  ack_message = do unless_committed client true commit; on ack

  unfoldable pub reject_message : Exec (Delivery KafkaCall) (Unit {0})
  unfolding ack_message
  reject_message = ack_message

  unfoldable pub nack_message : Exec (Delivery KafkaCall) (Unit {0})
  nack_message = do unless_committed client true (seek_back place); on nack

  unfoldable pub operation : Operation → Exec (Delivery KafkaCall) (Unit {0})
  unfolding ack_message reject_message nack_message
  operation acks = ack_message
  operation rejects = reject_message
  operation nacks = nack_message

module _ (client : Client KafkaCall) (is_manual : Bool) where
  -- KafkaMessage of confluent
  unfoldable pub ack_confluent : Exec (Delivery KafkaCall) (Unit {0})
  ack_confluent = do unless_committed client is_manual commit; on ack

  seek_if_known : Option Place → Exec (Delivery KafkaCall) (Unit {0})
  seek_if_known none = pure tt
  seek_if_known (some p) = unless_committed client is_manual (seek_back p)

  unfoldable pub nack_confluent : Option Place → Exec (Delivery KafkaCall) (Unit {0})
  unfolding seek_if_known
  nack_confluent place = do seek_if_known place; on nack

  unfoldable pub operation_confluent :
      Option Place → Operation → Exec (Delivery KafkaCall) (Unit {0})
  unfolding ack_confluent nack_confluent
  operation_confluent place acks = ack_confluent
  operation_confluent place rejects = ack_confluent
  operation_confluent place nacks = nack_confluent place

-- The status that a call gives the message on the side of the broker.
abbrev pub status_of : KafkaCall → Option AckStatus
status_of commit = some acked
status_of (seek topic partition offset) = some nacked
