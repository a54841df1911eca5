-- ===== src/Settling/RedisMessage.antt =====
-- redis/message.py: messages of a stream. Only `ack` tells the server something, and only where it
-- is given a client and a group.
pub mod Once
use faststream.Prelude.{ℕ, Bool, true, false, Option, none, some, List, [], ◌∷◌, ◌&&◌, String}
use faststream.Message.{AckStatus, acked, ack, nack, reject}
use faststream.Exec.{Exec, pure, continue, ◌>>=◌, ◌>>◌}
use faststream.Settling.{Delivery, Client, call, call_if, on, is_open}

-- The identifiers are those of all entries of the message.
pub data RedisCall : Type 0 where
  -- of a group
  xack : String → List ℕ → RedisCall
  xdel : List ℕ → RedisCall

-- What the application and the middleware call on a message: with a client or without, and with a
-- group or without.
pub data Operation : Type 0 where
  acks nacks rejects : Bool → Option String → Operation
  deletes : Bool → Operation

abbrev pub given : Option String → Bool
given none = false
given (some g) = true

abbrev times : Option ℕ → ℕ
times none = 1
times (some n) = n

-- get_delivery_count, where `pending` is what the pending list says of an identifier: how often it
-- was delivered.
unfoldable pub get_delivery_count : (ℕ → Option ℕ) → List ℕ → ℕ
get_delivery_count pending [] = 1
get_delivery_count pending (message_id ∷ _) = times (pending message_id)

module _ (client : Client RedisCall) (message_ids : List ℕ) where
  abbrev xack_if : Bool → Option String → Exec (Delivery RedisCall) (Unit {0})
  xack_if wanted none = pure tt
  xack_if wanted (some group) = call_if client wanted (xack group message_ids)

  unfoldable pub ack_message : Bool → Option String → Exec (Delivery RedisCall) (Unit {0})
  ack_message redis group = do (λ d. xack_if (is_open d.message.committed && redis) group d); on ack

  unfoldable pub nack_message : Bool → Option String → Exec (Delivery RedisCall) (Unit {0})
  nack_message redis group = on nack

  unfoldable pub reject_message : Bool → Option String → Exec (Delivery RedisCall) (Unit {0})
  reject_message redis group = on reject

  unfoldable pub delete : Bool → Exec (Delivery RedisCall) (Unit {0})
  delete redis = call_if client redis (xdel message_ids)

  unfoldable pub operation : Operation → Exec (Delivery RedisCall) (Unit {0})
  unfolding ack_message nack_message reject_message delete
  operation (acks redis group) = ack_message redis group
  operation (nacks redis group) = nack_message redis group
  operation (rejects redis group) = reject_message redis group
  operation (deletes redis) = delete redis

-- The status that a call gives the message on the server.
abbrev pub status_of : RedisCall → Option AckStatus
status_of (xack group ids) = some acked
status_of (xdel ids) = none
