-- ===== src/Settling/RabbitMessage.antt =====
-- rabbit/message.py: RabbitMessage. `locked` of the raw message is its mark.
pub mod Once
use faststream.Prelude.{Bool, true, false, not, Option, none, some, List, [], ◌∷◌}
use faststream.Message.{AckStatus, acked, nacked, rejected, ack, nack, reject}
use faststream.Exec.{Exec, pure, continue, ◌>>=◌, ◌>>◌}
use faststream.Settling.{Delivery, Client, call, call_if, on}

-- With the options `multiple` and `requeue`.
pub data RabbitCall : Type 0 where
  call_ack : Bool → RabbitCall
  call_nack : Bool → Bool → RabbitCall
  call_reject : Bool → RabbitCall

module _ (client : Client RabbitCall) where
  abbrev pub unless_locked : RabbitCall → Exec (Delivery RabbitCall) (Unit {0})
  unless_locked c d = call_if client (not d.marked) c d

  unfoldable pub ack_message : Bool → Exec (Delivery RabbitCall) (Unit {0})
  ack_message multiple = do on ack; unless_locked (call_ack multiple)

  unfoldable pub nack_message : Bool → Bool → Exec (Delivery RabbitCall) (Unit {0})
  nack_message multiple requeue = do on nack; unless_locked (call_nack multiple requeue)

  unfoldable pub reject_message : Bool → Exec (Delivery RabbitCall) (Unit {0})
  reject_message requeue = do on reject; unless_locked (call_reject requeue)

  -- What the application calls on a message, by the call that it leads to.
  unfoldable pub operation : RabbitCall → Exec (Delivery RabbitCall) (Unit {0})
  unfolding ack_message nack_message reject_message
  operation (call_ack multiple) = ack_message multiple
  operation (call_nack multiple requeue) = nack_message multiple requeue
  operation (call_reject requeue) = reject_message requeue

-- The status that a call gives the message on the server.
abbrev pub status : RabbitCall → AckStatus
status (call_ack multiple) = acked
status (call_nack multiple requeue) = nacked
status (call_reject requeue) = rejected

abbrev pub status_of : RabbitCall → Option AckStatus
status_of c = some (status c)
