-- ===== src/Settling/NatsMessage.antt =====
-- nats/message.py: NatsMessage. `_ackd` of the raw message is its mark.
pub mod Once
use faststream.Prelude.{ℕ, Bool, true, false, not, Option, none, some, List, [], ◌∷◌}
use faststream.Message.{AckStatus, acked, nacked, rejected, ack, nack, reject}
use faststream.Exec.{Exec, pure, gets, continue, ◌>>=◌, ◌>>◌}
use faststream.Settling.{Delivery, Client, call, call_if, on}

pub data NatsCall : Type 0 where
  call_ack call_ack_sync call_term call_in_progress : NatsCall
  call_nak : Option ℕ → NatsCall

-- What the application calls on a message.
pub data Operation : Type 0 where
  acks acks_sync rejects progresses : Operation
  nacks : Option ℕ → Operation

module _ (client : Client NatsCall) where
  abbrev pub unless_ackd : NatsCall → Exec (Delivery NatsCall) (Unit {0})
  unless_ackd c d = call_if client (not d.marked) c d

  unfoldable pub ack_message : Exec (Delivery NatsCall) (Unit {0})
  ack_message = do unless_ackd call_ack; on ack

  unfoldable pub ack_sync : Exec (Delivery NatsCall) (Unit {0})
  ack_sync = do unless_ackd call_ack_sync; on ack

  unfoldable pub nack_message : Option ℕ → Exec (Delivery NatsCall) (Unit {0})
  nack_message delay = do unless_ackd (call_nak delay); on nack

  unfoldable pub reject_message : Exec (Delivery NatsCall) (Unit {0})
  reject_message = do unless_ackd call_term; on reject

  unfoldable pub in_progress : Exec (Delivery NatsCall) (Unit {0})
  in_progress = unless_ackd call_in_progress

  unfoldable pub operation : Operation → Exec (Delivery NatsCall) (Unit {0})
  unfolding ack_message ack_sync nack_message reject_message in_progress
  operation acks = ack_message
  operation acks_sync = ack_sync
  operation rejects = reject_message
  operation progresses = in_progress
  operation (nacks delay) = nack_message delay

-- The status that a call gives the message on the server.
abbrev pub status_of : NatsCall → Option AckStatus
status_of call_ack = some acked
status_of call_ack_sync = some acked
status_of call_term = some rejected
status_of call_in_progress = none
status_of (call_nak delay) = some nacked
