-- ===== src/Settling/NatsMessage/Once.antt =====
-- A NATS message is settled once, and its object says how.
use faststream.Prelude.{◌≡◌, true, false, Bool, Option, none, some, List, [], ◌∷◌, arith}
use faststream.Exceptions.{Result, ok, err}
use faststream.Message.{AckStatus, ack, nack, reject}
use faststream.Settling.{Delivery, Client, call, run, told, settled_as, settled_as-snoc}
use faststream.Settling.NatsMessage.{
  NatsCall, Operation, acks, acks_sync, rejects, progresses, nacks, status_of, operation, call_ack,
  call_ack_sync, call_term, call_in_progress, call_nak,
}

abbrev pub marks : Result (Unit {0}) → Option AckStatus → Bool
marks (ok _) (some _) = true
marks (ok _) none = false
marks (err _) _ = false

-- The raw message marks itself when a call that settles it returns, and not otherwise.
pub record Marks (client : Client NatsCall) : Type 0 where
  pub at :
      (made : List NatsCall) (c : NatsCall)
      → (client made c).1 ≡ marks (client made c).0 (status_of c)

abbrev is_settled : List AckStatus → Bool
is_settled [] = false
is_settled (_ ∷ _) = true

pub record Agrees (d : Delivery NatsCall) : Type 0 where
  pub mark : d.marked ≡ is_settled (settled_as status_of d.returned)
  pub status : settled_as status_of d.returned ≡ told d.message.committed

module _ (client : Client NatsCall) (marking : Marks client) where
  operation-Agrees :
      (o : Operation) (d : Delivery NatsCall) → Agrees d → Agrees (operation client o d).1
  unfolding operation call ack nack reject
  operation-Agrees acks d h =
      ground (arith, marking.at d.made call_ack, settled_as-snoc status_of d.returned call_ack)
  operation-Agrees acks_sync d h =
      ground
        (arith, marking.at d.made call_ack_sync, settled_as-snoc status_of d.returned call_ack_sync)
  operation-Agrees rejects d h =
      ground (arith, marking.at d.made call_term, settled_as-snoc status_of d.returned call_term)
  operation-Agrees progresses d h = ground (
    arith,
    marking.at d.made call_in_progress,
    settled_as-snoc status_of d.returned call_in_progress,
  )
  operation-Agrees (nacks delay) d h = ground (
    arith,
    marking.at d.made (call_nak delay),
    settled_as-snoc status_of d.returned (call_nak delay),
  )

  run-keeps :
      (os : List Operation) (d : Delivery NatsCall)
      → Agrees d
      → Agrees (run (operation client) os d)
  unfolding run
  run-keeps [] d h = h
  run-keeps (o ∷ os) d h = run-keeps os (operation client o d).1 (operation-Agrees o d h)

-- Whatever is called on a new NATS message, in any order, and whichever of the calls to the client
-- raise: the calls that returned settle the message at most once, and exactly as the status of
-- the message object says.
pub run-settled :
    (client : Client NatsCall) (os : List Operation) (d : Delivery NatsCall)
    → Marks client
    → d.marked ≡ false
    → d.returned ≡ []
    → d.message.committed ≡ none
    → settled_as status_of (run (operation client) os d).returned
      ≡ told (run (operation client) os d).message.committed
run-settled client os d marking m r c =
    (run-keeps client marking os d (record { mark = ground arith; status = ground arith })).status
