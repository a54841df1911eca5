-- ===== src/Settling/RedisMessage/Once.antt =====
-- A stream message is acknowledged at the server once, and exactly if its object says so.
use faststream.Prelude.{ℕ, ◌≡◌, true, Option, none, some, List, [], ◌∷◌, arith, String}
use faststream.Message.{AckStatus, acked, ack, nack, reject}
use faststream.Settling.{Delivery, Client, call, run, settled_as, settled_as-snoc}
use faststream.Settling.RedisMessage.{
  RedisCall, xack, xdel, Operation, acks, nacks, rejects, deletes, status_of, operation,
}

-- What the server was told of a message with a status: only an acknowledgement.
abbrev pub told_by : Option AckStatus → List AckStatus
told_by (some acked) = acked ∷ []
told_by _ = []

-- Each `ack` is given a client and a group, as the middleware of a group's subscriber does.
abbrev pub IsGiven : Operation → Type 0
IsGiven (acks redis group) = (redis ≡ true) × ((g : String) × (group ≡ some g))
IsGiven _ = Unit

abbrev pub AllGiven : List Operation → Type 0
AllGiven [] = Unit
AllGiven (o ∷ os) = IsGiven o × AllGiven os

abbrev Agrees : Delivery RedisCall → Type 0
Agrees d = settled_as status_of d.returned ≡ told_by d.message.committed

module _ (client : Client RedisCall) (ids : List ℕ) where
  operation-Agrees :
      (o : Operation) (d : Delivery RedisCall)
      → IsGiven o
      → Agrees d
      → Agrees (operation client ids o d).1
  unfolding operation call ack nack reject
  operation-Agrees (acks redis group) d (r, (g, e)) h =
      ground (arith, r, e, settled_as-snoc status_of d.returned (xack g ids))
  operation-Agrees (nacks redis group) d g h = ground arith
  operation-Agrees (rejects redis group) d g h = ground arith
  operation-Agrees (deletes redis) d g h =
      ground (arith, settled_as-snoc status_of d.returned (xdel ids))

  run-keeps :
      (os : List Operation) (d : Delivery RedisCall)
      → AllGiven os
      → Agrees d
      → Agrees (run (operation client ids) os d)
  unfolding run
  run-keeps [] d g h = h
  run-keeps (o ∷ os) d (g, gs) h =
      run-keeps os (operation client ids o d).1 gs (operation-Agrees o d g h)

-- Whatever is called on a new stream message, in any order, and whichever calls to the server
-- raise, if each `ack` is given a client and a group: the server is told of an acknowledgement at
-- most once, exactly if the message object says that it is acknowledged. Of `nack` and `reject` it
-- is told nothing.
pub run-acked :
    (client : Client RedisCall) (ids : List ℕ) (os : List Operation) (d : Delivery RedisCall)
    → AllGiven os
    → d.returned ≡ []
    → d.message.committed ≡ none
    → settled_as status_of (run (operation client ids) os d).returned
      ≡ told_by (run (operation client ids) os d).message.committed
run-acked client ids os d g r c = run-keeps client ids os d g (ground (arith, r, c))
