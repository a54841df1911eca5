-- ===== src/Settling.antt =====
-- Messages of the brokers: what `ack`, `nack` and `reject` of a broker's message class call on the
-- raw message or the client. A call of the client is a parameter: given the calls before it, it
-- returns or raises, and the raw message is marked as settled or not.
pub mod NatsMessage
pub mod KafkaMessage
pub mod RabbitMessage
pub mod RedisMessage
use faststream.Prelude.{
  Bool, true, false, Option, none, some, List, [], ◌∷◌, ◌++◌, ◌≡◌, ap, sym, ◌∙◌, append_assoc,
  append-nil,
}
use faststream.Exceptions.{Exc, Result, ok, err}
use faststream.Message.{StreamMessage, AckStatus}
use faststream.Exec.{Exec, pure, modify, gets, continue, ◌>>=◌, ◌>>◌}

-- A message of a broker: its object, whether the raw message is marked as settled, all calls that
-- were made on the client, and those of them that returned.
pub record Delivery (C : Type 0) : Type 0 where
  pub message : StreamMessage
  pub marked : Bool
  pub made : List C
  pub returned : List C

abbrev pub Client : Type 0 → Type 0
Client C = List C → C → Result (Unit {0}) × Bool

abbrev pub heard : {C : Type 0} → Result (Unit {0}) → C → List C → List C
heard (ok _) c returned = returned ++ c ∷ []
heard (err _) c returned = returned

module _ {C : Type 0} (client : Client C) where
  unfoldable pub call : C → Exec (Delivery C) (Unit {0})
  call c d =
      let (r, marked) = client d.made c in
      (r, record d { marked = marked; made = d.made ++ c ∷ []; returned = heard r c d.returned })

  abbrev pub call_if : Bool → C → Exec (Delivery C) (Unit {0})
  call_if true c = call c
  call_if false c = pure tt

abbrev pub on : {C : Type 0} → (StreamMessage → StreamMessage) → Exec (Delivery C) (Unit {0})
on f = modify (λ d. record d { message = f d.message })

abbrev pub is_open : Option AckStatus → Bool
is_open none = true
is_open (some _) = false

-- Calls by the application, each of which may raise where the caller goes on.
module _ {C : Type 0} {O : Type 0} (operation : O → Exec (Delivery C) (Unit {0})) where
  unfoldable pub run : List O → Delivery C → Delivery C
  run [] d = d
  run (o ∷ os) d = run os (operation o d).1

abbrev pub told : Option AckStatus → List AckStatus
told none = []
told (some s) = s ∷ []

-- The statuses that the calls which returned gave the message on the side of the broker.
module _ {C : Type 0} (status_of : C → Option AckStatus) where
  abbrev pub settled_as : List C → List AckStatus
  settled_as [] = []
  settled_as (c ∷ cs) = told (status_of c) ++ settled_as cs

  pub settled_as-snoc :
      (cs : List C) (c : C) → settled_as (cs ++ c ∷ []) ≡ settled_as cs ++ told (status_of c)
  settled_as-snoc [] c = append-nil (told (status_of c))
  settled_as-snoc (d ∷ cs) c =
      ap (λ (l : List AckStatus). told (status_of d) ++ l) (settled_as-snoc cs c)
      ∙ sym (append_assoc (told (status_of d)) (settled_as cs) (told (status_of c)))
