-- ===== src/Settling/RabbitMessage/Once.antt =====
-- What becomes of a RabbitMQ message, whose object takes its status before the server is told.
use faststream.Prelude.{◌≡◌, refl, true, false, Bool, none, some, List, [], ◌∷◌, ◌++◌, arith}
use faststream.Exceptions.{Result, ok, err}
use faststream.Message.{AckStatus, commit, ack, nack, reject}
use faststream.Settling.{Delivery, Client, call, run, heard}
use faststream.Settling.RabbitMessage.{
  RabbitCall, call_ack, call_nack, call_reject, status, operation,
}

abbrev returns : Result (Unit {0}) → Bool
returns (ok _) = true
returns (err _) = false

-- The raw message locks itself when a call on it returns, and not otherwise.
pub record Locks (client : Client RabbitCall) : Type 0 where
  pub at : (made : List RabbitCall) (c : RabbitCall) → (client made c).1 ≡ returns (client made c).0

module _ (client : Client RabbitCall) where
  -- The calls that return: the first one that the client does not fail, and no other.
  abbrev pub first_returned : List RabbitCall → List RabbitCall → List RabbitCall
  first_returned made [] = []
  first_returned made (c ∷ cs) = elim (client made c).0 [
    | ok _ ↦ c ∷ []
    | err _ ↦ first_returned (made ++ c ∷ []) cs
  ]

  run-locked :
      (os : List RabbitCall) (d : Delivery RabbitCall) (t : AckStatus)
      → d.marked ≡ true
      → d.message.committed ≡ some t
      → ((run (operation client) os d).returned ≡ d.returned)
        × ((run (operation client) os d).made ≡ d.made)
        × ((run (operation client) os d).message.committed ≡ some t)
  unfolding run operation ack nack reject
  run-locked [] d t m c = (refl, refl, c)
  run-locked (call_ack multiple ∷ os) d t m c =
      ground (arith, run-locked os (operation client (call_ack multiple) d).1 t)
  run-locked (call_nack multiple requeue ∷ os) d t m c =
      ground (arith, run-locked os (operation client (call_nack multiple requeue) d).1 t)
  run-locked (call_reject requeue ∷ os) d t m c =
      ground (arith, run-locked os (operation client (call_reject requeue) d).1 t)

  step-unlocked :
      (c : RabbitCall) (d : Delivery RabbitCall)
      → d.marked ≡ false
      → ((operation client c d).1.marked ≡ (client d.made c).1)
        × ((operation client c d).1.made ≡ d.made ++ c ∷ [])
        × ((operation client c d).1.returned ≡ heard (client d.made c).0 c d.returned)
        × ((operation client c d).1.message.committed ≡ commit (status c) d.message.committed)
  unfolding operation call ack nack reject
  step-unlocked (call_ack multiple) d m = ground arith
  step-unlocked (call_nack multiple requeue) d m = ground arith
  step-unlocked (call_reject requeue) d m = ground arith

module _ (client : Client RabbitCall) (locking : Locks client) where
  -- What holds of the calls that follow.
  abbrev Told : List RabbitCall → Delivery RabbitCall → AckStatus → Type 0
  Told os d t =
      ((run (operation client) os d).returned ≡ first_returned client d.made os)
      × ((run (operation client) os d).message.committed ≡ some t)

  after_step :
      (o : RabbitCall) (os : List RabbitCall) (d : Delivery RabbitCall) (t : AckStatus)
      → d.marked ≡ false
      → d.returned ≡ []
      → commit (status o) d.message.committed ≡ some t
      → ((d' : Delivery RabbitCall)
          → d'.marked ≡ false
          → d'.returned ≡ []
          → d'.message.committed ≡ some t
          → Told os d' t)
      → (r : Result (Unit {0})) → (client d.made o).0 ≡ r
      → Told (o ∷ os) d t
  unfolding run
  after_step o os d t m r c rest (ok u) e =
      let (marked, made, returned, committed) = step-unlocked client o d m in
      let locked : (operation client o d).1.marked ≡ true =
        ground (arith, marked, e, locking.at d.made o) in
      let later =
        run-locked client os (operation client o d).1 t locked (ground (arith, committed, c)) in
      ground (arith, later, returned, e, r)
  after_step o os d t m r c rest (err x) e =
      let (marked, made, returned, committed) = step-unlocked client o d m in
      let later =
        rest (operation client o d).1 (ground (arith, marked, e, locking.at d.made o))
          (ground (arith, returned, e, r)) (ground (arith, committed, c)) in
      ground (arith, later, made, e)

  run-Told :
      (os : List RabbitCall) (d : Delivery RabbitCall) (t : AckStatus)
      → d.marked ≡ false
      → d.returned ≡ []
      → d.message.committed ≡ some t
      → Told os d t
  unfolding run
  run-Told [] d t m r c = (r, c)
  run-Told (o ∷ os) d t m r c =
      after_step o os d t m r (ground (arith, c)) (λ d' m' r' c'. run-Told os d' t m' r' c')
        (client d.made o).0 refl

-- A RabbitMQ message object takes the status of the first call on it. The server hears the first
-- call that does not fail, and no other.
pub run-first :
    (client : Client RabbitCall) (o : RabbitCall) (os : List RabbitCall) (d : Delivery RabbitCall)
    → Locks client
    → d.marked ≡ false
    → d.returned ≡ []
    → d.message.committed ≡ none
    → ((run (operation client) (o ∷ os) d).returned ≡ first_returned client d.made (o ∷ os))
      × ((run (operation client) (o ∷ os) d).message.committed ≡ some (status o))
unfolding run
run-first client o os d locking m r c =
    after_step client locking o os d (status o) m r (ground (arith, c))
      (λ d' m' r' c'. run-Told client locking os d' (status o) m' r' c') (client d.made o).0 refl
