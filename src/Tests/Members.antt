-- ===== src/Tests/Members.antt =====
-- A broker with a router in it.
use faststream.Prelude.{ℕ, ◌+◌, ◌↔◌, none, some, [], ◌∷◌, ◌==◌, ==_iff, if◌then◌else◌, arith}
use faststream.Registrator.{Store, subscribers, publishers}
use faststream.Registrator.Linking.{IsLinked}
use faststream.Registrator.Members.{IsRanked, Has, IsOwnedBeneath, subscribers_iff}

abbrev broker_with_router : Store
broker_with_router n = record {
  configs = [];
  parent = if n == 2 then some 1 else none;
  routers = if n == 1 then 2 ∷ [] else [];
  own_subscribers = (10 + n) ∷ [];
  own_publishers = [];
  persistent_subscribers = (10 + n) ∷ [];
  persistent_publishers = [];
}

broker-IsLinked : IsLinked broker_with_router
broker-IsLinked = record { at = λ m n. ground (arith, ==_iff m 2, ==_iff n 1, ==_iff 1 n) }

abbrev height : ℕ → ℕ
height n = if n == 1 then 1 else 0

broker-IsRanked : IsRanked broker_with_router height
broker-IsRanked = record { lower = λ m n e. ground (arith, e, ==_iff m 2, ==_iff n 1, ==_iff m 1) }

subscribers_iff_example :
    (Has 12 (subscribers 2 broker_with_router 1)
      ↔ IsOwnedBeneath (λ r. r.own_subscribers) broker_with_router 1 12)
    × (Has 12 (publishers 2 broker_with_router 1)
        ↔ IsOwnedBeneath (λ r. r.own_publishers) broker_with_router 1 12)
subscribers_iff_example =
    subscribers_iff broker_with_router height 2 1 12 broker-IsLinked broker-IsRanked (omega arith)
