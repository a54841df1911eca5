-- ===== src/Registrator/Inclusion.antt =====
-- What the inclusion of a router does, and what it keeps.
use faststream.Prelude.{
  ℕ, ◌≡◌, refl, ◌∙◌, true, false, Option, none, some, List, [], ◌∷◌, ◌==◌, All, ==_iff, ==-refl,
  if◌then◌else◌, arith, Bool-cases, inl, inr,
}
use faststream.Exceptions.{ok}
use faststream.Configs.{BrokerConfig}
use faststream.Registrator.{
  Entry, own, composed, Store, reset_configs, is_parent, attach, set_parent, include_router,
  include_routers,
}
use faststream.Registrator.Linking.{
  IsLinked, count_append, Moved, set_parent_from-Moved, attach-routers, attach-parent,
  attach-configs, option_entries, kept_configs,
}

include_router-Moved :
    (self router : ℕ) (c : BrokerConfig) (store : Store)
    → IsLinked store
    → is_parent (store router).parent self ≡ false
    → (moved : Store) × (include_router self router c store ≡ ok (attach self router c moved))
      × Moved router self store moved
unfolding include_router set_parent
include_router-Moved self router c store linked new =
    let (moved, did, step) =
      set_parent_from-Moved router self store (store router).parent linked refl new in
    (moved, rw (new, did, include_router), step)

include_router-again :
    (self router : ℕ) (c : BrokerConfig) (store : Store)
    → is_parent (store router).parent self ≡ true
    → include_router self router c store ≡ ok store
unfolding include_router
include_router-again self router c store same = rw same

attach-IsLinked :
    (self router : ℕ) (c : BrokerConfig) (store moved : Store)
    → IsLinked store
    → is_parent (store router).parent self ≡ false
    → Moved router self store moved
    → IsLinked (attach self router c moved)
attach-IsLinked self router c store moved linked new step = record {
  at = λ m n.
      let routers = attach-routers self router c moved n in
      let parent = attach-parent self router c moved m in
      let before = linked.at m n in
      let counts = step.counts m n in
      let parents = step.parents m in
      let more = count_append m router (moved n).routers in
      rw (routers, parent, parents)
        (ground (
          arith,
          before,
          counts,
          more,
          new,
          ==_iff n self,
          ==_iff self n,
          ==_iff m router,
          ==-refl router,
        ));
}

-- Including a router never fails where parents and lists agree, and they agree again after it: the
-- router has the including object as its parent, stands once in its list, and in no other.
pub include_router-IsLinked :
    (self router : ℕ) (c : BrokerConfig) (store : Store)
    → IsLinked store
    → (after : Store) × (include_router self router c store ≡ ok after)
      × IsLinked after
      × (is_parent (after router).parent self ≡ true)
include_router-IsLinked self router c store linked =
    elim (Bool-cases (is_parent (store router).parent self)) [
      | inl same ↦ (store, include_router-again self router c store same, linked, same)
      | inr new ↦
          let (moved, did, step) = include_router-Moved self router c store linked new in
          let parent = attach-parent self router c moved router in
          let parents = step.parents router in
          (
            attach self router c moved,
            did,
            attach-IsLinked self router c store moved linked new step,
            rw (parent, parents, ==-refl router) (==-refl self),
          )
    ]

-- The configurations of a registrator with the configuration `o`: it alone, or below those of its
-- parent and the options of the inclusion.
pub data Shape (o : BrokerConfig) : Option ℕ → List Entry → Type 0 where
  alone : Shape o none (own o ∷ [])
  below :
      (p : ℕ) (options : BrokerConfig)
      → Shape o (some p) (composed p ∷ option_entries options (own o ∷ []))

pub record IsComposed (owns : ℕ → BrokerConfig) (store : Store) : Type 0 where
  pub at : (n : ℕ) → Shape (owns n) (store n).parent (store n).configs

kept_configs-Shape :
    (o : BrokerConfig) (parent : Option ℕ) (configs : List Entry)
    → Shape o parent configs
    → kept_configs parent configs ≡ own o ∷ []
unfolding reset_configs
kept_configs-Shape o none _ alone = refl
kept_configs-Shape o (some _) configs (below p options) = ground arith

IsComposed-Shape :
    (owns : ℕ → BrokerConfig) (self router : ℕ) (c : BrokerConfig) (store : Store)
    → IsComposed owns store
    → (n : ℕ)
    → Shape (owns n) (if n == router then some self else (store n).parent) (
        if n == router
        then composed self ∷ option_entries c (own (owns router) ∷ [])
        else (store n).configs)
IsComposed-Shape owns self router c store shaped n = elim (Bool-cases (n == router)) [
  | inl same ↦ let e : n ≡ router = (==_iff n router).0 same in rw (same, e) (below self c)
  | inr other ↦ rw other (shaped.at n)
]

-- Including a router below a new parent puts the parent's composition, shared with it, and the
-- options of the inclusion before the router's own configuration. What an earlier parent and its
-- options brought is gone, and no other registrator's configurations change.
pub include_router-IsComposed :
    (owns : ℕ → BrokerConfig) (self router : ℕ) (c : BrokerConfig) (store : Store)
    → IsLinked store
    → IsComposed owns store
    → is_parent (store router).parent self ≡ false
    → (after : Store) × (include_router self router c store ≡ ok after)
      × IsComposed owns after
      × ((n : ℕ)
          → (after n).configs ≡ (
              if n == router
              then composed self ∷ option_entries c (own (owns router) ∷ [])
              else (store n).configs))
include_router-IsComposed owns self router c store linked shaped new =
    let (moved, did, step) = include_router-Moved self router c store linked new in
    let kept =
      kept_configs-Shape (owns router) (store router).parent (store router).configs
        (shaped.at router) in
    let configs : (n : ℕ)
        → (attach self router c moved n).configs ≡ (
            if n == router
            then composed self ∷ option_entries c (own (owns router) ∷ [])
            else (store n).configs) =
      λ n.
        let added = attach-configs self router c moved n in
        let here = step.configs router in
        let there = step.configs n in ground (arith, added, here, there, kept, ==-refl router) in
    (
      attach self router c moved,
      did,
      record {
        at = λ n.
            let parent = attach-parent self router c moved n ∙ step.parents n in
            rw (parent, configs n) (IsComposed-Shape owns self router c store shaped n);
      },
      configs,
    )

-- `include_routers` never fails either, in any order and with any repetition: parents and lists
-- agree after it, and each of the routers has the including object as its parent.
pub include_routers-IsLinked :
    (self : ℕ) (rs : List ℕ) (c : BrokerConfig) (store : Store)
    → IsLinked store
    → (after : Store) × (include_routers self rs c store ≡ ok after)
      × IsLinked after
      × ((r : ℕ) → is_parent (store r).parent self ≡ true → is_parent (after r).parent self ≡ true)
      × All (λ r. is_parent (after r).parent self ≡ true) rs
unfolding include_routers
include_routers-IsLinked self [] c store linked = (store, refl, linked, λ r h. h, tt)
include_routers-IsLinked self (r ∷ rs) c store linked =
    elim (Bool-cases (is_parent (store r).parent self)) [
      | inl same ↦
          let (after, did, now, kept, each) = include_routers-IsLinked self rs c store linked in
          (
            after,
            rw (include_router-again self r c store same, include_routers) did,
            now,
            kept,
            (kept r same, each),
          )
      | inr new ↦
          let (moved, one, step) = include_router-Moved self r c store linked new in
          let next = attach self r c moved in
          let (after, did, now, kept, each) =
            include_routers-IsLinked self rs c next
              (attach-IsLinked self r c store moved linked new step) in
          let parent = λ (q : ℕ). attach-parent self r c moved q ∙ step.parents q in
          (
            after,
            rw (one, include_routers) did,
            now,
            λ q h. kept q (let e = parent q in ground (arith, e, h, ==-refl self)),
            (kept r (let e = parent r in ground (arith, e, ==-refl r, ==-refl self)), each),
          )
    ]
