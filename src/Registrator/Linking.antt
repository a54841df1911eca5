-- ===== src/Registrator/Linking.antt =====
-- Parents and their lists of routers agree.
use faststream.Prelude.{
  ℕ, ◌+◌, ◌≤◌, ◌≡◌, refl, false, Option, none, some, List, [], ◌∷◌, ◌++◌, ◌==◌, ==_iff, ==-refl,
  if◌then◌else◌, arith, Bool-cases, inl, inr,
}
use faststream.Exceptions.{ok}
use faststream.Configs.{BrokerConfig, is_valuable}
use faststream.Registrator.{
  Entry, own, composed, Store, put, remove, reset_configs, is_parent, attach, with_parent,
  set_parent_from, add_config,
}

abbrev pub count : ℕ → List ℕ → ℕ
count x [] = 0
count x (y ∷ ys) = (if x == y then 1 else 0) + count x ys

-- A registrator stands once in the list of its parent, and in no other list.
pub record IsLinked (store : Store) : Type 0 where
  pub at : (m n : ℕ) → count m (store n).routers ≡ (if is_parent (store m).parent n then 1 else 0)

pub count_append :
    (x y : ℕ) (xs : List ℕ) → count x (xs ++ y ∷ []) ≡ count x xs + (if x == y then 1 else 0)
count_append x y [] = ground arith
count_append x y (z ∷ xs) = let rest = count_append x y xs in ground arith

remove-count :
    (x : ℕ) (xs : List ℕ)
    → 1 ≤ count x xs
    → (ys : List ℕ) × (remove x xs ≡ ok ys)
      × ((z : ℕ) → count z ys + (if z == x then 1 else 0) ≡ count z xs)
unfolding remove
remove-count x [] h = absurd (omega (arith, h))
remove-count x (y ∷ xs) h = elim (Bool-cases (x == y)) [
  | inl same ↦ let e = (==_iff x y).0 same in (xs, ground arith, λ z. rw e (omega arith))
  | inr other ↦
      let (ys, removed, counts) = remove-count x xs (ground arith) in
      (y ∷ ys, rw (other, removed), λ z. let c = counts z in omega (arith, c))
]

-- The options that an inclusion puts between the parent and the router, if there are any.
abbrev pub option_entries : BrokerConfig → List Entry → List Entry
option_entries c configs = if is_valuable c then own c ∷ configs else configs

module _ (self router : ℕ) (c : BrokerConfig) (store : Store) where
  pub attach-routers :
      (n : ℕ)
      → (attach self router c store n).routers
        ≡ (if n == self then (store n).routers ++ router ∷ [] else (store n).routers)
  unfolding add_config
  attach-routers n =
      ground (arith, ==_iff n self, ==_iff n router, ==_iff self router, ==-refl router)

  pub attach-parent : (n : ℕ) → (attach self router c store n).parent ≡ (store n).parent
  unfolding add_config
  attach-parent n =
      ground (arith, ==_iff n self, ==_iff n router, ==_iff self router, ==-refl router)

  pub attach-configs :
      (n : ℕ)
      → (attach self router c store n).configs ≡ (
          if n == router
          then composed self ∷ option_entries c (store router).configs
          else (store n).configs)
  unfolding add_config
  attach-configs n =
      ground (arith, ==_iff n self, ==_iff n router, ==_iff self router, ==-refl router)

abbrev pub kept_configs : Option ℕ → List Entry → List Entry
kept_configs none configs = configs
kept_configs (some old) configs = reset_configs configs

-- What setting another parent does: the router is in no list, and its composition is its own.
pub record Moved (router self : ℕ) (store store' : Store) : Type 0 where
  pub parents : (n : ℕ) → (store' n).parent ≡ (if n == router then some self else (store n).parent)
  pub counts :
      (z n : ℕ)
      → count z (store' n).routers
          + (if is_parent (store router).parent n then (if z == router then 1 else 0) else 0)
        ≡ count z (store n).routers
  pub configs :
      (n : ℕ)
      → (store' n).configs ≡ (
          if n == router
          then kept_configs (store router).parent (store router).configs
          else (store n).configs)

pub set_parent_from-Moved :
    (router self : ℕ) (store : Store) (old : Option ℕ)
    → IsLinked store
    → (store router).parent ≡ old
    → is_parent old self ≡ false
    → (store' : Store) × (set_parent_from router self old store ≡ ok store')
      × Moved router self store store'
unfolding set_parent_from
set_parent_from-Moved router self store none linked e new = (
  _,
  refl,
  record {
    parents = λ n. ground (arith, ==_iff n router);
    counts = λ z n. ground (arith, e, ==_iff n router);
    configs = λ n. ground (arith, e, ==_iff n router);
  },
)
set_parent_from-Moved router self store (some old) linked e new =
    let here = linked.at router old in
    let (left, removed, counts) =
      remove-count router (store old).routers (ground (arith, e, here, ==-refl old)) in
    let shorter : Store = put old (record (store old) { routers = left }) store in
    let alone : Store =
      put router (record (shorter router) { configs = reset_configs (shorter router).configs })
        shorter in
    (
      with_parent router self alone,
      rw (new, removed, set_parent_from),
      record {
        parents = λ n. ground (arith, ==_iff n router, ==_iff n old);
        counts = λ z n. ground (arith, e, ==_iff n router, ==_iff n old, counts z);
        configs = λ n. ground (arith, e, ==_iff n router, ==_iff n old);
      },
    )
