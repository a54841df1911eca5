-- ===== src/Registrator/Members.antt =====
-- The subscribers and publishers of a registrator: its own, and those of the routers below it.
use faststream.Prelude.{
  ℕ, zero, suc, ◌+◌, ◌<◌, ◌≡◌, ◌↔◌, true, Option, none, some, List, [], ◌∷◌, ◌++◌, ◌==◌, ==_iff,
  arith, Bool-cases, inl, inr, ◌⊎◌,
}
use faststream.Registrator.{
  Registrator, Store, is_parent, of_each, collected, subscribers, publishers,
}
use faststream.Registrator.Linking.{IsLinked, count}

-- The registrator itself, and what has a chain of parents up to it.
pub data Beneath (store : Store) : ℕ → ℕ → Type 0 where
  here : (n : ℕ) → Beneath store n n
  below : (n m r : ℕ) → (store m).parent ≡ some n → Beneath store m r → Beneath store n r

-- No chain of parents is a circle: each registrator is lower than its parent.
pub record IsRanked (store : Store) (rank : ℕ → ℕ) : Type 0 where
  pub lower : (m n : ℕ) → (store m).parent ≡ some n → rank m < rank n

abbrev pub Has : ℕ → List ℕ → Type 0
Has x xs = 0 < count x xs

count_both : (x : ℕ) (xs ys : List ℕ) → count x (xs ++ ys) ≡ count x xs + count x ys
count_both x [] ys = omega arith
count_both x (y ∷ xs) ys = omega (arith, count_both x xs ys)

Has-append : (x : ℕ) (xs ys : List ℕ) → Has x (xs ++ ys) → Has x xs ⊎ Has x ys
Has-append x xs ys h = elim (Bool-cases (count x xs == 0)) [
  | inl nowhere ↦ inr (ground (arith, h, nowhere, count_both x xs ys))
  | inr somewhere ↦ inl (ground (arith, somewhere))
]

Has-of_each :
    (collect : ℕ → List ℕ) (x : ℕ) (routers : List ℕ)
    → Has x (of_each collect routers)
    → (m : ℕ) × Has m routers × Has x (collect m)
Has-of_each collect x [] h = absurd (omega (arith, h))
Has-of_each collect x (r ∷ routers) h =
    elim (Has-append x (collect r) (of_each collect routers) h) [
      | inl first ↦ (r, ground (arith, ==_iff r r), first)
      | inr later ↦
          let (m, listed, has) = Has-of_each collect x routers later in
          (m, omega (arith, listed), has)
    ]

of_each-Has :
    (collect : ℕ → List ℕ) (x m : ℕ) (routers : List ℕ)
    → Has m routers
    → Has x (collect m)
    → Has x (of_each collect routers)
of_each-Has collect x m [] h has = absurd (omega (arith, h))
of_each-Has collect x m (r ∷ routers) h has =
    let both = count_both x (collect r) (of_each collect routers) in
    elim (Bool-cases (m == r)) [
      | inl same ↦
          let e = (==_iff m r).0 same in
          let first : Has x (collect r) = rw e at has in omega (arith, first, both)
      | inr other ↦
          let rest = of_each-Has collect x m routers (ground (arith, h, other)) has in
          omega (arith, rest, both)
    ]

is_parent-some : (o : Option ℕ) (n : ℕ) → is_parent o n ≡ true → o ≡ some n
is_parent-some none n h = ground (arith, h)
is_parent-some (some p) n h = ground (arith, h, ==_iff p n)

some-is_parent : (o : Option ℕ) (n : ℕ) → o ≡ some n → is_parent o n ≡ true
some-is_parent none n h = ground (arith, h)
some-is_parent (some p) n h = ground (arith, h, ==_iff p n)

-- Some registrator at or below this one has the object among its own.
abbrev pub IsOwnedBeneath : (Registrator → List ℕ) → Store → ℕ → ℕ → Type 0
IsOwnedBeneath own_ones store n x = (r : ℕ) × Beneath store n r × Has x (own_ones (store r))

module _ (own_ones : Registrator → List ℕ) (store : Store) (rank : ℕ → ℕ) (linked : IsLinked store)
    (ranked : IsRanked store rank) where
  parent_of : (m n : ℕ) → Has m (store n).routers → (store m).parent ≡ some n
  parent_of m n h = is_parent-some (store m).parent n (ground (arith, h, linked.at m n))

  listed_by : (m n : ℕ) → (store m).parent ≡ some n → Has m (store n).routers
  listed_by m n e =
      let parent = some-is_parent (store m).parent n e in
      let counted = linked.at m n in ground (arith, counted, parent)

  collected-Beneath :
      (fuel n x : ℕ) → Has x (collected own_ones fuel store n) → IsOwnedBeneath own_ones store n x
  unfolding collected
  collected-Beneath zero n x h = absurd (omega (arith, h))
  collected-Beneath (suc fuel) n x h =
      elim (Has-append x (own_ones (store n))
        (of_each (collected own_ones fuel store) (store n).routers) h) [
          | inl own_one ↦ (n, here n, own_one)
          | inr of_router ↦
              let (m, listed, has) =
                Has-of_each (collected own_ones fuel store) x (store n).routers of_router in
              let (r, beneath, found) = collected-Beneath fuel m x has in
              (r, below n m r (parent_of m n listed) beneath, found)
        ]

  Beneath-collected :
      (fuel n r x : ℕ)
      → rank n < fuel
      → Beneath store n r
      → Has x (own_ones (store r))
      → Has x (collected own_ones fuel store n)
  unfolding collected
  Beneath-collected zero n r x enough b has = absurd (omega (arith, enough))
  Beneath-collected (suc fuel) n r x enough (here _) has =
      let both =
        count_both x (own_ones (store n))
          (of_each (collected own_ones fuel store) (store n).routers) in
      omega (arith, both, has)
  Beneath-collected (suc fuel) n r x enough (below _ m _ e b) has =
      let both =
        count_both x (own_ones (store n))
          (of_each (collected own_ones fuel store) (store n).routers) in
      let rest = Beneath-collected fuel m r x (omega (arith, enough, ranked.lower m n e)) b has in
      let found =
        of_each-Has (collected own_ones fuel store) x m (store n).routers (listed_by m n e) rest in
      omega (arith, both, found)

-- Let parents and lists of routers agree, and no chain of parents be a circle. Then a registrator
-- counts among its subscribers just the own ones of itself and of each registrator whose chain of
-- parents leads to it, and so for publishers.
pub subscribers_iff :
    (store : Store) (rank : ℕ → ℕ) (fuel n x : ℕ)
    → IsLinked store
    → IsRanked store rank
    → rank n < fuel
    → (Has x (subscribers fuel store n) ↔ IsOwnedBeneath (λ r. r.own_subscribers) store n x)
      × (Has x (publishers fuel store n) ↔ IsOwnedBeneath (λ r. r.own_publishers) store n x)
unfolding subscribers publishers
subscribers_iff store rank fuel n x linked ranked enough =
    let subs = λ (r : Registrator). r.own_subscribers in
    let pubs = λ (r : Registrator). r.own_publishers in
    (
      (
        collected-Beneath subs store rank linked ranked fuel n x,
        λ (r, b, has). Beneath-collected subs store rank linked ranked fuel n r x enough b has,
      ),
      (
        collected-Beneath pubs store rank linked ranked fuel n x,
        λ (r, b, has). Beneath-collected pubs store rank linked ranked fuel n r x enough b has,
      ),
    )
