-- ===== src/Kafka/Realign/Places.antt =====
-- The places of a body among the current ones, and which of them are free.
use faststream.Prelude.{
  ℕ, zero, suc, ◌+◌, ◌<◌, ◌≡◌, refl, ap, Bool, true, false, ◌&&◌, some, List, [], ◌∷◌, ◌==◌, drop,
  get_elem?, arith, Bool-cases, inl, inr, ==_iff, if◌then◌else◌,
}
use faststream.Exceptions.{ok}
use faststream.Value.{Value}
use faststream.Kafka.Realign.{Seen, is_unseen, put, index_of, next_free, place}
use faststream.Kafka.Realign.Unchanged.{IsBody}

-- The equality of bodies is one.
pub record IsEquality (same : Value → Value → Bool) : Type 0 where
  pub reflexive : (v : Value) → same v v ≡ true
  pub sound : (v w : Value) → same v w ≡ true → v ≡ w

abbrev pub one_if : Bool → ℕ
one_if true = 1
one_if false = 0

pub unseen_put :
    (j k : ℕ) (b : Value) (seen : Seen)
    → IsBody b
    → is_unseen j (put k b seen) ≡ (if k == j then false else is_unseen j seen)
unfolding put
unseen_put j k b [] q = ground (arith, q)
unseen_put j k b ((i, c) ∷ seen) q =
    let rest = unseen_put j k b seen q in
    ground (arith, q, rest, ==_iff i k, ==_iff i j, ==_iff k j)

module _ (same : Value → Value → Bool) (equality : IsEquality same) where
  -- How often a body is there.
  abbrev pub count : Value → List Value → ℕ
  count b [] = 0
  count b (c ∷ cs) = one_if (same c b) + count b cs

  -- At how many places from `i` on it is, which are not taken.
  abbrev pub free : Seen → Value → ℕ → List Value → ℕ
  free seen b i [] = 0
  free seen b i (c ∷ cs) = one_if (is_unseen i seen && same c b) + free seen b (suc i) cs

  pub free-nil : (b : Value) (i : ℕ) (cs : List Value) → free [] b i cs ≡ count b cs
  free-nil b i [] = refl
  free-nil b i (c ∷ cs) = ap (λ n. one_if (same c b) + n) (free-nil b (suc i) cs)

  -- A free place of the body.
  pub record IsFree (seen : Seen) (b : Value) (i : ℕ) (cs : List Value) (j : ℕ) : Type 0 where
    pub distance : ℕ
    pub at : j ≡ i + distance
    pub unseen : is_unseen j seen ≡ true
    pub found : get_elem? cs distance ≡ some b

  IsFree-cons :
      (seen : Seen) (b c : Value) (i : ℕ) (cs : List Value) (j : ℕ)
      → IsFree seen b (suc i) cs j
      → IsFree seen b i (c ∷ cs) j
  IsFree-cons seen b c i cs j f = record {
    distance = suc f.distance;
    at = omega (arith, f.at);
    unseen = f.unseen;
    found = f.found;
  }

  IsFree-here :
      (seen : Seen) (b c : Value) (i : ℕ) (cs : List Value)
      → is_unseen i seen ≡ true
      → same c b ≡ true
      → IsFree seen b i (c ∷ cs) i
  IsFree-here seen b c i cs u s = record {
    distance = 0;
    at = omega arith;
    unseen = u;
    found = ap some (equality.sound c b s);
  }

  -- The search from a place on finds a free one, if there is one.
  next_free-IsFree :
      (seen : Seen) (b : Value) (i : ℕ) (cs : List Value)
      → 0 < free seen b i cs
      → (j : ℕ) × (next_free same seen b i cs ≡ ok j) × IsFree seen b i cs j
  unfolding next_free
  next_free-IsFree seen b i [] h = absurd (omega arith)
  next_free-IsFree seen b i (c ∷ cs) h = elim (Bool-cases (is_unseen i seen && same c b)) [
    | inl here ↦
        let u : is_unseen i seen ≡ true = ground (arith, here) in
        let s : same c b ≡ true = ground (arith, here) in
        (i, rw here, IsFree-here seen b c i cs u s)
    | inr other ↦
        let later : 0 < free seen b (suc i) cs = ground (arith, h, other) in
        let (j, e, f) = next_free-IsFree seen b (suc i) cs later in
        (j, rw (other, next_free) e, IsFree-cons seen b c i cs j f)
  ]

  -- The search starts at the first place of the body, before which none is free.
  record IsFirst (seen : Seen) (b : Value) (i : ℕ) (cs : List Value) : Type 0 where
    distance : ℕ
    first : index_of same b i cs ≡ ok (i + distance)
    kept : free seen b (i + distance) (drop distance cs) ≡ free seen b i cs
    found : get_elem? cs distance ≡ some b

  index_of-IsFirst :
      (seen : Seen) (b : Value) (i : ℕ) (cs : List Value)
      → 0 < free seen b i cs
      → IsFirst seen b i cs
  unfolding index_of
  index_of-IsFirst seen b i [] h = absurd (omega arith)
  index_of-IsFirst seen b i (c ∷ cs) h = elim (Bool-cases (same c b)) [
    | inl here ↦
        let e : i + 0 ≡ i = omega arith in
        record {
          distance = 0;
          first = rw (here, index_of, e);
          kept = rw e;
          found = ap some (equality.sound c b here);
        }
    | inr other ↦
        let later : 0 < free seen b (suc i) cs = ground (arith, h, other) in
        let f = index_of-IsFirst seen b (suc i) cs later in
        let place_of : i + suc f.distance ≡ suc i + f.distance = omega arith in
        record {
          distance = suc f.distance;
          first = rw (other, index_of, place_of) f.first;
          kept = ground (arith, f.kept, other, place_of);
          found = f.found;
        }
  ]

  free-put_before :
      (seen : Seen) (b w : Value) (j i : ℕ) (cs : List Value)
      → IsBody b
      → j < i
      → free (put j b seen) w i cs ≡ free seen w i cs
  free-put_before seen b w j i [] q h = refl
  free-put_before seen b w j i (c ∷ cs) q h =
      let rest = free-put_before seen b w j (suc i) cs q (omega (arith, h)) in
      ground (arith, rest, unseen_put i j b seen q, ==_iff j i, h)

  -- Where a body is put to a free place of it, it has one free place less, and any other body has
  -- as many as before.
  free-put :
      (seen : Seen) (b w : Value) (i : ℕ) (cs : List Value) (j d : ℕ)
      → IsBody b
      → j ≡ i + d
      → is_unseen j seen ≡ true
      → get_elem? cs d ≡ some b
      → free seen w i cs ≡ one_if (same b w) + free (put j b seen) w i cs
  free-put seen b w i [] j d q e u f = ground (arith, f)
  free-put seen b w i (c ∷ cs) j zero q e u f =
      let same_place : j ≡ i = omega arith in
      let unchanged = free-put_before seen b w j (suc i) cs q (omega arith) in
      let put_here = unseen_put i j b seen q in
      ground (arith, unchanged, put_here, same_place, ==_iff j i, u, f)
  free-put seen b w i (c ∷ cs) j (suc d) q e u f =
      let rest = free-put seen b w (suc i) cs j d q (omega arith) u f in
      ground (arith, rest, unseen_put i j b seen q, ==_iff j i, e)

  -- A body that has a free place gets one.
  pub record IsPlaced (seen : Seen) (b : Value) (current : List Value) : Type 0 where
    pub at : ℕ
    pub placed : place same b current seen ≡ ok (put at b seen)
    pub unseen : is_unseen at seen ≡ true
    pub found : get_elem? current at ≡ some b
    pub others :
        (w : Value) → free seen w 0 current ≡ one_if (same b w) + free (put at b seen) w 0 current

  get_elem?-drop :
      (n k j : ℕ) (cs : List Value) (b : Value)
      → j ≡ n + k
      → get_elem? (drop n cs) k ≡ some b
      → get_elem? cs j ≡ some b
  get_elem?-drop zero k j cs b e f = let same_place : j ≡ k = omega arith in rw same_place f
  get_elem?-drop (suc n) k j [] b e f = ground (arith, f)
  get_elem?-drop (suc n) k zero (c ∷ cs) b e f = absurd (omega (arith, e))
  get_elem?-drop (suc n) k (suc j) (c ∷ cs) b e f = get_elem?-drop n k j cs b (omega (arith, e)) f

  pub place-IsPlaced :
      (seen : Seen) (b : Value) (current : List Value)
      → IsBody b
      → 0 < free seen b 0 current
      → IsPlaced seen b current
  unfolding place
  place-IsPlaced seen b current q h =
      let f = index_of-IsFirst seen b 0 current h in
      let d = f.distance in
      let here : 0 + d ≡ d = omega arith in
      let first : index_of same b 0 current ≡ ok d = rw here at f.first in
      elim (Bool-cases (is_unseen d seen)) [
        | inl u ↦ record {
          at = d;
          placed = rw (first, place, u);
          unseen = u;
          found = f.found;
          others = λ w. free-put seen b w 0 current d d q (omega arith) u f.found;
        }
        | inr taken ↦
            let left : 0 < free seen b d (drop d current) = omega (arith, h, rw here at f.kept) in
            let (j, e, n) = next_free-IsFree seen b d (drop d current) left in
            let found = get_elem?-drop d n.distance j current b n.at n.found in
            record {
              at = j;
              placed = rw (first, place, taken, e);
              unseen = n.unseen;
              found = found;
              others = λ w. free-put seen b w 0 current j j q (omega arith) n.unseen found;
            }
      ]
