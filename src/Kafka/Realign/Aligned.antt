-- ===== src/Kafka/Realign/Aligned.antt =====
-- Keys of a batch whose bodies were put in another order, or of which some were taken out.
use faststream.Prelude.{
  ℕ, zero, suc, ◌≤◌, ◌≡◌, ◌≢◌, refl, sym, ap, ◌∙◌, Bool, true, some, List, [], ◌∷◌, ◌++◌, ◌==◌,
  get_elem?, length, arith, All, Bool-cases, inl, inr, ==_iff, append_assoc, append-nil,
}
use faststream.Exceptions.{Result, ok, err, raised, value_error}
use faststream.Value.{Value}
use faststream.Kafka.Realign.{
  Seen, is_unseen, put, index_of, place, place_all, keys_at, realign_keys,
}
use faststream.Kafka.Realign.Unchanged.{IsBody}
use faststream.Kafka.Realign.Places.{
  IsEquality, count, free, free-nil, one_if, place-IsPlaced, unseen_put,
}

get_elem?-as_far :
    (keys current : List Value) (i : ℕ) {b : Value}
    → length keys ≡ length current
    → get_elem? current i ≡ some b
    → (key : Value) × (get_elem? keys i ≡ some key)
get_elem?-as_far [] [] i e f = ground (arith, f)
get_elem?-as_far (k ∷ keys) [] i e f = absurd (omega (arith, e))
get_elem?-as_far [] (c ∷ current) i e f = absurd (omega (arith, e))
get_elem?-as_far (k ∷ keys) (c ∷ current) zero e f = (k, refl)
get_elem?-as_far (k ∷ keys) (c ∷ current) (suc i) e f =
    get_elem?-as_far keys current i (omega (arith, e)) f

-- What stands at the places, one by one.
abbrev pub Picks : List Value → List ℕ → List Value → Type 0
Picks from [] [] = Unit
Picks from [] (x ∷ xs) = ⊥
Picks from (i ∷ places) [] = ⊥
Picks from (i ∷ places) (x ∷ xs) = (get_elem? from i ≡ some x) × Picks from places xs

abbrev pub Distinct : List ℕ → Type 0
Distinct [] = Unit
Distinct (i ∷ places) = All (λ k. i ≢ k) places × Distinct places

abbrev pub paired : List ℕ → List Value → Seen
paired [] bodies = []
paired (i ∷ places) [] = []
paired (i ∷ places) (b ∷ bodies) = (i, b) ∷ paired places bodies

-- Only bodies are stored.
abbrev Stored : Seen → Type 0
Stored [] = Unit
Stored ((i, b) ∷ seen) = IsBody b × Stored seen

Stored-snoc :
    (seen : Seen) (j : ℕ) (b : Value) → Stored seen → IsBody b → Stored (seen ++ (j, b) ∷ [])
Stored-snoc [] j b w q = (q, tt)
Stored-snoc ((i, c) ∷ seen) j b (q', w) q = (q', Stored-snoc seen j b w q)

put-unseen :
    (j : ℕ) (b : Value) (seen : Seen)
    → Stored seen
    → is_unseen j seen ≡ true
    → put j b seen ≡ seen ++ (j, b) ∷ []
unfolding put
put-unseen j b [] w u = refl
put-unseen j b ((i, c) ∷ seen) (q, w) u = elim (Bool-cases (i == j)) [
  | inl here ↦ ground (arith, here, u, q)
  | inr other ↦
      let rest = put-unseen j b seen w (ground (arith, other, u)) in
      rw (other, put) (ap (λ t. (i, c) ∷ t) rest)
]

All-unseen :
    (j : ℕ) (b : Value) (seen : Seen) (places : List ℕ)
    → IsBody b
    → All (λ i. is_unseen i (put j b seen) ≡ true) places
    → All (λ i. is_unseen i seen ≡ true) places × All (λ i. j ≢ i) places
All-unseen j b seen [] q a = (tt, tt)
All-unseen j b seen (i ∷ places) q (u, a) =
    let (rest, apart) = All-unseen j b seen places q a in
    let effect = unseen_put i j b seen q in
    ((ground (arith, u, effect), rest), (ground (arith, u, effect, ==_iff j i), apart))

module _ (same : Value → Value → Bool) (equality : IsEquality same) where
  record Laid (bodies current : List Value) (seen : Seen) : Type 0 where
    places : List ℕ
    placed : place_all same bodies current seen ≡ ok (seen ++ paired places bodies)
    picks : Picks current places bodies
    unseen : All (λ i. is_unseen i seen ≡ true) places
    distinct : Distinct places

  laid :
      (bodies current : List Value) (seen : Seen)
      → All IsBody bodies
      → Stored seen
      → ((w : Value) → count same equality w bodies ≤ free same equality seen w 0 current)
      → Laid bodies current seen
  unfolding place_all
  laid [] current seen q w h = record {
    places = [];
    placed = ap ok (sym (append-nil seen));
    picks = tt;
    unseen = tt;
    distinct = tt;
  }
  laid (b ∷ bodies) current seen (q, qs) w h =
      let once : one_if (same b b) ≡ 1 = rw (equality.reflexive b) in
      let p = place-IsPlaced same equality seen b current q (omega (arith, h b, once)) in
      let next = put-unseen p.at b seen w p.unseen in
      let stored : Stored (put p.at b seen) = rw next (Stored-snoc seen p.at b w q) in
      let r =
        laid bodies current (put p.at b seen) qs stored (λ v. omega (arith, h v, p.others v)) in
      let (before, apart) = All-unseen p.at b seen r.places q r.unseen in
      record {
        places = p.at ∷ r.places;
        placed =
            rw (p.placed, place_all)
              (r.placed
                ∙ ap ok (rw next (append_assoc seen ((p.at, b) ∷ []) (paired r.places bodies))));
        picks = (p.found, r.picks);
        unseen = (p.unseen, before);
        distinct = (apart, r.distinct);
      }

  index_of-unknown :
      (b : Value) (i : ℕ) (current : List Value)
      → count same equality b current ≡ 0
      → index_of same b i current ≡ err (raised value_error)
  unfolding index_of
  index_of-unknown b i [] h = refl
  index_of-unknown b i (c ∷ current) h = elim (Bool-cases (same c b)) [
    | inl here ↦ absurd (ground (arith, h, here))
    | inr other ↦
        rw (other, index_of) (index_of-unknown b (suc i) current (ground (arith, h, other)))
  ]

  laid_append :
      (before behind current : List Value) (seen seen' : Seen)
      → place_all same before current seen ≡ ok seen'
      → place_all same (before ++ behind) current seen ≡ place_all same behind current seen'
  unfolding place_all
  laid_append [] behind current seen seen' e = ground (arith, e)
  laid_append (b ∷ before) behind current seen seen' e =
      placed (λ s. laid_append before behind current s seen') (place same b current seen) refl
    where
      placed :
          ((s : Seen)
            → place_all same before current s ≡ ok seen'
            → place_all same (before ++ behind) current s ≡ place_all same behind current seen')
          → (r : Result Seen) → place same b current seen ≡ r
          → place_all same (b ∷ before ++ behind) current seen ≡ place_all same behind current seen'
      placed rest (err x) p = absurd (ground (arith, p, e))
      placed rest (ok s) p = rw (p, place_all) (rest s (rw (p, place_all) at e))

  -- A body that is nowhere in the batch has no key, which is a `ValueError`.
  pub realign_keys-unknown :
      (keys current before : List Value) (v : Value) (behind : List Value)
      → All IsBody before
      → ((w : Value) → count same equality w before ≤ count same equality w current)
      → count same equality v current ≡ 0
      → realign_keys same keys current (before ++ v ∷ behind) ≡ err (raised value_error)
  unfolding realign_keys place_all place
  realign_keys-unknown keys current before v behind q h none_there =
      let r =
        laid before current [] q tt (λ w. omega (arith, h w, free-nil same equality w 0 current)) in
      let split = laid_append before (v ∷ behind) current [] _ r.placed in
      let unknown = index_of-unknown v 0 current none_there in
      rw (realign_keys, split, place_all, place, unknown)

keys_at-paired :
    (keys current bodies : List Value) (places : List ℕ)
    → length keys ≡ length current
    → Picks current places bodies
    → (aligned : List Value) × (keys_at keys (paired places bodies) ≡ ok aligned)
      × Picks keys places aligned
unfolding keys_at
keys_at-paired keys current [] [] e p = ([], refl, tt)
keys_at-paired keys current (b ∷ bodies) [] e p = absurd p
keys_at-paired keys current [] (i ∷ places) e p = absurd p
keys_at-paired keys current (b ∷ bodies) (i ∷ places) e (f, p) =
    let (key, here) = get_elem?-as_far keys current i e f in
    let (others, rest, picks) = keys_at-paired keys current bodies places e p in
    (key ∷ others, rw (keys_at, here, rest), (here, picks))

-- Each body of a batch has the key that it had in another one.
pub record Aligned (keys current bodies aligned : List Value) : Type 0 where
  pub places : List ℕ
  pub bodies_there : Picks current places bodies
  pub keys_there : Picks keys places aligned
  pub distinct : Distinct places

-- Let the batch that was written back hold no body more often than the current one, in any order,
-- and no body be `None`. Then the search of places ends without an error, and each body gets the
-- key of a place where the current batch has it, no two of them the same place.
pub realign_keys-Aligned :
    (same : Value → Value → Bool) (equality : IsEquality same) (keys current bodies : List Value)
    → length keys ≡ length current
    → All IsBody bodies
    → ((w : Value) → count same equality w bodies ≤ count same equality w current)
    → (aligned : List Value) × (realign_keys same keys current bodies ≡ ok aligned)
      × Aligned keys current bodies aligned
unfolding realign_keys
realign_keys-Aligned same equality keys current bodies e q h =
    let r =
      laid same equality bodies current [] q tt
        (λ w. omega (arith, h w, free-nil same equality w 0 current)) in
    let (aligned, found, picks) = keys_at-paired keys current bodies r.places e r.picks in
    (
      aligned,
      rw (r.placed, realign_keys) found,
      record {
        places = r.places;
        bodies_there = r.picks;
        keys_there = picks;
        distinct = r.distinct;
      },
    )
