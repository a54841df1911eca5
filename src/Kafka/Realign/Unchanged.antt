-- ===== src/Kafka/Realign/Unchanged.antt =====
-- Keys of a batch that is written back as it was.
use faststream.Prelude.{
  ℕ, zero, suc, ◌+◌, ◌≤◌, ◌<◌, ◌≡◌, refl, ap, Bool, true, false, some, List, [], ◌∷◌, ◌++◌, ◌==◌,
  drop, get_elem?, length, arith, Bool-cases, inl, inr, ==_iff, All, append_assoc, append-nil,
}
use faststream.Exceptions.{ok}
use faststream.Value.{Value, is_none}
use faststream.Kafka.Realign.{
  Seen, is_unseen, put, index_of, next_free, place, place_all, keys_at, realign_keys,
}

-- The bodies with their places.
abbrev numbered : ℕ → List Value → Seen
numbered i [] = []
numbered i (c ∷ cs) = (i, c) ∷ numbered (suc i) cs

abbrev pub IsBody : Value → Type 0
IsBody v = is_none v ≡ false

All-snoc : (xs : List Value) (c : Value) → All IsBody xs → IsBody c → All IsBody (xs ++ c ∷ [])
All-snoc [] c q p = (p, tt)
All-snoc (x ∷ xs) c (qx, q) p = (qx, All-snoc xs c q p)

length_snoc : (xs : List Value) (c : Value) → length (xs ++ c ∷ []) ≡ suc (length xs)
length_snoc [] c = refl
length_snoc (x ∷ xs) c = ap suc (length_snoc xs c)

get_elem?_middle :
    (xs : List Value) (c : Value) (ys : List Value) → get_elem? (xs ++ c ∷ ys) (length xs) ≡ some c
get_elem?_middle [] c ys = refl
get_elem?_middle (x ∷ xs) c ys = get_elem?_middle xs c ys

unseen_after : (i j : ℕ) (xs : List Value) → i + length xs ≤ j → is_unseen j (numbered i xs) ≡ true
unseen_after i j [] h = refl
unseen_after i j (x ∷ xs) h =
    let rest = unseen_after (suc i) j xs (omega (arith, h)) in ground (arith, rest, ==_iff i j, h)

seen_within :
    (i j : ℕ) (xs : List Value)
    → All IsBody xs
    → i ≤ j
    → j < i + length xs
    → is_unseen j (numbered i xs) ≡ false
seen_within i j [] q l h = absurd (omega (arith, l, h))
seen_within i j (x ∷ xs) (qx, q) l h = elim (Bool-cases (i == j)) [
  | inl same ↦ ground (arith, same, qx)
  | inr other ↦
      let later : suc i ≤ j = ground (arith, other, l) in
      let rest = seen_within (suc i) j xs q later (omega (arith, h)) in ground (arith, other, rest)
]

put_next :
    (i j : ℕ) (b : Value) (xs : List Value)
    → j ≡ i + length xs
    → put j b (numbered i xs) ≡ numbered i (xs ++ b ∷ [])
unfolding put
put_next i j b [] e = let same : j ≡ i = omega (arith, e) in rw same
put_next i j b (x ∷ xs) e =
    let rest = put_next (suc i) j b xs (omega (arith, e)) in ground (arith, rest, ==_iff i j, e)

module _ (same : Value → Value → Bool) (reflexive : (v : Value) → same v v ≡ true) where
  index_of_first :
      (c : Value) (i : ℕ) (xs post : List Value)
      → (j : ℕ) × (index_of same c i (xs ++ c ∷ post) ≡ ok j) × (i ≤ j) × (j ≤ i + length xs)
  unfolding index_of
  index_of_first c i [] post = (i, rw (reflexive c), omega arith, omega arith)
  index_of_first c i (x ∷ xs) post = elim (Bool-cases (same x c)) [
    | inl found ↦ (i, rw (found, index_of), omega arith, omega arith)
    | inr other ↦
        let (j, e, l, u) = index_of_first c (suc i) xs post in
        (j, rw (other, index_of) e, omega (arith, l), omega (arith, u))
  ]

  next_free_end :
      (seen : Seen) (c : Value) (j : ℕ) (xs post : List Value)
      → ((k : ℕ) → j ≤ k → k < j + length xs → is_unseen k seen ≡ false)
      → is_unseen (j + length xs) seen ≡ true
      → next_free same seen c j (xs ++ c ∷ post) ≡ ok (j + length xs)
  unfolding next_free
  next_free_end seen c j [] post h free =
      let e : j + 0 ≡ j = omega arith in
      let here : is_unseen j seen ≡ true = rw e at free in rw (here, reflexive c, e)
  next_free_end seen c j (x ∷ xs) post h free =
      let taken = h j (omega arith) (omega arith) in
      let e : j + length (x ∷ xs) ≡ suc j + length xs = omega arith in
      let rest =
        next_free_end seen c (suc j) xs post (λ k l u. h k (omega (arith, l)) (omega (arith, u)))
          (rw e at free) in
      rw (taken, e) rest

  drop_within :
      (j : ℕ) (xs ys : List Value)
      → j ≤ length xs
      → (drop j (xs ++ ys) ≡ drop j xs ++ ys) × (j + length (drop j xs) ≡ length xs)
  drop_within zero xs ys h = (refl, omega arith)
  drop_within (suc j) [] ys h = absurd (omega (arith, h))
  drop_within (suc j) (x ∷ xs) ys h =
      let (e, l) = drop_within j xs ys (omega (arith, h)) in (e, omega (arith, l))

  place_next :
      (c : Value) (xs post : List Value)
      → All IsBody xs
      → place same c (xs ++ c ∷ post) (numbered 0 xs) ≡ ok (numbered 0 (xs ++ c ∷ []))
  unfolding place
  place_next c xs post q =
      let (j, found, l, u) = index_of_first c 0 xs post in
      let next = put_next 0 (length xs) c xs (omega arith) in
      elim (Bool-cases (is_unseen j (numbered 0 xs))) [
        | inl free ↦
            let within = seen_within 0 j xs q (omega arith) in
            let last : j ≡ length xs = ground (arith, free, u, within) in
            rw (found, place, free, last) (ap ok next)
        | inr taken ↦
            let (split, size) = drop_within j xs (c ∷ post) (omega (arith, u)) in
            let end =
              next_free_end (numbered 0 xs) c j (drop j xs) post
                (λ k kl ku. seen_within 0 k xs q (omega arith) (omega (arith, ku, size)))
                (unseen_after 0 (j + length (drop j xs)) xs (omega (arith, size))) in
            rw (found, place, taken, split, end, size) (ap ok next)
      ]

  place_all_next :
      (xs post : List Value)
      → All IsBody xs
      → All IsBody post
      → place_all same post (xs ++ post) (numbered 0 xs) ≡ ok (numbered 0 (xs ++ post))
  unfolding place_all
  place_all_next xs [] q p = rw (append-nil xs)
  place_all_next xs (c ∷ post) q (pc, p) =
      let step = place_next c xs post q in
      let joined : (xs ++ c ∷ []) ++ post ≡ xs ++ c ∷ post = append_assoc xs (c ∷ []) post in
      let rest = place_all_next (xs ++ c ∷ []) post (All-snoc xs c q pc) p in
      rw (step, place_all) (rw joined at rest)

keys_at_all :
    (before keys : List Value) (bodies : List Value)
    → length keys ≡ length bodies
    → keys_at (before ++ keys) (numbered (length before) bodies) ≡ ok keys
unfolding keys_at
keys_at_all before [] [] e = refl
keys_at_all before [] (b ∷ bodies) e = absurd (omega (arith, e))
keys_at_all before (k ∷ keys) [] e = absurd (omega (arith, e))
keys_at_all before (k ∷ keys) (b ∷ bodies) e =
    let here : get_elem? (before ++ k ∷ keys) (length before) ≡ some k =
      get_elem?_middle before k keys in
    let rest = keys_at_all (before ++ k ∷ []) keys bodies (omega (arith, e)) in
    let joined : (before ++ k ∷ []) ++ keys ≡ before ++ k ∷ keys =
      append_assoc before (k ∷ []) keys in
    let size : length (before ++ k ∷ []) ≡ suc (length before) = length_snoc before k in
    let others : keys_at (before ++ k ∷ keys) (numbered (suc (length before)) bodies) ≡ ok keys =
      rw (joined, size) at rest in
    rw (keys_at, here, others)

-- A batch whose bodies are written back as they were keeps its keys, each at its place, also where
-- bodies are equal to each other, if no body is `None`.
pub realign_keys-unchanged :
    (same : Value → Value → Bool)
    → ((v : Value) → same v v ≡ true)
    → (keys bodies : List Value) → All IsBody bodies
    → length keys ≡ length bodies
    → realign_keys same keys bodies bodies ≡ ok keys
unfolding realign_keys
realign_keys-unchanged same reflexive keys bodies q e =
    rw (place_all_next same reflexive [] bodies tt q, realign_keys) (keys_at_all [] keys bodies e)
