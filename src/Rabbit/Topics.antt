-- ===== src/Rabbit/Topics.antt =====
-- Topic patterns against what AMQP says of them.
use faststream.Prelude.{
  ◌≡◌, ◌≢◌, refl, Bool, true, false, ◌||◌, some, List, [], ◌∷◌, arith, Bool-cases, Option-cases,
  inl, inr, if◌then◌else◌, All,
}
use faststream.Text.{Text, same_text, same_text_iff, same_text_refl, different, split}
use faststream.Rabbit.{hash, star, dot, is_nil, seek, apply_words, hash_words, apply_pattern}

-- AMQP: `#` takes zero or more words, `*` takes one, any other word takes itself.
pub data Matches : List Text → List Text → Type 0 where
  ended : Matches [] []
  word : (s : Text) (ps cs : List Text) → Matches ps cs → Matches (s ∷ ps) (s ∷ cs)
  one : (s : Text) (ps cs : List Text) → Matches ps cs → Matches (star ∷ ps) (s ∷ cs)
  no_more : (ps cs : List Text) → Matches ps cs → Matches (hash ∷ ps) cs
  one_more : (s : Text) (ps cs : List Text) → Matches (hash ∷ ps) cs → Matches (hash ∷ ps) (s ∷ cs)

abbrev pub IsWord : Text → Type 0
IsWord t = is_nil t ≡ false

all_more : (cs : List Text) → Matches (hash ∷ []) cs
all_more [] = no_more [] [] ended
all_more (c ∷ cs) = one_more c [] cs (all_more cs)

star_after :
    (s : Text) (ps cs : List Text) → Matches (hash ∷ ps) cs → Matches (hash ∷ (star ∷ ps)) (s ∷ cs)
star_after s ps cs (no_more _ _ m) = no_more (star ∷ ps) (s ∷ cs) (one s ps cs m)
star_after s ps _ (one_more c _ cs m) = one_more s (star ∷ ps) (c ∷ cs) (star_after c ps cs m)
star_after s ps _ (word _ _ cs m) =
    one_more s (star ∷ ps) (hash ∷ cs) (no_more (star ∷ ps) (hash ∷ cs) (one hash ps cs m))

seek-Matches :
    (n s : Text) (ps cs left : List Text)
    → seek n s cs ≡ some left
    → Matches ps left
    → Matches (hash ∷ (n ∷ ps)) (s ∷ cs)
unfolding seek
seek-Matches n s ps [] left h m = elim (Bool-cases (same_text s n)) [
  | inl found ↦
      let e = (same_text_iff s n).0 found in
      let l : left ≡ [] = ground arith in
      no_more (n ∷ ps) (s ∷ []) (rw e (word n ps [] (rw l at m)))
  | inr other ↦ absurd (ground arith)
]
seek-Matches n s ps (c ∷ cs) left h m = elim (Bool-cases (same_text s n)) [
  | inl found ↦
      let e = (same_text_iff s n).0 found in
      let l : left ≡ c ∷ cs = ground arith in
      no_more (n ∷ ps) (s ∷ (c ∷ cs)) (rw e (word n ps (c ∷ cs) (rw l at m)))
  | inr other ↦ one_more s (n ∷ ps) (c ∷ cs) (seek-Matches n c ps cs left (ground arith) m)
]

-- A word that is no `#`, before words that match if `rest` is true.
first_word :
    (p s : Text) (ps cs : List Text) (rest : Bool)
    → (if same_text p star || same_text p s then rest else false) ≡ true
    → (rest ≡ true → Matches ps cs)
    → Matches (p ∷ ps) (s ∷ cs)
first_word p s ps cs rest h m = elim (Bool-cases (same_text p star)) [
  | inl any_word ↦
      let e = (same_text_iff p star).0 any_word in rw e (one s ps cs (m (ground arith)))
  | inr literal ↦
      let e = (same_text_iff p s).0 (ground arith) in rw e (word s ps cs (m (ground arith)))
]

mutual
  unfolding apply_words hash_words

  apply_words-Matches :
      (ps cs : List Text) → All IsWord ps → apply_words ps cs ≡ true → Matches ps cs
  apply_words-Matches [] [] q h = ended
  apply_words-Matches [] (c ∷ cs) q h = absurd (ground arith)
  apply_words-Matches (p ∷ ps) [] (qp, q) h = absurd (ground arith)
  apply_words-Matches (p ∷ []) (s ∷ cs) (qp, q) h = elim (Bool-cases (same_text p hash)) [
    | inl hashed ↦ let e = (same_text_iff p hash).0 hashed in rw e (all_more (s ∷ cs))
    | inr other ↦
        first_word p s ([]) (cs) (apply_words ([]) (cs)) (ground arith)
          (apply_words-Matches ([]) (cs) q)
  ]
  apply_words-Matches (p ∷ (n ∷ ps)) (s ∷ []) (qp, q) h = elim (Bool-cases (same_text p hash)) [
    | inl hashed ↦ absurd (ground arith)
    | inr other ↦
        first_word p s (n ∷ ps) ([]) (apply_words (n ∷ ps) ([])) (ground arith)
          (apply_words-Matches (n ∷ ps) ([]) q)
  ]
  apply_words-Matches (p ∷ (n ∷ ps)) (s ∷ (c ∷ cs)) (qp, q) h =
      elim (Bool-cases (same_text p hash)) [
        | inl hashed ↦
            let e = (same_text_iff p hash).0 hashed in
            rw e (one_more s (n ∷ ps) (c ∷ cs) (hash_words-Matches (n ∷ ps) c cs q (ground arith)))
        | inr other ↦
            first_word p s (n ∷ ps) (c ∷ cs) (apply_words (n ∷ ps) (c ∷ cs)) (ground arith)
              (apply_words-Matches (n ∷ ps) (c ∷ cs) q)
      ]

  hash_words-Matches :
      (ps : List Text) (s : Text) (cs : List Text)
      → All IsWord ps
      → hash_words ps s cs ≡ true
      → Matches (hash ∷ ps) (s ∷ cs)
  hash_words-Matches [] s cs q h = absurd (ground arith)
  hash_words-Matches (n ∷ ps) s [] (qn, q) h = elim (Bool-cases (same_text n star)) [
    | inl starred ↦ absurd (ground arith)
    | inr literal ↦ elim (Option-cases (seek n s ([]))) [
      | inl missing ↦ absurd (ground arith)
      | inr (left, found) ↦
          seek-Matches n s ps ([]) left found (apply_words-Matches ps left q (ground arith))
    ]
  ]
  hash_words-Matches (n ∷ ps) s (c ∷ cs) (qn, q) h = elim (Bool-cases (same_text n star)) [
    | inl starred ↦
        let e = (same_text_iff n star).0 starred in
        rw e (star_after s ps (c ∷ cs) (hash_words-Matches ps c cs q (ground arith)))
    | inr literal ↦ elim (Option-cases (seek n s (c ∷ cs))) [
      | inl missing ↦ absurd (ground arith)
      | inr (left, found) ↦
          seek-Matches n s ps (c ∷ cs) left found (apply_words-Matches ps left q (ground arith))
    ]
  ]

abbrev pub HasNoHash : List Text → Type 0
HasNoHash ps = All (λ p. p ≢ hash) ps

Matches-apply_words :
    {ps cs : List Text} → Matches ps cs → All IsWord ps → HasNoHash ps → apply_words ps cs ≡ true
unfolding apply_words
Matches-apply_words ended q n = refl
Matches-apply_words (word s ps cs m) (qs, q) (ns, n) =
    let ih = Matches-apply_words m q n in
    let e = same_text_refl s in let d = different s hash ns in ground arith
Matches-apply_words (one s ps cs m) (qs, q) (ns, n) =
    let ih = Matches-apply_words m q n in
    let e = same_text_refl star in let d = different star hash ns in ground arith
Matches-apply_words (no_more ps cs m) q (ns, n) = absurd (ns refl)
Matches-apply_words (one_more s ps cs m) q (ns, n) = absurd (ns refl)

-- A routing key that is not empty and that the in-memory broker delivers to a topic pattern matches
-- it as AMQP says, if the pattern has no empty word. For a pattern without `#` the converse holds too.
pub apply_pattern-Matches :
    (pattern current : Text)
    → current ≢ []
    → All IsWord (split dot pattern)
    → (apply_pattern pattern current ≡ true → Matches (split dot pattern) (split dot current))
      × (HasNoHash (split dot pattern)
          → Matches (split dot pattern) (split dot current)
          → apply_pattern pattern current ≡ true)
unfolding apply_pattern
apply_pattern-Matches pattern current given q = (
  apply_words-Matches (split dot pattern) (split dot current) q,
  λ n m. Matches-apply_words m q n,
)
