-- ===== src/Rabbit.antt =====
-- rabbit/testing.py: the topic patterns of the in-memory broker.
pub mod Topics
pub mod Declarer
pub mod Testing
pub mod Delivery
use faststream.Prelude.{
  ℕ, Bool, true, false, ◌||◌, Option, none, some, List, [], ◌∷◌, if◌then◌else◌,
}
use faststream.Text.{Text, same_text, split}

-- "#" and "*", and the separator "."
abbrev pub hash : Text
hash = 35 ∷ []

abbrev pub star : Text
star = 42 ∷ []

abbrev pub dot : ℕ
dot = 46

-- `next(current_queue, None) is None`, and the test that an empty word fails
abbrev pub is_nil {ℓ} : {A : Type ℓ} → List A → Bool
is_nil [] = true
is_nil (_ ∷ _) = false

-- while next_symb != next_pattern: …; what is left behind it
unfoldable pub seek : Text → Text → List Text → Option (List Text)
seek next_pattern s [] = if same_text s next_pattern then some [] else none
seek next_pattern s (c ∷ current) =
    let rest = seek next_pattern c current in
    if same_text s next_pattern then some (c ∷ current) else rest

-- The words of the pattern that are left, and those of the routing key. `hash_words` is what
-- follows a "#": the pattern from `next_pattern` on, `next_symb`, and what is left. A pattern that
-- has ended equals no word.
unfoldable mutual
  pub apply_words : List Text → List Text → Bool
  apply_words [] current = is_nil current
  apply_words (p ∷ pattern) [] = is_nil p
  apply_words (p ∷ pattern) (s ∷ current) =
      if is_nil p
      then false
      else if same_text p hash
      then elim pattern [
        | [] ↦ true
        | _ ∷ _ ↦ elim current [ [] ↦ false | next_symb ∷ left ↦ hash_words pattern next_symb left ]
      ]
      else if same_text p star || same_text p s
      then apply_words pattern current
      else false

  pub hash_words : List Text → Text → List Text → Bool
  hash_words [] s current = false
  hash_words (n ∷ pattern) s current =
      if same_text n star
      then elim current [ [] ↦ false | next_symb ∷ left ↦ hash_words pattern next_symb left ]
      else elim (seek n s current) [ none ↦ false | some left ↦ apply_words pattern left ]

unfoldable pub apply_pattern : Text → Text → Bool
apply_pattern pattern current = apply_words (split dot pattern) (split dot current)
