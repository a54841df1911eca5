-- ===== src/Nats/Wildcards.antt =====
-- Subjects and patterns.
use faststream.Prelude.{
  ◌≡◌, ◌≢◌, ◌↔◌, refl, sym, ◌∙◌, if◌then◌else◌, Bool, true, false, none, some, List, [], ◌∷◌, ◌==◌,
  arith, length, Bool-cases, inl, inr,
}
use faststream.Text.{Text, same_text, same_text_iff, same_text_refl, different, split}
use faststream.Nats.{dot, star, tail, match_parts, is_subject_match_wildcard}

-- The words of a subject match those of a pattern: `>` takes all words that are left, of which
-- there is at least one, `*` takes one word but `>`, and any other word takes itself.
pub data Matches : List Text → List Text → Type 0 where
  ended : Matches [] []
  rest : (s : Text) (ss ps : List Text) → Matches (s ∷ ss) (tail ∷ ps)
  one : (s : Text) (ss ps : List Text) → s ≢ tail → Matches ss ps → Matches (s ∷ ss) (star ∷ ps)
  word : (s : Text) (ss ps : List Text) → s ≢ tail → Matches ss ps → Matches (s ∷ ss) (s ∷ ps)

abbrev answer : List Text → List Text → Bool
answer ss ps = elim (match_parts ss ps) [ some b ↦ b | none ↦ length ss == length ps ]

star-tail : same_text star tail ≡ false
unfolding same_text
star-tail = refl

same_length :
    (s p : Text) (ss ps : List Text)
    → (length (s ∷ ss) == length (p ∷ ps)) ≡ (length ss == length ps)
same_length s p ss ps = ground arith

-- What the first words ask for, of the rest.
abbrev stepped : Text → Text → Bool → Bool
stepped s p remainder =
    if same_text p tail
    then true
    else if same_text p star
    then (if same_text s tail then false else remainder)
    else if same_text s p
    then remainder
    else false

answer-cons :
    (s p : Text) (ss ps : List Text) → answer (s ∷ ss) (p ∷ ps) ≡ stepped s p (answer ss ps)
unfolding match_parts
answer-cons s p ss ps = let e = same_length s p ss ps in ground arith

Matches-answer : {ss ps : List Text} → Matches ss ps → answer ss ps ≡ true
unfolding match_parts
Matches-answer ended = refl
Matches-answer (rest s ss ps) =
    let e = same_text_refl tail in rw (answer-cons s tail ss ps) (ground arith)
Matches-answer (one s ss ps h m) =
    let ih = Matches-answer m in
    let not_tail = different s tail h in
    let apart = star-tail in
    let e = same_text_refl star in rw (answer-cons s star ss ps, ih) (ground arith)
Matches-answer (word s ss ps h m) =
    let ih = Matches-answer m in
    let not_tail = different s tail h in
    let e = same_text_refl s in rw (answer-cons s s ss ps, ih) (ground arith)

answer-Matches : (ss ps : List Text) → answer ss ps ≡ true → Matches ss ps
unfolding match_parts
answer-Matches [] [] h = ended
answer-Matches [] (p ∷ ps) h = absurd (ground arith)
answer-Matches (s ∷ ss) [] h = absurd (ground arith)
answer-Matches (s ∷ ss) (p ∷ ps) h =
    let step = sym (answer-cons s p ss ps) ∙ h in
    elim (Bool-cases (same_text p tail)) [
      | inl last ↦ let e = (same_text_iff p tail).0 last in rw e (rest s ss ps)
      | inr more ↦ elim (Bool-cases (same_text p star)) [
        | inl any_word ↦
            let e = (same_text_iff p star).0 any_word in
            rw e (
              one s ss ps (λ h2. let t = (same_text_iff s tail).1 h2 in ground arith)
                (answer-Matches ss ps (ground arith)))
        | inr literal ↦
            let e = (same_text_iff s p).0 (ground arith) in
            rw⁻¹ e (
              word s ss ps (λ h2. let t = (same_text_iff p tail).1 (sym e ∙ h2) in ground arith)
                (answer-Matches ss ps (ground arith)))
      ]
    ]

-- A subject is delivered to a pattern exactly if their words match.
pub is_subject_match_wildcard_iff :
    (subject pattern : Text)
    → (is_subject_match_wildcard subject pattern ≡ true)
      ↔ Matches (split dot subject) (split dot pattern)
unfolding is_subject_match_wildcard
is_subject_match_wildcard_iff subject pattern =
    (answer-Matches (split dot subject) (split dot pattern), Matches-answer)
