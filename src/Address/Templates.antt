-- ===== src/Address/Templates.antt =====
-- Declarations as they are written: characters, escaped braces and parameters; and how the parser
-- takes them apart.
use faststream.Prelude.{
  ℕ, suc, ◌≡◌, refl, ap, ◌∙◌, Bool, true, false, ◌||◌, some, List, [], ◌∷◌, ◌++◌, ◌==◌, All, length,
  arith,
}
use faststream.Text.{Text}
use faststream.Address.{
  left_brace, right_brace, escaped_left_brace, escaped_right_brace, escape_literal_braces, is_word,
  closes, match_name, match_param, Piece, param, with_char, find_params,
}

pub data Symbol : Type 0 where
  char : ℕ → Symbol
  -- "{{" and "}}"
  left right : Symbol
  named : Text → Symbol

-- The declaration.
abbrev pub print : List Symbol → Text
print [] = []
print (char c ∷ ss) = c ∷ print ss
print (left ∷ ss) = left_brace ∷ left_brace ∷ print ss
print (right ∷ ss) = right_brace ∷ right_brace ∷ print ss
print (named n ∷ ss) = left_brace ∷ (n ++ right_brace ∷ print ss)

-- The declaration with its escaped braces marked.
abbrev pub marked : List Symbol → Text
marked [] = []
marked (char c ∷ ss) = c ∷ marked ss
marked (left ∷ ss) = escaped_left_brace ++ marked ss
marked (right ∷ ss) = escaped_right_brace ++ marked ss
marked (named n ∷ ss) = left_brace ∷ (n ++ right_brace ∷ marked ss)

abbrev pub is_brace : ℕ → Bool
is_brace c = (c == left_brace) || (c == right_brace)

abbrev pub IsName : Text → Type 0
IsName [] = ⊥
IsName (c ∷ n) = All (λ d. is_word d ≡ true) (c ∷ n)

abbrev pub is_right : List Symbol → Bool
is_right (right ∷ ss) = true
is_right _ = false

-- A single brace is no character, a name is of word characters, and no escaped right brace stands
-- directly behind a parameter.
abbrev pub IsTemplate : List Symbol → Type 0
IsTemplate [] = Unit
IsTemplate (char c ∷ ss) = (is_brace c ≡ false) × IsTemplate ss
IsTemplate (left ∷ ss) = IsTemplate ss
IsTemplate (right ∷ ss) = IsTemplate ss
IsTemplate (named n ∷ ss) = IsName n × (is_right ss ≡ false) × IsTemplate ss

word_no_brace : (c : ℕ) → is_word c ≡ true → is_brace c ≡ false
word_no_brace c h = ground arith

escape_other :
    (c : ℕ) (t : Text)
    → is_brace c ≡ false
    → escape_literal_braces (c ∷ t) ≡ c ∷ escape_literal_braces t
unfolding escape_literal_braces
escape_other c [] h = refl
escape_other c (d ∷ t) h = ground arith

pub escape_word :
    (n t : Text)
    → All (λ d. is_word d ≡ true) n
    → escape_literal_braces (n ++ t) ≡ n ++ escape_literal_braces t
escape_word [] t h = refl
escape_word (c ∷ n) t (w, h) =
    escape_other c (n ++ t) (word_no_brace c w) ∙ ap (λ (l : Text). c ∷ l) (escape_word n t h)

pub escape_open :
    (n t : Text)
    → IsName n
    → escape_literal_braces (left_brace ∷ (n ++ t)) ≡ left_brace ∷ escape_literal_braces (n ++ t)
unfolding escape_literal_braces
escape_open [] t h = absurd h
escape_open (c ∷ n) t (w, h) = ground (arith, word_no_brace c w)

escape_close :
    (ss : List Symbol)
    → is_right ss ≡ false
    → IsTemplate ss
    → escape_literal_braces (right_brace ∷ print ss)
      ≡ right_brace ∷ escape_literal_braces (print ss)
unfolding escape_literal_braces
escape_close [] r h = refl
escape_close (char c ∷ ss) r (b, h) = ground arith
escape_close (left ∷ ss) r h = refl
escape_close (right ∷ ss) r h = cc
escape_close (named n ∷ ss) r h = refl

pub IsName-All : (n : Text) → IsName n → All (λ d. is_word d ≡ true) n
IsName-All [] h = absurd h
IsName-All (c ∷ n) h = h

pub escape-print : (ss : List Symbol) → IsTemplate ss → escape_literal_braces (print ss) ≡ marked ss
unfolding escape_literal_braces
escape-print [] h = refl
escape-print (char c ∷ ss) (b, h) =
    escape_other c (print ss) b ∙ ap (λ (l : Text). c ∷ l) (escape-print ss h)
escape-print (left ∷ ss) h = ap (λ (l : Text). escaped_left_brace ++ l) (escape-print ss h)
escape-print (right ∷ ss) h = ap (λ (l : Text). escaped_right_brace ++ l) (escape-print ss h)
escape-print (named n ∷ ss) (w, r, h) =
    escape_open n (right_brace ∷ print ss) w
    ∙ ap (λ (l : Text). left_brace ∷ l)
        (escape_word n (right_brace ∷ print ss) (IsName-All n w)
          ∙ ap (λ (l : Text). n ++ l)
              (escape_close ss r h ∙ ap (λ (l : Text). right_brace ∷ l) (escape-print ss h)))

-- What the parser finds.
abbrev pub with_text : Text → List Piece → List Piece
with_text [] pieces = pieces
with_text (c ∷ t) pieces = with_char c (with_text t pieces)

abbrev pub pieces_of : List Symbol → List Piece
pieces_of [] = []
pieces_of (char c ∷ ss) = with_char c (pieces_of ss)
pieces_of (left ∷ ss) = with_text escaped_left_brace (pieces_of ss)
pieces_of (right ∷ ss) = with_text escaped_right_brace (pieces_of ss)
pieces_of (named n ∷ ss) = param n ∷ pieces_of ss

match_name-word :
    (n t : Text)
    → All (λ d. is_word d ≡ true) n
    → closes t ≡ true
    → match_name (n ++ right_brace ∷ t) ≡ some n
unfolding match_name
match_name-word [] t h e = ground arith
match_name-word (c ∷ n) t (w, h) e = ground (arith, match_name-word n t h e)

closes-marked : (ss : List Symbol) → IsTemplate ss → closes (marked ss) ≡ true
closes-marked [] h = refl
closes-marked (char c ∷ ss) (b, h) = ground arith
closes-marked (left ∷ ss) h = refl
closes-marked (right ∷ ss) h = refl
closes-marked (named n ∷ ss) h = refl

find_params-skip :
    (n t : Text) (prev : ℕ)
    → find_params (suc (length n)) prev (n ++ right_brace ∷ t) ≡ find_params 0 right_brace t
unfolding find_params
find_params-skip [] t prev = refl
find_params-skip (c ∷ n) t prev = find_params-skip n t c

pub find_params-named :
    (n t : Text) (prev : ℕ)
    → IsName n
    → (prev == left_brace) ≡ false
    → closes t ≡ true
    → find_params 0 prev (left_brace ∷ (n ++ right_brace ∷ t))
      ≡ param n ∷ find_params 0 right_brace t
unfolding find_params match_param
find_params-named [] t prev w p e = absurd w
find_params-named (c ∷ n) t prev w p e =
    let found = match_name-word (c ∷ n) t w e in
    let skipped = find_params-skip (c ∷ n) t left_brace in ground (arith, found, skipped)

find_params-char :
    (c prev : ℕ) (t : Text)
    → is_brace c ≡ false
    → find_params 0 prev (c ∷ t) ≡ with_char c (find_params 0 c t)
unfolding find_params match_param
find_params-char c prev t h = ground arith

pub find_params-marked :
    (ss : List Symbol) (prev : ℕ)
    → IsTemplate ss
    → (prev == left_brace) ≡ false
    → find_params 0 prev (marked ss) ≡ pieces_of ss
unfolding find_params match_param
find_params-marked [] prev h p = refl
find_params-marked (char c ∷ ss) prev (b, h) p =
    find_params-char c prev (marked ss) b
    ∙ ap (λ (l : List Piece). with_char c l) (find_params-marked ss c h (ground arith))
find_params-marked (left ∷ ss) prev h p =
    ap (λ (l : List Piece). with_text escaped_left_brace l) (find_params-marked ss 95 h refl)
find_params-marked (right ∷ ss) prev h p =
    ap (λ (l : List Piece). with_text escaped_right_brace l) (find_params-marked ss 95 h refl)
find_params-marked (named n ∷ ss) prev (w, r, h) p =
    find_params-named n (marked ss) prev w p (closes-marked ss h)
    ∙ ap (λ (l : List Piece). param n ∷ l) (find_params-marked ss right_brace h refl)
