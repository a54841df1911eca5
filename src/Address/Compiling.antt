-- ===== src/Address/Compiling.antt =====
-- What a template compiles to, and what it reads like.
use faststream.Prelude.{
  ◌≡◌, refl, sym, ap, ◌∙◌, true, List, [], ◌∷◌, ◌++◌, All, append_assoc, arith,
}
use faststream.Text.{Text}
use faststream.Address.{
  left_brace, right_brace, escaped_right_brace, escape_literal_braces, is_word, find_params,
  params_of,
}
use faststream.Address.Templates.{
  Symbol, char, left, right, named, print, IsName, escape_word, escape_open, find_params-named,
  IsName-All,
}
use faststream.Address.Restoring.{Mark, plain, left_mark, right_mark}

abbrev plains : Text → List Mark
plains [] = []
plains (c ∷ t) = plain c ∷ plains t

-- A template with each parameter written as `f` says: as marks, and as it is meant.
module _ (f : Text → Text) where
  abbrev pub flat : List Symbol → List Mark
  flat [] = []
  flat (char c ∷ ss) = plain c ∷ flat ss
  flat (left ∷ ss) = left_mark ∷ flat ss
  flat (right ∷ ss) = right_mark ∷ flat ss
  flat (named n ∷ ss) = plains (f n) ++ flat ss

  abbrev pub spelled : List Symbol → Text
  spelled [] = []
  spelled (char c ∷ ss) = c ∷ spelled ss
  spelled (left ∷ ss) = left_brace ∷ spelled ss
  spelled (right ∷ ss) = right_brace ∷ spelled ss
  spelled (named n ∷ ss) = f n ++ spelled ss

-- "{name}"
abbrev pub braced : Text → Text
braced n = left_brace ∷ (n ++ right_brace ∷ [])

abbrev pub names : List Symbol → List Text
names [] = []
names (named n ∷ ss) = n ∷ names ss
names (char c ∷ ss) = names ss
names (left ∷ ss) = names ss
names (right ∷ ss) = names ss

All-join :
    (n t : Text)
    → All (λ d. is_word d ≡ true) n
    → All (λ d. is_word d ≡ true) t
    → All (λ d. is_word d ≡ true) (n ++ t)
All-join [] t h k = k
All-join (c ∷ n) t (w, h) k = (w, All-join n t h k)

IsName-append : (n t : Text) → IsName n → All (λ d. is_word d ≡ true) t → IsName (n ++ t)
IsName-append [] t h k = absurd h
IsName-append (c ∷ n) t (w, h) k = (w, All-join n t h k)

mark_words : All (λ d. is_word d ≡ true) escaped_right_brace
mark_words = ground arith

-- An escaped right brace directly behind a parameter is taken into the parameter's name: the first
-- two of the three braces are read as the escape, and its mark is made of word characters.
pub find_params-brace_behind :
    (n : Text)
    → IsName n
    → params_of (find_params 0 0 (escape_literal_braces (print (named n ∷ right ∷ []))))
      ≡ (n ++ escaped_right_brace) ∷ []
unfolding escape_literal_braces find_params
find_params-brace_behind n w =
    let behind : Text = right_brace ∷ right_brace ∷ right_brace ∷ [] in
    let escaped : escape_literal_braces (print (named n ∷ right ∷ []))
        ≡ left_brace ∷ ((n ++ escaped_right_brace) ++ right_brace ∷ []) =
      escape_open n behind w
      ∙ ap (λ (l : Text). left_brace ∷ l)
          (escape_word n behind (IsName-All n w)
            ∙ sym (append_assoc n escaped_right_brace (right_brace ∷ []))) in
    let found =
      find_params-named (n ++ escaped_right_brace) [] 0
        (IsName-append n escaped_right_brace w mark_words) refl refl in
    ap (λ (l : Text). params_of (find_params 0 0 l)) escaped ∙ ap params_of found
