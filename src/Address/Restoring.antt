-- ===== src/Address/Restoring.antt =====
-- What becomes of the marks of escaped braces: each turns into its brace, and nothing else is
-- taken for one.
use faststream.Prelude.{
  ℕ, ◌≡◌, refl, ap, ◌∙◌, Bool, true, false, ◌&&◌, List, [], ◌∷◌, ◌++◌, ◌==◌, All, arith,
}
use faststream.Text.{Text}
use faststream.Codec.{startswith}
use faststream.Address.{
  codes, left_brace, right_brace, escaped_left_brace, escaped_right_brace, replace, replace_from,
  restore_braces,
}

pub data Mark : Type 0 where
  plain : ℕ → Mark
  left_mark right_mark : Mark

abbrev pub text_of : List Mark → Text
text_of [] = []
text_of (plain c ∷ fs) = c ∷ text_of fs
text_of (left_mark ∷ fs) = escaped_left_brace ++ text_of fs
text_of (right_mark ∷ fs) = escaped_right_brace ++ text_of fs

-- The text that is meant.
abbrev pub meant : List Mark → Text
meant [] = []
meant (plain c ∷ fs) = c ∷ meant fs
meant (left_mark ∷ fs) = left_brace ∷ meant fs
meant (right_mark ∷ fs) = right_brace ∷ meant fs

abbrev begins : Text → List Mark → Bool
begins [] fs = true
begins (c ∷ w) (plain d ∷ fs) = (d == c) && begins w fs
begins (c ∷ w) _ = false

abbrev stem : Text
stem = codes "faststream"

-- The word "faststream", which the marks hold, does not stand in the text itself.
abbrev pub IsClear : List Mark → Type 0
IsClear [] = Unit
IsClear (f ∷ fs) = (begins stem (f ∷ fs) ≡ false) × IsClear fs

clear_head : (fs : List Mark) → IsClear fs → begins stem fs ≡ false
clear_head [] h = refl
clear_head (f ∷ fs) (e, h) = e

abbrev IsLetter : ℕ → Type 0
IsLetter c = ((c == 95) ≡ false) × ((c == 123) ≡ false)

startswith-begins :
    (w q : Text) (fs : List Mark)
    → All IsLetter w
    → begins w fs ≡ false
    → startswith (text_of fs) (w ++ q) ≡ false
unfolding startswith
startswith-begins [] q fs l h = cc
startswith-begins (c ∷ w) q [] l h = refl
startswith-begins (c ∷ w) q (plain d ∷ fs) (x, l) h = ground (arith, startswith-begins w q fs l)
startswith-begins (c ∷ w) q (left_mark ∷ fs) (x, l) h = ground arith
startswith-begins (c ∷ w) q (right_mark ∷ fs) (x, l) h = ground arith

stem_letters : All IsLetter stem
stem_letters = ground arith

startswith-stem :
    (q : Text) (fs : List Mark) → IsClear fs → startswith (text_of fs) (stem ++ q) ≡ false
startswith-stem q fs h = startswith-begins stem q fs stem_letters (clear_head fs h)

startswith-one :
    (q : Text) (fs : List Mark) → IsClear fs → startswith (text_of fs) (95 ∷ (stem ++ q)) ≡ false
unfolding startswith
startswith-one q [] h = refl
startswith-one q (plain d ∷ fs) (e, h) = ground (arith, startswith-stem q fs h)
startswith-one q (left_mark ∷ fs) h = refl
startswith-one q (right_mark ∷ fs) h = refl

-- One character that no mark begins with.
replace-other :
    (old new : Text) (c : ℕ) (t : Text)
    → startswith (c ∷ t) old ≡ false
    → replace old new (c ∷ t) ≡ c ∷ replace old new t
unfolding replace_from
replace-other old new c t h = rw h

startswith-two :
    (q : Text) (c : ℕ) (fs : List Mark)
    → IsClear fs
    → startswith (c ∷ text_of fs) (95 ∷ (95 ∷ (stem ++ q))) ≡ false
unfolding startswith
startswith-two q c fs h = let rest = startswith-one q fs h in ground (arith, rest)

abbrev left_end : Text
left_end = codes "_escaped_left__"

abbrev right_end : Text
right_end = codes "_escaped_right__"

-- A mark but for its last two characters.
abbrev right_start : Text
right_start = codes "__faststream_escaped_right"

abbrev put_back : List Mark → List Mark
put_back [] = []
put_back (plain c ∷ fs) = plain c ∷ put_back fs
put_back (left_mark ∷ fs) = plain left_brace ∷ put_back fs
put_back (right_mark ∷ fs) = right_mark ∷ put_back fs

replace_left :
    (fs : List Mark)
    → IsClear fs
    → replace escaped_left_brace (left_brace ∷ []) (text_of fs) ≡ text_of (put_back fs)
unfolding replace_from startswith
replace_left [] h = refl
replace_left (plain c ∷ fs) (e, h) =
    replace-other escaped_left_brace (left_brace ∷ []) c (text_of fs)
      (startswith-two left_end c fs h)
    ∙ ap (λ (t : Text). c ∷ t) (replace_left fs h)
replace_left (left_mark ∷ fs) (e, h) = ap (λ (t : Text). left_brace ∷ t) (replace_left fs h)
replace_left (right_mark ∷ fs) (e, h) =
    let last =
      replace-other escaped_left_brace (left_brace ∷ []) 95 (text_of fs)
        (startswith-two left_end 95 fs h) in
    let tail =
      replace-other escaped_left_brace (left_brace ∷ []) 95 (95 ∷ text_of fs)
        (startswith-stem left_end fs h) in
    ap (λ (t : Text). right_start ++ t)
      (tail ∙ ap (λ (t : Text). 95 ∷ t) (last ∙ ap (λ (t : Text). 95 ∷ t) (replace_left fs h)))

begins-put_back :
    (w : Text) (fs : List Mark) → All IsLetter w → begins w (put_back fs) ≡ begins w fs
begins-put_back [] fs l = refl
begins-put_back (c ∷ w) [] l = refl
begins-put_back (c ∷ w) (plain d ∷ fs) (x, l) = rw (begins-put_back w fs l)
begins-put_back (c ∷ w) (left_mark ∷ fs) (x, l) = ground arith
begins-put_back (c ∷ w) (right_mark ∷ fs) (x, l) = refl

put_back-IsClear : (fs : List Mark) → IsClear fs → IsClear (put_back fs)
put_back-IsClear [] h = tt
put_back-IsClear (plain c ∷ fs) (e, h) =
    (begins-put_back stem (plain c ∷ fs) stem_letters ∙ e, put_back-IsClear fs h)
put_back-IsClear (left_mark ∷ fs) (e, h) =
    (begins-put_back stem (left_mark ∷ fs) stem_letters ∙ e, put_back-IsClear fs h)
put_back-IsClear (right_mark ∷ fs) (e, h) =
    (begins-put_back stem (right_mark ∷ fs) stem_letters ∙ e, put_back-IsClear fs h)

replace_right :
    (fs : List Mark)
    → IsClear fs
    → replace escaped_right_brace (right_brace ∷ []) (text_of (put_back fs)) ≡ meant fs
unfolding replace_from startswith
replace_right [] h = refl
replace_right (plain c ∷ fs) (e, h) =
    replace-other escaped_right_brace (right_brace ∷ []) c (text_of (put_back fs))
      (startswith-two right_end c (put_back fs) (put_back-IsClear fs h))
    ∙ ap (λ (t : Text). c ∷ t) (replace_right fs h)
replace_right (left_mark ∷ fs) (e, h) = ap (λ (t : Text). left_brace ∷ t) (replace_right fs h)
replace_right (right_mark ∷ fs) (e, h) = ap (λ (t : Text). right_brace ∷ t) (replace_right fs h)

-- The marks of escaped braces become the braces.
pub restore_braces-meant : (fs : List Mark) → IsClear fs → restore_braces (text_of fs) ≡ meant fs
unfolding restore_braces
restore_braces-meant fs h =
    ap (λ (t : Text). replace escaped_right_brace (right_brace ∷ []) t) (replace_left fs h)
    ∙ replace_right fs h
