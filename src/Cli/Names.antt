-- ===== src/Cli/Names.antt =====
-- How options are written, and the names and values that are read from them.
use faststream.Prelude.{
  ℕ, ◌≡◌, refl, ap, Bool, true, false, not, ◌&&◌, List, [], ◌∷◌, ◌++◌, ◌==◌, map, All, arith,
}
use faststream.Text.{Text, same_text}
use faststream.Codec.{startswith}
use faststream.Cli.{
  dash, colon, equals, underscore, is_space, has_colon, flag, text, Setting, one, many, ExtraKwargs,
  lstrip_spaces, rstrip_spaces, lstrip_dashes, undashed, no_prefix, name_of, key_of, value_of,
}

abbrev pub is_plain : ℕ → Bool
is_plain c = not (c == dash) && not (c == colon) && not (c == equals) && not (is_space c)

abbrev pub NoEquals : Text → Type 0
NoEquals t = All (λ c. (c == equals) ≡ false) t

-- The name of an option: with no dash, colon, equals sign or space, and no "no_" before it.
pub record IsName (n : Text) : Type 0 where
  pub plain : All (λ c. is_plain c ≡ true) n
  pub positive : startswith n no_prefix ≡ false

pub record IsValue (v : Text) : Type 0 where
  pub no_colon : has_colon v ≡ false
  pub no_equals : NoEquals v
  pub no_dash : startswith v (dash ∷ []) ≡ false

-- `--name`, `--no-name`, and `--name` with values.
pub data Given : Type 0 where
  on off : Text → Given
  values : Text → Text → List Text → Given

abbrev pub name : Given → Text
name (on n) = n
name (off n) = n
name (values n v vs) = n

abbrev pub given_values : Given → List Text
given_values (on n) = []
given_values (off n) = []
given_values (values n v vs) = v ∷ vs

abbrev pub written : Given → Text
written (on n) = dash ∷ (dash ∷ n)
written (off n) = dash ∷ (dash ∷ (110 ∷ (111 ∷ (dash ∷ n))))
written (values n v vs) = dash ∷ (dash ∷ n)

abbrev pub setting : Given → Setting
setting (on n) = one (flag true)
setting (off n) = one (flag false)
setting (values n v []) = one (text v)
setting (values n v (w ∷ vs)) = many (map text (v ∷ (w ∷ vs)))

abbrev pub printed : List Given → List Text
printed [] = []
printed (o ∷ options) = written o ∷ given_values o ++ printed options

abbrev pub settings : List Given → ExtraKwargs
settings [] = []
settings (o ∷ options) = (name o, setting o) ∷ settings options

abbrev pub IsGiven : Given → Type 0
IsGiven o = IsName (name o) × All IsValue (given_values o)

-- No option has the name of one before it, or of one that is there.
abbrev pub Distinct : ExtraKwargs → List Given → Type 0
Distinct before [] = Unit
Distinct before (o ∷ options) =
    All (λ (e : Text × Setting). same_text e.0 (name o) ≡ false) before
    × Distinct (before ++ (name o, setting o) ∷ []) options

rstrip_plain : (t : Text) → All (λ c. is_space c ≡ false) t → rstrip_spaces t ≡ t
unfolding rstrip_spaces
rstrip_plain [] a = refl
rstrip_plain (c ∷ []) (s, a) = rw s
rstrip_plain (c ∷ (d ∷ t)) (s, a) = let rest = rstrip_plain (d ∷ t) a in rw rest

undashed_plain : (n : Text) → All (λ c. is_plain c ≡ true) n → map undashed n ≡ n
undashed_plain [] a = refl
undashed_plain (c ∷ n) (p, a) = let rest = undashed_plain n a in ground (arith, rest, p)

lstrip_plain : (n : Text) → All (λ c. is_plain c ≡ true) n → lstrip_dashes n ≡ n
unfolding lstrip_dashes
lstrip_plain [] a = refl
lstrip_plain (c ∷ n) (p, a) = ground (arith, p)

plain_spaces : (n : Text) → All (λ c. is_plain c ≡ true) n → All (λ c. is_space c ≡ false) n
plain_spaces [] a = tt
plain_spaces (c ∷ n) (p, a) = (ground (arith, p), plain_spaces n a)

pub plain_equals : (n : Text) → All (λ c. is_plain c ≡ true) n → NoEquals n
plain_equals [] a = tt
plain_equals (c ∷ n) (p, a) = (ground (arith, p), plain_equals n a)

pub plain_colon : (n : Text) → All (λ c. is_plain c ≡ true) n → has_colon n ≡ false
plain_colon [] a = refl
plain_colon (c ∷ n) (p, a) = let rest = plain_colon n a in ground (arith, p, rest)

name_on : (n : Text) → All (λ c. is_plain c ≡ true) n → name_of (dash ∷ (dash ∷ n)) ≡ n
unfolding name_of lstrip_spaces lstrip_dashes
name_on n a =
    let kept = rstrip_plain (dash ∷ (dash ∷ n)) (refl, (refl, plain_spaces n a)) in
    rw (kept, lstrip_plain n a) (undashed_plain n a)

name_off :
    (n : Text)
    → All (λ c. is_plain c ≡ true) n
    → name_of (dash ∷ (dash ∷ (110 ∷ (111 ∷ (dash ∷ n))))) ≡ 110 ∷ (111 ∷ (underscore ∷ n))
unfolding name_of lstrip_spaces lstrip_dashes
name_off n a =
    let kept =
      rstrip_plain (dash ∷ (dash ∷ (110 ∷ (111 ∷ (dash ∷ n)))))
        (refl, (refl, (refl, (refl, (refl, plain_spaces n a))))) in
    rw kept (ap (λ (t : Text). 110 ∷ (111 ∷ (underscore ∷ t))) (undashed_plain n a))

pub key-written : (o : Given) → IsName (name o) → key_of (name_of (written o)) ≡ name o
unfolding startswith
key-written (on n) g = rw (name_on n g.plain, g.positive)
key-written (values n v vs) g = rw (name_on n g.plain, g.positive)
key-written (off n) g = rw (name_off n g.plain)

pub value-written :
    (o : Given) → IsName (name o) → value_of (name_of (written o)) (given_values o) ≡ setting o
unfolding startswith
value-written (on n) g = rw (name_on n g.plain, g.positive)
value-written (values n v []) g = refl
value-written (values n v (w ∷ vs)) g = refl
value-written (off n) g = rw (name_off n g.plain)
