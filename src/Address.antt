-- ===== src/Address.antt =====
-- _internal/utils/path.py: address templates, the addresses that they stand for on a broker, and
-- the regular expressions that read their parameters back.
pub mod Templates
pub mod Restoring
pub mod Compiling
use Prim.Native.Char.{code}
use faststream.Prelude.{
  ℕ, ◌-◌, ◌+◌, suc, zero, String, Bool, true, false, not, ◌&&◌, ◌||◌, Option, none, some, List, [],
  ◌∷◌, ◌++◌, ◌==◌, leb, any, length, if◌then◌else◌,
}
use faststream.Exceptions.{Exc, Result, ok, err, raised, derived, builtin, exception, setup_error}
use faststream.Text.{Text, same_text}
use faststream.Codec.{startswith}

abbrev pub codes : String → Text
codes String.[] = []
codes (String.◌∷◌ c s) = code c ∷ codes s

-- "{", "}" and the marks that stand for literal braces while a declaration is parsed
abbrev pub left_brace : ℕ
left_brace = 123

abbrev pub right_brace : ℕ
right_brace = 125

abbrev pub escaped_left_brace : Text
escaped_left_brace = codes "__faststream_escaped_left__"

abbrev pub escaped_right_brace : Text
escaped_right_brace = codes "__faststream_escaped_right__"

abbrev pub is_pair : ℕ → ℕ → ℕ → Bool
is_pair brace c d = (c == brace) && (d == brace)

-- _escape_literal_braces
unfoldable pub escape_literal_braces : Text → Text
escape_literal_braces [] = []
escape_literal_braces (c ∷ []) = c ∷ []
escape_literal_braces (c ∷ (d ∷ path)) =
    let behind_pair = escape_literal_braces path in
    let behind_one = escape_literal_braces (d ∷ path) in
    if is_pair left_brace c d
    then escaped_left_brace ++ behind_pair
    else if is_pair right_brace c d
    then escaped_right_brace ++ behind_pair
    else c ∷ behind_one

-- text.replace(old, new), where `skip` more characters belong to what was replaced
unfoldable pub replace_from : ℕ → Text → Text → Text → Text
unfolding startswith
replace_from skip old new [] = []
replace_from (suc skip) old new (c ∷ text) = replace_from skip old new text
replace_from zero old new (c ∷ text) =
    let behind_old = replace_from (length old - 1) old new text in
    let behind_one = replace_from 0 old new text in
    if startswith (c ∷ text) old then new ++ behind_old else c ∷ behind_one

abbrev pub replace : Text → Text → Text → Text
replace old new text = replace_from 0 old new text

-- _restore_braces and _restore_braces_in_regex
unfoldable pub restore_braces : Text → Text
unfolding replace_from
restore_braces fragment =
    replace escaped_right_brace (right_brace ∷ [])
      (replace escaped_left_brace (left_brace ∷ []) fragment)

unfoldable pub restore_braces_in_regex : Text → Text
unfolding replace_from
restore_braces_in_regex fragment =
    replace escaped_right_brace (codes "\\}") (replace escaped_left_brace (codes "\\{") fragment)

unfoldable pub restore_literal_braces : Text → Text
unfolding escape_literal_braces restore_braces
restore_literal_braces path = restore_braces (escape_literal_braces path)

-- [a-zA-Z0-9_]
abbrev pub is_word : ℕ → Bool
is_word c =
    (leb 97 c && leb c 122) || ((leb 65 c && leb c 90) || ((leb 48 c && leb c 57) || (c == 95)))

-- [a-zA-Z0-9_]+, then `}` that no other `}` follows. What is taken before the brace is the name.
abbrev pub closes : Text → Bool
closes [] = true
closes (c ∷ text) = not (c == right_brace)

unfoldable pub match_name : Text → Option Text
match_name [] = none
match_name (c ∷ text) =
    let rest = match_name text in
    if is_word c
    then elim rest [ none ↦ none | some name ↦ some (c ∷ name) ]
    else if (c == right_brace) && closes text
    then some []
    else none

abbrev not_empty : Option Text → Option Text
not_empty none = none
not_empty (some []) = none
not_empty (some (c ∷ name)) = some (c ∷ name)

-- PARAM_REGEX at one place, behind the character `prev`
unfoldable pub match_param : ℕ → Text → Option Text
unfolding match_name
match_param prev [] = none
match_param prev (c ∷ text) =
    if (c == left_brace) && not (prev == left_brace) then not_empty (match_name text) else none

-- What `finditer` cuts the path into.
pub data Piece : Type 0 where
  literal : Text → Piece
  param : Text → Piece

abbrev pub with_char : ℕ → List Piece → List Piece
with_char c (literal t ∷ pieces) = literal (c ∷ t) ∷ pieces
with_char c [] = literal (c ∷ []) ∷ []
with_char c (param name ∷ pieces) = literal (c ∷ []) ∷ param name ∷ pieces

-- PARAM_REGEX.finditer(path), where `skip` more characters belong to the last match
unfoldable pub find_params : ℕ → ℕ → Text → List Piece
unfolding match_param
find_params skip prev [] = []
find_params (suc skip) prev (c ∷ text) = find_params skip c text
find_params zero prev (c ∷ text) = elim (match_param prev (c ∷ text)) [
  | some name ↦ param name ∷ find_params (length name + 1) c text
  | none ↦ with_char c (find_params 0 c text)
]

pub record AddressSyntax : Type 0 where
  pub replace_symbol : Text
  pub patch_regex : Text → Text
  pub param_regex : Text

-- The characters before which `re.escape` puts a backslash.
abbrev is_special : ℕ → Bool
is_special c = any (λ s. c == s) (codes "()[]{}?*+-|^$\\.&~# \t\n\r" ++ 11 ∷ 12 ∷ [])

unfoldable pub re_escape : Text → Text
re_escape [] = []
re_escape (c ∷ text) = if is_special c then 92 ∷ c ∷ re_escape text else c ∷ re_escape text

-- original_path
unfoldable pub original_path : Text → List Piece → Text
original_path symbol [] = []
original_path symbol (literal t ∷ pieces) = t ++ original_path symbol pieces
original_path symbol (param name ∷ pieces) = symbol ++ original_path symbol pieces

-- path_regex, behind its beginning
unfoldable pub path_regex : Text → List Piece → Text
unfolding restore_braces_in_regex re_escape
path_regex param_regex [] = []
path_regex param_regex (literal t ∷ pieces) =
    restore_braces_in_regex (re_escape t) ++ path_regex param_regex pieces
path_regex param_regex (param name ∷ pieces) =
    codes "(?P<" ++ name ++ codes ">" ++ param_regex ++ codes ")" ++ path_regex param_regex pieces

abbrev pub params_of : List Piece → List Text
params_of [] = []
params_of (literal t ∷ pieces) = params_of pieces
params_of (param name ∷ pieces) = name ∷ params_of pieces

unfoldable pub has_duplicates : List Text → Bool
unfolding same_text
has_duplicates [] = false
has_duplicates (n ∷ names) = any (λ m. same_text n m) names || has_duplicates names

abbrev pub is_none : List Text → Bool
is_none [] = true
is_none (_ ∷ _) = false

-- re.error
abbrev pub re_error : Exc
re_error = record { cls = derived 13 (builtin exception); extra_options = []; ident = 0 }

-- The name of a group is an identifier: it does not begin with a digit. That is all that
-- `re.compile` can refuse here, since the rest is escaped, or a broker's own.
abbrev pub is_bad_group : Text → Bool
is_bad_group [] = true
is_bad_group (c ∷ name) = leb 48 c && leb c 57

-- compile_path: the regular expression, if there is a parameter, and the address
unfoldable pub compile_path : AddressSyntax → Text → Result (Option Text × Text)
unfolding escape_literal_braces find_params has_duplicates path_regex original_path restore_braces
compile_path syntax path =
    let pieces = find_params 0 0 (escape_literal_braces path) in
    let names = params_of pieces in
    let regex = codes "^.*?" ++ path_regex syntax.param_regex pieces ++ codes "$" in
    if has_duplicates names
    then err (raised setup_error)
    else if any is_bad_group names
    then err re_error
    else ok (
      (if is_none names then none else some (syntax.patch_regex regex)),
      restore_braces (original_path syntax.replace_symbol pieces),
    )

-- An address is a template, or is read as characters.
pub data Address : Type 0 where
  declared : Text → AddressSyntax → Address
  literal_address : Text → Address

abbrev pub declaration : Address → Text
declaration (declared path syntax) = path
declaration (literal_address path) = path

unfoldable pub template : Address → Text
unfolding restore_literal_braces
template (declared path syntax) = restore_literal_braces path
template (literal_address path) = path

unfoldable pub compile : Address → Result (Option Text × Text)
unfolding compile_path
compile (declared path syntax) = compile_path syntax path
compile (literal_address path) = ok (none, path)

-- add_prefix, where an empty prefix gives back the object itself
unfoldable pub add_prefix : Text → Address → Address
add_prefix [] address = address
add_prefix (c ∷ prefix) (declared path syntax) = declared ((c ∷ prefix) ++ path) syntax
add_prefix (c ∷ prefix) (literal_address path) = literal_address ((c ∷ prefix) ++ path)
