-- ===== src/Cli.antt =====
-- _internal/cli/utils/parser.py: the arguments of the command line that are meant for the application.
pub mod Names
pub mod RoundTrip
use faststream.Prelude.{
  ℕ, Bool, true, false, not, ◌&&◌, ◌||◌, leb, Option, none, some, List, [], ◌∷◌, ◌++◌, ◌==◌, map,
  any, if◌then◌else◌,
}
use faststream.Text.{Text, same_text, split}
use faststream.Codec.{startswith}

-- "-", ":", "=", "_" and "/"
abbrev pub dash : ℕ
dash = 45

abbrev pub colon : ℕ
colon = 58

abbrev pub equals : ℕ
equals = 61

abbrev pub underscore : ℕ
underscore = 95

abbrev slash : ℕ
slash = 47

abbrev pub between : ℕ → ℕ → ℕ → Bool
between low high c = leb low c && leb c high

-- \d, of ASCII
abbrev is_digit : ℕ → Bool
is_digit c = between 48 57 c

-- [a-zA-Z0-9._-]
abbrev is_path_char : ℕ → Bool
is_path_char c = between 97 122 c || between 65 90 c || is_digit c || c == 46 || c == 95 || c == 45

-- what `strip` takes away, of ASCII
abbrev pub is_space : ℕ → Bool
is_space c = between 9 13 c || between 28 32 c

-- \d*$, behind digits if `seen`
ends_in_digits : Bool → Text → Bool
ends_in_digits seen [] = seen
ends_in_digits seen (c ∷ []) = if is_digit c then true else seen && c == 10
ends_in_digits seen (c ∷ (d ∷ cs)) =
    let rest = ends_in_digits true (d ∷ cs) in if is_digit c then rest else false

-- /*\d
slashes_digit : Text → Bool
slashes_digit [] = false
slashes_digit (c ∷ cs) = let rest = slashes_digit cs in if c == slash then rest else is_digit c

starts_path : Text → Bool
starts_path [] = false
starts_path (c ∷ cs) = is_path_char c

-- [a-zA-Z0-9._-]*/[a-zA-Z0-9._-]+, behind such characters if `seen`
path_path : Bool → Text → Bool
path_path seen [] = false
path_path seen (c ∷ cs) =
    let rest = path_path true cs in
    if is_path_char c then rest else seen && c == slash && starts_path cs

-- what follows a ":"
is_bind : Text → Bool
unfolding ends_in_digits slashes_digit path_path starts_path
is_bind [] = false
is_bind (c ∷ cs) =
    ends_in_digits false (c ∷ cs) || (c == slash && (slashes_digit cs || path_path false cs))

unfoldable pub is_bind_arg : Text → Bool
unfolding is_bind
is_bind_arg [] = false
is_bind_arg (c ∷ cs) = (c == colon && is_bind cs) || is_bind_arg cs

abbrev pub has_colon : Text → Bool
has_colon item = any (λ c. c == colon) item

-- A value of an option, and what an option has.
pub data Atom : Type 0 where
  flag : Bool → Atom
  text : Text → Atom

pub data Setting : Type 0 where
  one : Atom → Setting
  many : List Atom → Setting

abbrev pub ExtraKwargs : Type 0
ExtraKwargs = List (Text × Setting)

abbrev atoms : Setting → List Atom
atoms (one a) = a ∷ []
atoms (many list) = list

unfoldable pub lstrip_spaces : Text → Text
lstrip_spaces [] = []
lstrip_spaces (c ∷ cs) = let rest = lstrip_spaces cs in if is_space c then rest else c ∷ cs

abbrev pub before_spaces : ℕ → Text → Text
before_spaces c [] = if is_space c then [] else c ∷ []
before_spaces c (d ∷ ds) = c ∷ (d ∷ ds)

unfoldable pub rstrip_spaces : Text → Text
rstrip_spaces [] = []
rstrip_spaces (c ∷ cs) = before_spaces c (rstrip_spaces cs)

-- lstrip("-")
unfoldable pub lstrip_dashes : Text → Text
lstrip_dashes [] = []
lstrip_dashes (c ∷ cs) = let rest = lstrip_dashes cs in if c == dash then rest else c ∷ cs

abbrev pub undashed : ℕ → ℕ
undashed c = if c == dash then underscore else c

-- "no_"
abbrev pub no_prefix : Text
no_prefix = 110 ∷ 111 ∷ 95 ∷ []

-- k.strip().lstrip("-").replace("-", "_")
unfoldable pub name_of : Text → Text
unfolding lstrip_spaces rstrip_spaces lstrip_dashes
name_of k = map undashed (lstrip_dashes (rstrip_spaces (lstrip_spaces k)))

abbrev dropped : Text → Text → Text
dropped [] t = t
dropped (p ∷ prefix) [] = []
dropped (p ∷ prefix) (c ∷ cs) = dropped prefix cs

-- name.removeprefix("no_")
abbrev pub key_of : Text → Text
key_of name = if startswith name no_prefix then dropped no_prefix name else name

abbrev pub value_of : Text → List Text → Setting
value_of name [] = one (flag (not (startswith name no_prefix)))
value_of name (v ∷ []) = one (text v)
value_of name (v ∷ (w ∷ more)) = many (map text (v ∷ (w ∷ more)))

-- extra_kwargs[key] = v, with what is there before it
unfoldable pub put_setting : Text → Setting → ExtraKwargs → ExtraKwargs
put_setting key v [] = (key, v) ∷ []
put_setting key v ((k, s) ∷ settings) =
    let rest = put_setting key v settings in
    if same_text k key then (k, many (atoms s ++ atoms v)) ∷ settings else (k, s) ∷ rest

pub record Parser : Type 0 where
  pub app : Text
  pub k : Text
  pub field_args : List Text
  pub extra_kwargs : ExtraKwargs

abbrev pub put_option : Text → Parser → Parser
put_option [] p = p
put_option (c ∷ cs) p =
    let name = name_of (c ∷ cs) in
    record p {
      field_args = [];
      extra_kwargs = put_setting (key_of name) (value_of name p.field_args) p.extra_kwargs;
    }

-- the loop over the items
unfoldable pub read_item : Text → Parser → Parser
unfolding is_bind_arg name_of put_setting
read_item item p =
    if has_colon item && not (is_bind_arg item)
    then record p { app = item }
    else if startswith item (dash ∷ [])
    then record (put_option p.k p) { k = item }
    else record p { field_args = p.field_args ++ item ∷ [] }

unfoldable pub read_items : List Text → Parser → Parser
unfolding read_item
read_items [] p = p
read_items (item ∷ items) p = read_items items (read_item item p)

unfoldable pub items_of : List Text → List Text
items_of [] = []
items_of (arg ∷ args) = split equals arg ++ items_of args

abbrev pub empty_parser : Parser
empty_parser = record { app = []; k = []; field_args = []; extra_kwargs = [] }

unfoldable pub parse_cli_args : List Text → Text × ExtraKwargs
unfolding read_items items_of
parse_cli_args args =
    let p = read_items (items_of args ++ (dash ∷ []) ∷ []) empty_parser in (p.app, p.extra_kwargs)
