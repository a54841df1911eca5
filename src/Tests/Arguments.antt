-- ===== src/Tests/Arguments.antt =====
-- faststream run m:a --x --no-y --z 1 2
use faststream.Prelude.{◌≡◌, refl, List, [], ◌∷◌}
use faststream.Text.{Text, same_text}
use faststream.Codec.{startswith}
use faststream.Cli.{is_bind_arg, parse_cli_args}
use faststream.Cli.Names.{Given, on, off, values, IsName, IsValue, printed, settings}
use faststream.Cli.RoundTrip.{parse_cli_args-printed}

abbrev m_a : Text
m_a = 109 ∷ 58 ∷ 97 ∷ []

abbrev x : Text
x = 120 ∷ []

abbrev y : Text
y = 121 ∷ []

abbrev z : Text
z = 122 ∷ []

abbrev digit_one : Text
digit_one = 49 ∷ []

abbrev digit_two : Text
digit_two = 50 ∷ []

abbrev options : List Given
options = on x ∷ off y ∷ values z digit_one (digit_two ∷ []) ∷ []

x-IsName : IsName x
unfolding startswith
x-IsName = record { plain = (refl, tt); positive = refl }

y-IsName : IsName y
unfolding startswith
y-IsName = record { plain = (refl, tt); positive = refl }

z-IsName : IsName z
unfolding startswith
z-IsName = record { plain = (refl, tt); positive = refl }

one-IsValue : IsValue digit_one
unfolding startswith
one-IsValue = record { no_colon = refl; no_equals = (refl, tt); no_dash = refl }

two-IsValue : IsValue digit_two
unfolding startswith
two-IsValue = record { no_colon = refl; no_equals = (refl, tt); no_dash = refl }

parse_cli_args-printed_example : parse_cli_args (m_a ∷ printed options) ≡ (m_a, settings options)
unfolding is_bind_arg same_text
parse_cli_args-printed_example =
    parse_cli_args-printed m_a options refl refl (refl, (refl, (refl, tt)))
      ((x-IsName, tt), ((y-IsName, tt), ((z-IsName, (one-IsValue, (two-IsValue, tt))), tt)))
      (tt, ((refl, tt), ((refl, (refl, tt)), tt)))
