-- ===== src/Tests/Addresses.antt =====
-- Address templates.
use faststream.Prelude.{ℕ, ◌≡◌, refl, some, List, [], ◌∷◌, ◌++◌}
use faststream.Exceptions.{ok}
use faststream.Address.{AddressSyntax, codes, compile_path, path_regex}
use faststream.Address.Templates.{Symbol, char, left, right, named, print, pieces_of}

abbrev nats_syntax : AddressSyntax
nats_syntax = record {
  replace_symbol = codes "*";
  patch_regex = λ t. t;
  param_regex = codes "[^.]+";
}

-- "v{{2}}.{level}"
abbrev logs : List Symbol
logs = char 118 ∷ left ∷ char 50 ∷ right ∷ char 46 ∷ named (codes "level") ∷ []

logs_address :
    compile_path nats_syntax (print logs)
    ≡ ok (some (codes "^.*?v\\{2\\}\\.(?P<level>[^.]+)$"), codes "v{2}.*")
unfolding compile_path
logs_address = refl

abbrev logs_pattern : List ℕ
logs_pattern = codes "^.*?" ++ path_regex nats_syntax.param_regex (pieces_of logs) ++ codes "$"
