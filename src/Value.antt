-- ===== src/Value.antt =====
-- The Python values that pass through the framework without being looked into, up to what its code
-- tests: `None`, truth, texts, sequences, and references to objects.
use faststream.Prelude.{ℕ, String, Bool, true, false, not, ◌==◌, str_eq, List, [], ◌∷◌}

mutual
  pub data Value : Type 0 where
    null : Value
    bool : Bool → Value
    int : ℕ → Value
    str : String → Value
    bytes : List ℕ → Value
    -- a list or a tuple
    sequence : Values → Value
    -- a message object, by its number in the store
    message : ℕ → Value
    -- a `Response` object that wraps a body, with its publish key
    keyed : Value → Value → Value
    -- any other object, by its identity; its truth is `True`
    object : ℕ → Value

  pub data Values : Type 0 where
    nil : Values
    cons : Value → Values → Values

abbrev pub to_list : Values → List Value
to_list nil = []
to_list (cons v vs) = v ∷ to_list vs

-- bool(v)
abbrev pub truthy : Value → Bool
truthy null = false
truthy (bool b) = b
truthy (int n) = not (n == 0)
truthy (str s) = not (str_eq s "")
truthy (bytes []) = false
truthy (bytes (_ ∷ _)) = true
truthy (sequence nil) = false
truthy (sequence (cons _ _)) = true
truthy (message _) = true
truthy (keyed _ _) = true
truthy (object _) = true

-- v is None
abbrev pub is_none : Value → Bool
is_none null = true
is_none _ = false
