-- ===== src/Tests/Recording.antt =====
-- An endpoint that was called twice.
use faststream.Prelude.{ℕ, Bool, true, false, none, some, [], ◌∷◌, ◌==◌}
use faststream.Value.{Value, int, str, null}
use faststream.Calls.{RecordedCall, ExpectedCall, Store}

-- Numbers by their values, and anything else as it is.
abbrev same : Value → Value → Bool
same (int a) (int b) = a == b
same _ _ = true

abbrev call_with : ℕ → RecordedCall
call_with n = record {
  decoded = int n;
  is_batch = false;
  headers = (1, int 5) ∷ (2, int 6) ∷ [];
  correlation_id = str "id";
  reply_to = null;
  content_type = null;
  path = null;
  context = [];
}

abbrev called_twice : Store
called_twice n = record {
  calls = call_with 7 ∷ call_with 8 ∷ [];
  mocked = int 7 ∷ int 8 ∷ [];
  mirrors = [];
}

abbrev asked : ExpectedCall
asked = record {
  body = some (λ c. int 7);
  headers = some ((2, int 6) ∷ []);
  correlation_id = none;
  reply_to = none;
  content_type = none;
  path = none;
  context = none;
}
