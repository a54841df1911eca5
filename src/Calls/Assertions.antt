-- ===== src/Calls/Assertions.antt =====
-- When an assertion on recorded calls holds.
use faststream.Prelude.{ℕ, ◌≡◌, Bool, true, false, ◌&&◌, Option, none, some, List, [], ◌∷◌, length}
use faststream.Exceptions.{Result, ok, err, raised, assertion_error}
use faststream.Value.{Value}
use faststream.Calls.{RecordedCall, ExpectedCall, Mismatch, Store, asks_more, seen_through}

-- The mock has as many calls as were recorded.
abbrev pub IsRecorded : Store → Type 0
IsRecorded store = (n : ℕ) → length (store n).mocked ≡ length (store n).calls

abbrev pub nothing : List Mismatch → Bool
nothing [] = true
nothing (m ∷ more) = false

module _ (same : Value → Value → Bool) where
  -- What is asked of a field is what the call has there.
  abbrev pub wants : Option Value → Value → Bool
  wants none actual = true
  wants (some v) actual = same v actual

  abbrev pub wants_body : Option (RecordedCall → Value) → RecordedCall → Bool
  wants_body none call = true
  wants_body (some expected) call = same (expected call) call.decoded

  -- Each key that is asked for is there with its value; there may be more.
  abbrev pub wants_all : Option (List (ℕ × Value)) → List (ℕ × Value) → Bool
  wants_all none actual = true
  wants_all (some expected) actual = seen_through same expected actual

  abbrev pub fits : ExpectedCall → RecordedCall → Bool
  fits e call =
      wants_body e.body call
      && wants_all e.headers call.headers
      && wants e.correlation_id call.correlation_id
      && wants e.reply_to call.reply_to
      && wants e.content_type call.content_type
      && wants e.path call.path
      && wants_all e.context call.context

  module _ (e : ExpectedCall) where
    -- A batch is asked for its body only.
    abbrev pub IsSingle : RecordedCall → Type 0
    IsSingle c = (asks_more e && c.is_batch) ≡ false

    abbrev pub AllSingle : List RecordedCall → Type 0
    AllSingle [] = Unit
    AllSingle (c ∷ cs) = IsSingle c × AllSingle cs

    abbrev pub passes : Bool → Result (Unit {0})
    passes true = ok tt
    passes false = err (raised assertion_error)

    -- The last call is what was asked for.
    abbrev pub last_fits : List RecordedCall → Bool
    last_fits [] = false
    last_fits (c ∷ []) = fits e c
    last_fits (c ∷ (d ∷ cs)) = last_fits (d ∷ cs)

    -- Exactly one call, and it is what was asked for.
    abbrev pub only_fits : List RecordedCall → Bool
    only_fits [] = false
    only_fits (c ∷ []) = fits e c
    only_fits (c ∷ (d ∷ cs)) = false
