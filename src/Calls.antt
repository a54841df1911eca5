-- ===== src/Calls.antt =====
-- _internal/testing/calls.py: the calls of an endpoint that are recorded under a test broker, and
-- what is asserted of them.
pub mod Assertions
use faststream.Prelude.{
  ℕ, Bool, true, false, not, ◌&&◌, ◌||◌, Option, none, some, List, [], ◌∷◌, ◌++◌, ◌==◌, any, length,
  if◌then◌else◌,
}
use faststream.Exceptions.{Result, ok, err, raised, setup_error, assertion_error}
use faststream.Value.{Value}

-- What a message had when it was recorded: its fields by their names, and the names of the context
-- that resolve. `decoded` is its body.
pub record RecordedCall : Type 0 where
  pub decoded : Value
  pub is_batch : Bool
  pub headers : List (ℕ × Value)
  pub correlation_id : Value
  pub reply_to : Value
  pub content_type : Value
  pub path : Value
  pub context : List (ℕ × Value)

-- A field that is none is not compared (`EMPTY`). Headers and context are mappings.
pub record ExpectedCall : Type 0 where
  -- the body on the path that the received one took, for this call
  pub body : Option (RecordedCall → Value)
  pub headers : Option (List (ℕ × Value))
  pub correlation_id : Option Value
  pub reply_to : Option Value
  pub content_type : Option Value
  pub path : Option Value
  pub context : Option (List (ℕ × Value))

-- The lines of a report, by the field that differs, and for the context by the key too.
pub data Mismatch : Type 0 where
  body headers correlation_id reply_to content_type path : Mismatch
  context : ℕ → Mismatch

pub record CallRecorder : Type 0 where
  pub calls : List RecordedCall
  -- the calls of the mock
  pub mocked : List Value
  -- the recorders that hear of each call too, by their numbers
  pub mirrors : List ℕ

abbrev pub Store : Type 0
Store = ℕ → CallRecorder

abbrev pub noted : RecordedCall → CallRecorder → CallRecorder
noted call r = record r { calls = r.calls ++ call ∷ []; mocked = r.mocked ++ call.decoded ∷ [] }

unfoldable pub note_each : RecordedCall → List ℕ → Store → Store
note_each call [] store = store
note_each call (n ∷ recorders) store =
    note_each call recorders (λ m. if m == n then noted call (store m) else store m)

-- CallRecorder.record
unfoldable pub record_call : RecordedCall → ℕ → Store → Store
unfolding note_each
record_call call self store = note_each call (self ∷ (store self).mirrors) store

unfoldable pub mirror_to : ℕ → CallRecorder → CallRecorder
mirror_to other r =
    if any (λ n. n == other) r.mirrors then r else record r { mirrors = r.mirrors ++ other ∷ [] }

unfoldable pub stop_mirroring : CallRecorder → CallRecorder
stop_mirroring r = record r { mirrors = [] }

unfoldable pub reset_calls : CallRecorder → CallRecorder
reset_calls r = record r { calls = []; mocked = [] }

abbrev pub find : ℕ → List (ℕ × Value) → Option Value
find key [] = none
find key ((k, v) ∷ more) = if k == key then some v else find key more

abbrev pub is_given {ℓ} : {A : Type ℓ} → Option A → Bool
is_given none = false
is_given (some x) = true

-- ExpectedCall.message_fields, whether there are any
abbrev pub asks_more : ExpectedCall → Bool
asks_more e =
    is_given e.headers
    || is_given e.correlation_id
    || is_given e.reply_to
    || is_given e.content_type
    || is_given e.path
    || is_given e.context

abbrev pub last_call : RecordedCall → List RecordedCall → RecordedCall
last_call c [] = c
last_call c (d ∷ ds) = last_call d ds

-- _Mismatches.compare, for a test that was made
abbrev pub line : Mismatch → Bool → List Mismatch
line name equal = if equal then [] else name ∷ []

-- `same` is the comparison of an expected value with an actual one.
module _ (same : Value → Value → Bool) where
  abbrev pub is_value : Option Value → Value → Bool
  is_value none v = false
  is_value (some w) v = same v w

  abbrev pub compare_given : Mismatch → Option Value → Value → List Mismatch
  compare_given name none actual = []
  compare_given name (some v) actual = line name (same v actual)

  -- the expected headers against what is seen through them
  abbrev pub seen_through : List (ℕ × Value) → List (ℕ × Value) → Bool
  seen_through [] actual = true
  seen_through ((k, v) ∷ expected) actual =
      is_value (find k actual) v && seen_through expected actual

  abbrev pub compare_headers : Option (List (ℕ × Value)) → List (ℕ × Value) → List Mismatch
  compare_headers none actual = []
  compare_headers (some expected) actual = line headers (seen_through expected actual)

  abbrev pub compare_body : Option (RecordedCall → Value) → RecordedCall → List Mismatch
  compare_body none call = []
  compare_body (some expected) call = line body (same (expected call) call.decoded)

  abbrev pub compare_each : List (ℕ × Value) → List (ℕ × Value) → List Mismatch
  compare_each [] actual = []
  compare_each ((k, v) ∷ expected) actual =
      line (context k) (is_value (find k actual) v) ++ compare_each expected actual

  abbrev pub compare_context : Option (List (ℕ × Value)) → List (ℕ × Value) → List Mismatch
  compare_context none actual = []
  compare_context (some expected) actual = compare_each expected actual

  -- the lines that _mismatches returns
  abbrev pub report_lines : RecordedCall → ExpectedCall → List Mismatch
  report_lines call e =
      compare_body e.body call
      ++ compare_headers e.headers call.headers
      ++ compare_given correlation_id e.correlation_id call.correlation_id
      ++ compare_given reply_to e.reply_to call.reply_to
      ++ compare_given content_type e.content_type call.content_type
      ++ compare_given path e.path call.path
      ++ compare_context e.context call.context

  -- _mismatches
  unfoldable pub mismatches : RecordedCall → ExpectedCall → Result (List Mismatch)
  mismatches call e =
      if asks_more e && call.is_batch then err (raised setup_error) else ok (report_lines call e)

  abbrev pub unless_any : Result (List Mismatch) → Result (Unit {0})
  unless_any (err e) = err e
  unless_any (ok []) = ok tt
  unless_any (ok (m ∷ more)) = err (raised assertion_error)

  -- CallRecorder.assert_last_call, behind `_recorder_with_calls`
  abbrev pub assert_last : ExpectedCall → List RecordedCall → Result (Unit {0})
  assert_last e [] = err (raised assertion_error)
  assert_last e (c ∷ cs) = unless_any (mismatches (last_call c cs) e)

  -- CallRecorder.assert_any_call
  unfoldable pub assert_any : ExpectedCall → List RecordedCall → Result (Unit {0})
  unfolding mismatches
  assert_any e [] = err (raised assertion_error)
  assert_any e (c ∷ cs) =
      let rest = assert_any e cs in
      elim (mismatches c e) [ err x ↦ err x | ok lines ↦ elim lines [ [] ↦ ok tt | _ ∷ _ ↦ rest ] ]

  abbrev pub under_test : Bool → Result (Unit {0}) → Result (Unit {0})
  under_test true answer = answer
  under_test false answer = err (raised setup_error)

  unfoldable pub assert_called_with : Bool → CallRecorder → ExpectedCall → Result (Unit {0})
  unfolding mismatches
  assert_called_with is_test r e = under_test is_test (assert_last e r.calls)

  unfoldable pub assert_any_call : Bool → CallRecorder → ExpectedCall → Result (Unit {0})
  unfolding assert_any
  assert_any_call is_test r e = under_test is_test (assert_any e r.calls)

  unfoldable pub assert_called_once_with : Bool → CallRecorder → ExpectedCall → Result (Unit {0})
  unfolding mismatches
  assert_called_once_with is_test r e =
      under_test is_test
        (if length r.mocked == 1 then assert_last e r.calls else err (raised assertion_error))
