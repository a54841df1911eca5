-- ===== src/Exceptions.antt =====
-- The exception classes of exceptions.py, with the built-in classes that they and their handlers
-- name. A class of the application is `derived`: it has a number, by which it is told apart, and
-- one base.
use faststream.Prelude.{
  ◌≡◌, refl, true, arith, ℕ, Bool, false, List, [], ◌∷◌, String, ◌==◌, any, map, ==-refl,
}

pub data Builtin : Type 0 where
  base_exception exception system_exit cancelled_error value_error key_error : Builtin
  not_implemented_error assertion_error type_error : Builtin
  faststream_exception ignored_exception stop_consume stop_application : Builtin
  handler_exception skip_message ack_message nack_message reject_message : Builtin
  setup_error startup_validation_error feature_not_supported : Builtin
  subscriber_not_found incorrect_state context_error : Builtin

abbrev pub rank : Builtin → ℕ
rank base_exception = 0
rank exception = 1
rank system_exit = 2
rank cancelled_error = 3
rank value_error = 4
rank key_error = 5
rank not_implemented_error = 6
rank assertion_error = 7
rank type_error = 8
rank faststream_exception = 9
rank ignored_exception = 10
rank stop_consume = 11
rank stop_application = 12
rank handler_exception = 13
rank skip_message = 14
rank ack_message = 15
rank nack_message = 16
rank reject_message = 17
rank setup_error = 18
rank startup_validation_error = 19
rank feature_not_supported = 20
rank subscriber_not_found = 21
rank incorrect_state = 22
rank context_error = 23

pub data ExcClass : Type 0 where
  builtin : Builtin → ExcClass
  derived : ℕ → ExcClass → ExcClass

-- Method resolution order, over the classes above.
abbrev pub exception_mro : List Builtin
exception_mro = exception ∷ base_exception ∷ []

abbrev faststream_mro : List Builtin
faststream_mro = faststream_exception ∷ exception_mro

abbrev ignored_mro : List Builtin
ignored_mro = ignored_exception ∷ faststream_mro

abbrev handler_mro : List Builtin
handler_mro = handler_exception ∷ ignored_mro

abbrev setup_mro : List Builtin
setup_mro = faststream_exception ∷ value_error ∷ exception_mro

abbrev pub builtin_mro : Builtin → List Builtin
builtin_mro base_exception = base_exception ∷ []
builtin_mro exception = exception_mro
builtin_mro system_exit = system_exit ∷ base_exception ∷ []
builtin_mro cancelled_error = cancelled_error ∷ base_exception ∷ []
builtin_mro value_error = value_error ∷ exception_mro
builtin_mro key_error = key_error ∷ exception_mro
builtin_mro not_implemented_error = not_implemented_error ∷ exception_mro
builtin_mro assertion_error = assertion_error ∷ exception_mro
builtin_mro type_error = type_error ∷ exception_mro
builtin_mro faststream_exception = faststream_mro
builtin_mro ignored_exception = ignored_mro
builtin_mro stop_consume = stop_consume ∷ ignored_mro
builtin_mro stop_application =
    stop_application ∷ ignored_exception ∷ faststream_exception ∷ exception ∷ system_exit
    ∷ base_exception ∷ []
builtin_mro handler_exception = handler_mro
builtin_mro skip_message = skip_message ∷ handler_mro
builtin_mro ack_message = ack_message ∷ handler_mro
builtin_mro nack_message = nack_message ∷ handler_mro
builtin_mro reject_message = reject_message ∷ handler_mro
builtin_mro setup_error = setup_error ∷ setup_mro
builtin_mro startup_validation_error = startup_validation_error ∷ setup_mro
builtin_mro feature_not_supported =
    feature_not_supported ∷ faststream_exception ∷ not_implemented_error ∷ exception_mro
builtin_mro subscriber_not_found = subscriber_not_found ∷ faststream_mro
builtin_mro incorrect_state = incorrect_state ∷ faststream_mro
builtin_mro context_error = context_error ∷ faststream_exception ∷ key_error ∷ exception_mro

unfoldable pub mro : ExcClass → List ExcClass
mro (builtin b) = map builtin (builtin_mro b)
mro (derived n base) = derived n base ∷ mro base

-- Two class objects are the same.
unfoldable pub same_class : ExcClass → ExcClass → Bool
same_class (builtin a) (builtin b) = rank a == rank b
same_class (derived n _) (derived m _) = n == m
same_class (builtin _) (derived _ _) = false
same_class (derived _ _) (builtin _) = false

-- `issubclass(cls, b)` for one of the classes above.
abbrev pub issubclass : ExcClass → Builtin → Bool
issubclass (builtin a) b = any (λ c. rank c == rank b) (builtin_mro a)
issubclass (derived _ base) b = issubclass base b

-- An exception object: its class, the keyword arguments that the acknowledgement exceptions carry,
-- and a number for what else it holds.
pub record Exc : Type 0 where
  pub cls : ExcClass
  pub extra_options : List (String × ℕ)
  pub ident : ℕ

abbrev pub isinstance : Exc → Builtin → Bool
isinstance e b = issubclass e.cls b

abbrev pub raised : Builtin → Exc
raised b = record { cls = builtin b; extra_options = []; ident = 0 }

-- What a call returns, or the exception that it raises.
pub data Result {ℓ} (A : Type ℓ) : Type ℓ where
  ok : A → Result A
  err : Exc → Result A

-- The acknowledgement exceptions are handler exceptions, in every class that derives from them.
pub issubclass-handler_exception :
    (c : ExcClass)
    → (issubclass c ack_message ≡ true → issubclass c handler_exception ≡ true)
      × (issubclass c nack_message ≡ true → issubclass c handler_exception ≡ true)
      × (issubclass c reject_message ≡ true → issubclass c handler_exception ≡ true)
issubclass-handler_exception (derived n base) = issubclass-handler_exception base
issubclass-handler_exception (builtin ack_message) = (λ h. refl, λ h. refl, λ h. refl)
issubclass-handler_exception (builtin _) = ground arith

pub same_class_refl : (c : ExcClass) → same_class c c ≡ true
unfolding same_class
same_class_refl (builtin b) = ==-refl (rank b)
same_class_refl (derived n c) = ==-refl n

pub same_class_trans : (a b c : ExcClass) → same_class a b ≡ true → same_class a c ≡ same_class b c
unfolding same_class
same_class_trans (builtin a) (builtin b) (builtin c) h = ground arith
same_class_trans (builtin a) (builtin b) (derived m c) h = refl
same_class_trans (derived k a) (derived n b) (derived m c) h = ground arith
same_class_trans (derived k a) (derived n b) (builtin c) h = refl
same_class_trans (builtin a) (derived n b) c h = cc
same_class_trans (derived k a) (builtin b) c h = cc

pub same_class_comm : (a b : ExcClass) → same_class a b ≡ same_class b a
unfolding same_class
same_class_comm (builtin a) (builtin b) = ground arith
same_class_comm (derived n a) (derived m b) = ground arith
same_class_comm (builtin a) (derived m b) = refl
same_class_comm (derived n a) (builtin b) = refl

pub mro_head : (c : ExcClass) → (rest : List ExcClass) × (mro c ≡ c ∷ rest)
unfolding mro
mro_head (derived n base) = (mro base, refl)
mro_head (builtin base_exception) = (_, refl)
mro_head (builtin exception) = (_, refl)
mro_head (builtin _) = (_, refl)
