-- ===== src/Context.antt =====
-- _internal/context/repository.py: the context repository, seen from one task. A `ContextVar` has its
-- identity and holds one value in that task; a token has its own, and knows its variable and the value
-- that a `set` replaced. The marker `EMPTY` is `none`.
pub mod Scopes
use faststream.Prelude.{
  ℕ, suc, ◌==◌, String, Bool, true, false, Option, none, some, List, [], ◌∷◌, ◌++◌, reverse, map,
  lookup, insert, erase, update, if◌then◌else◌, Option-cases,
}
use faststream.Exceptions.{
  Result, ok, err, Exc, raised, value_error, key_error, context_error, derived, builtin, exception,
}
use faststream.Value.{Value, object}

abbrev pub Slot : Type 0
Slot = Option Value

pub record ContextVar : Type 0 where
  pub identity : ℕ
  pub value : Slot

pub record Token : Type 0 where
  pub identity : ℕ
  pub variable : ℕ
  pub old_value : Slot

-- `variables` and `tokens` count those that were made, and `unused` are the tokens by which no
-- variable was reset yet.
pub record ContextRepo : Type 0 where
  pub global_context : List (String × Slot)
  pub scope_context : List (String × ContextVar)
  pub variables : ℕ
  pub tokens : ℕ
  pub unused : ℕ → Bool

-- the entry under "context" that every repository has, itself
abbrev pub own_entry : List (String × Slot)
own_entry = ("context", some (object 0)) ∷ []

unfoldable pub init : List (String × Slot) → ContextRepo
init initial = record {
  global_context = update own_entry initial;
  scope_context = [];
  variables = 0;
  tokens = 0;
  unused = λ token. false;
}

abbrev pub values_of : List (String × ContextVar) → List (String × Slot)
values_of [] = []
values_of ((key, variable) ∷ variables) = (key, variable.value) ∷ values_of variables

-- the property `context`: locals cover globals
unfoldable pub context : ContextRepo → List (String × Slot)
context r = update r.global_context (values_of r.scope_context)

unfoldable pub set_global : String → Slot → ContextRepo → ContextRepo
set_global key v r = record r { global_context = insert key v r.global_context }

unfoldable pub reset_global : String → ContextRepo → ContextRepo
reset_global key r = record r { global_context = erase key r.global_context }

abbrev pub global_value : Option Slot → Slot
global_value none = none
global_value (some v) = v

abbrev pub var_value : Option ContextVar → Slot
var_value none = none
var_value (some variable) = variable.value

-- A key without a variable gets a new one.
abbrev pub variable_or_new : Option ContextVar → ℕ → ContextVar
variable_or_new none made = record { identity = made; value = none }
variable_or_new (some variable) made = variable

abbrev pub variables_made : Option ContextVar → ℕ → ℕ
variables_made none made = suc made
variables_made (some variable) made = made

unfoldable pub set_local : String → Slot → ContextRepo → Token × ContextRepo
set_local key value r =
    let found = lookup key r.scope_context in
    let variable = variable_or_new found r.variables in
    (
      record { identity = r.tokens; variable = variable.identity; old_value = variable.value },
      record r {
        scope_context = insert key (record variable { value = value }) r.scope_context;
        variables = variables_made found r.variables;
        tokens = suc r.tokens;
        unused = λ token. if token == r.tokens then true else r.unused token;
      },
    )

abbrev pub runtime_error : Exc
runtime_error = record { cls = derived 14 (builtin exception); extra_options = []; ident = 0 }

-- ContextVar.reset
abbrev pub reset : String → Token → ContextVar → ContextRepo → Result ContextRepo
reset key tag variable r =
    if r.unused tag.identity
    then (if variable.identity == tag.variable
        then ok (record r {
          scope_context = insert key (record variable { value = tag.old_value }) r.scope_context;
          unused = λ token. if token == tag.identity then false else r.unused token;
        })
        else err (raised value_error))
    else err runtime_error

-- `self._scope_context[key]` raises if the repository was cleared in between, and `reset` if the
-- token is that of another variable, or was used before.
unfoldable pub reset_local : String → Token → ContextRepo → Result ContextRepo
reset_local key tag r = elim (lookup key r.scope_context) [
  | none ↦ err (raised key_error)
  | some variable ↦ reset key tag variable r
]

abbrev pub or_default : Slot → Slot → Slot
or_default none default = default
or_default (some v) default = some v

-- A global value, or else a local one.
abbrev pub answered : Slot → Slot → Slot
answered none local = local
answered (some glob) local = some glob

unfoldable pub get_local : String → Slot → ContextRepo → Slot
get_local key default r = or_default (var_value (lookup key r.scope_context)) default

unfoldable pub get : String → Slot → ContextRepo → Slot
unfolding get_local
get key default r = answered (global_value (lookup key r.global_context)) (get_local key default r)

-- `item v i` is `v[i]` or `getattr(v, i)`.
follow : (Value → String → Result Value) → List String → Value → Result Value
follow item [] v = ok v
follow item (i ∷ keys) v = elim (item v i) [ ok w ↦ follow item keys w | err e ↦ err e ]

-- The argument is given as its parts, `argument.split(".")`.
unfoldable pub resolve :
    (Value → String → Result Value) → String → List String → ContextRepo → Result Value
unfolding follow get
resolve item first keys r = elim (get first none r) [
  | none ↦ err (raised context_error)
  | some v ↦ follow item keys v
]

unfoldable pub clear : ContextRepo → ContextRepo
clear r = record r { global_context = own_entry; scope_context = [] }

-- ContextScope.__enter__: the tokens in the order of the items.
unfoldable pub enter : List (String × Slot) → ContextRepo → List (String × Token) × ContextRepo
unfolding set_local
enter [] r = ([], r)
enter ((key, value) ∷ items) r =
    let (token, r') = set_local key value r in
    let (tokens, r'') = enter items r' in ((key, token) ∷ tokens, r'')

abbrev pub next_reset : Result ContextRepo → (ContextRepo → Result ContextRepo) → Result ContextRepo
next_reset (ok r) rest = rest r
next_reset (err e) rest = err e

reset_all : List (String × Token) → ContextRepo → Result ContextRepo
unfolding reset_local
reset_all [] r = ok r
reset_all ((key, token) ∷ tokens) r =
    next_reset (reset_local key token r) (λ r'. reset_all tokens r')

-- ContextScope.__exit__
unfoldable pub exit : List (String × Token) → ContextRepo → Result ContextRepo
unfolding reset_all
exit tokens r = reset_all (reverse tokens) r
