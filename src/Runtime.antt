-- ===== src/Runtime.antt =====
-- The state that one consumed message is processed in. Objects that are shared and mutated, such as
-- messages, are numbered entries of a store; `U` is the state of everything outside the framework.
pub mod Scoping
pub mod Frames
pub mod Blocks
use faststream.Prelude.{
  ℕ, String, Bool, true, false, Option, none, some, List, [], ◌∷◌, ◌++◌, length, get_elem?, set,
  ◌+◌, ◌-◌,
}
use faststream.Exceptions.{Exc, Result, ok, err}
use faststream.Value.{Value}
use faststream.Message.{StreamMessage, SourceType, consume}
use faststream.Context.{ContextRepo, Slot, Token, enter, exit}
use faststream.Exec.{Exec, modify}

-- What the framework hands to the logger.
pub data LogRecord : Type 0 where
  received : LogRecord
  processed : LogRecord
  -- an exception of the framework's own kind, at the default level
  ignored : Exc → LogRecord
  -- any other exception, at ERROR
  failed : Exc → LogRecord
  -- an acknowledgement that failed, at CRITICAL
  critical : Exc → LogRecord

pub record World (U : Type 0) : Type 0 where
  pub messages : List StreamMessage
  -- the field `message` of each acknowledgement middleware that was made
  pub watched : List (Option ℕ)
  -- the field `source_type` of each logging middleware that was made
  pub sources : List SourceType
  pub context : ContextRepo
  -- the tokens that the message scope of the running `process_message` holds
  pub message_scope : List (String × Token)
  -- the items in the queue of the subscriber's lock
  pub lock : ℕ
  -- `running` of the subscriber, and whether its application was told to exit
  pub running : Bool
  pub exit_requested : Bool
  pub log : List LogRecord
  pub user : U

module _ {U : Type 0} where
  -- m.<method>() on the message object number i

  abbrev apply_at : Option StreamMessage → ℕ → (StreamMessage → StreamMessage) → World U → World U
  apply_at none i f w = w
  apply_at (some m) i f w = record w { messages = set w.messages i (f m) }

  unfoldable pub on_message : ℕ → (StreamMessage → StreamMessage) → World U → World U
  on_message i f w = apply_at (get_elem? w.messages i) i f w

  -- logger.log(…)
  abbrev pub write_log : LogRecord → Exec (World U) (Unit {0})
  write_log l = modify (λ w. record w { log = w.log ++ l ∷ [] })

  -- with context.scopes(items): body
  unfoldable pub with_scope {ℓ} :
      {A : Type ℓ} → List (String × Slot) → Exec (World U) A → Exec (World U) A
  with_scope items body w =
      let (tokens, entered) = enter items w.context in
      let (r, w') = body (record w { context = entered }) in
      elim (exit tokens w'.context) [
        | ok left ↦ (r, record w' { context = left })
        | err e ↦ (err e, w')
      ]

  -- `AsyncExitStack` with a lock, and with a message scope that is filled further in: both are left
  -- whatever the outcome.
  unfoldable pub with_lock {ℓ} : {A : Type ℓ} → Exec (World U) A → Exec (World U) A
  with_lock body w =
      let (r, w') = body (record w { lock = w.lock + 1 }) in (r, record w' { lock = w'.lock - 1 })

  unfoldable pub enter_message_scope : List (String × Slot) → Exec (World U) (Unit {0})
  enter_message_scope items w =
      let (tokens, entered) = enter items w.context in
      (ok tt, record w { context = entered; message_scope = w.message_scope ++ tokens })

  unfoldable pub with_message_scope {ℓ} : {A : Type ℓ} → Exec (World U) A → Exec (World U) A
  with_message_scope body w =
      let (r, w') = body (record w { message_scope = [] }) in
      elim (exit w'.message_scope w'.context) [
        | ok left ↦ (r, record w' { context = left; message_scope = w.message_scope })
        | err e ↦ (err e, record w' { message_scope = w.message_scope })
      ]
