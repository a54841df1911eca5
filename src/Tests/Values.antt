-- ===== src/Tests/Values.antt =====
-- Messages, responses and the context.
use faststream.Prelude.{ℕ, String, ◌≡◌, refl, none, some, List, [], ◌∷◌, lookup-nil, IsDict}
use faststream.Exceptions.{Result, ok, err, raised, value_error}
use faststream.Value.{Value, int, null}
use faststream.Context.{ContextRepo, Slot, enter, exit, get}
use faststream.Context.Scopes.{Same, Same-refl, exit-enter}
use faststream.Message.{StreamMessage, AckStatus, acked, nacked, rejected, decode, set_decoder}
use faststream.Message.Commit.{settle, settle_all, settle_all-first}
use faststream.Response.{PublishCommand, as_publish_command}
use faststream.Exec.{Exec}
use faststream.Runtime.{World}
use faststream.Tests.{order, idle, counting}

abbrev answering_three : Exec (World ℕ) ℕ
answering_three = counting (ok 3) 0

abbrev items : List (String × Slot)
items = ("logger", some (int 5)) ∷ ("message", some (int 6)) ∷ ("logger", none) ∷ []

exit-enter_example :
    (t : ContextRepo) × (exit (enter items idle.context).0 (enter items idle.context).1 ≡ ok t)
    × Same idle.context t
    × ((k : String) (d : Slot) → get k d t ≡ get k d idle.context)
exit-enter_example =
    exit-enter items idle.context (enter items idle.context).1
      (Same-refl (enter items idle.context).1)

settle_all-first_example :
    (settle_all (nacked ∷ acked ∷ rejected ∷ []) order ≡ settle nacked order)
    × ((settle_all (nacked ∷ acked ∷ rejected ∷ []) order).committed ≡ some nacked)
settle_all-first_example = settle_all-first nacked (acked ∷ rejected ∷ []) order refl

abbrev body_of : ℕ → StreamMessage → Result Value
body_of d m = ok m.body

abbrev broken : ℕ → StreamMessage → Result Value
broken d m = err (raised value_error)

abbrev decoded : StreamMessage
decoded = (decode body_of (set_decoder 2 order)).1

decoded_out : decode body_of (set_decoder 2 order) ≡ (ok order.body, decoded)
unfolding decode set_decoder faststream.Message.cached
decoded_out = refl

abbrev command : PublishCommand
command =
    as_publish_command (record { body = int 7; headers = ("a", int 1) ∷ []; correlation_id = none })

abbrev bodies : List Value
bodies = null ∷ int 2 ∷ int 3 ∷ []

command-IsDict : IsDict command.headers
unfolding as_publish_command
command-IsDict = (lookup-nil "a", tt)
