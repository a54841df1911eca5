-- ===== src/Tests/Endpoints.antt =====
-- Two middlewares, which write their numbers down as their scopes are entered.
use faststream.Prelude.{ℕ, ◌≡◌, refl, ◌+◌, ◌*◌, false, none, some, [], ◌∷◌}
use faststream.Exceptions.{ok}
use faststream.Value.{Value, int}
use faststream.Message.{response}
use faststream.Response.{PublishCommand, as_publish_command}
use faststream.Exec.{Exec, pure}
use faststream.Runtime.{World}
use faststream.Middleware.{Middleware, base_middleware, enter_all}
use faststream.Endpoint.{Factory, Sending, basic_publish, process_msg}
use faststream.Endpoint.Publishing.{published, basic_publish-published}
use faststream.Tests.{idle}

abbrev noting : {R I : Type 0} → ℕ → (I → Exec (World ℕ) R) → I → Exec (World ℕ) R
noting n call_next i w = call_next i (record w { user = w.user * 10 + n })

abbrev numbered : ℕ → Factory ℕ
numbered n msg = pure (record {
  on_enter = pure tt;
  on_exit = λ e. pure false;
  consume_scope = noting n;
  publish_scope = noting n;
})

abbrev command : PublishCommand
command = as_publish_command (record { body = int 7; headers = []; correlation_id = none })

abbrev producer : Sending ℕ Value
producer cmd w = (ok (int w.user), w)

basic_publish-published_example :
    basic_publish (numbered 1 ∷ numbered 2 ∷ []) [] producer command idle
    ≡ published (numbered 1 ∷ numbered 2 ∷ []) [] producer command idle
basic_publish-published_example =
    basic_publish-published (numbered 1 ∷ numbered 2 ∷ []) [] producer command idle

-- The first middleware of the broker is the outermost.
basic_publish_order :
    (basic_publish (numbered 1 ∷ numbered 2 ∷ []) [] producer command idle).0 ≡ ok (int 12)
unfolding basic_publish
basic_publish_order = refl

-- Here the last one is.
process_msg_order :
    (process_msg (numbered 1 ∷ numbered 2 ∷ []) pure 3 response (some 0) idle).1.user ≡ 21
unfolding process_msg faststream.Middleware.within faststream.Runtime.on_message
process_msg_order = refl
