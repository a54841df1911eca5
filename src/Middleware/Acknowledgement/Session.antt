-- ===== src/Middleware/Acknowledgement/Session.antt =====
-- One processing under the acknowledgement middleware, from its creation to its exit.
use faststream.Prelude.{
  ℕ, ◌≡◌, ◌≢◌, refl, Bool, true, false, Option, none, some, [], ◌∷◌, ◌++◌, arith, length, get_elem?,
  set-append_last, get_elem?-append_last,
}
use faststream.Exceptions.{Exc, Result, ok, err}
use faststream.Message.{StreamMessage, acked}
use faststream.Runtime.{World}
use faststream.Exec.{Exec, pure, ◌>>=◌}
use faststream.Middleware.{within}
use faststream.Middleware.Acknowledgement.{
  AckPolicy, ack_first, manual, base_driver, Driver, Options, acknowledgement_middleware,
  consume_scope, aexit, instance_at,
}
use faststream.Middleware.Acknowledgement.Disposition.{
  Watches, disposition, is_suppressed, HasNoOptions, settled, after, aexit-Watches,
  settle_message-Watches,
}

abbrev pub failure {ℓ} : {A : Type ℓ} → Result A → Option Exc
failure (ok _) = none
failure (err e) = some e

abbrev pub passed {ℓ} : {A : Type ℓ} → Result A → Bool → Result (Option A)
passed (ok a) b = ok (some a)
passed (err e) true = ok none
passed (err e) false = err e

-- The state that the call starts in, the early acknowledgement aside.
abbrev pub started : {U : Type 0} → ℕ → World U → World U
started msg w = record w { watched = w.watched ++ some msg ∷ [] }

Watches-started :
    {U : Type 0} (msg : ℕ) (w : World U) (m : StreamMessage)
    → get_elem? w.messages msg ≡ some m
    → Watches (length w.watched) msg m (started msg w)
Watches-started msg w m here = record {
  watched_at = get_elem?-append_last w.watched (some msg);
  stored = here;
}

module _ {U A : Type 0} where
  -- The middleware alone around a call: entered, its consume scope run, exited.
  pub session :
      Driver U → Options → AckPolicy → (ℕ → Exec (World U) A) → ℕ → Exec (World U) (Option A)
  session driver extra_options policy call_next msg = do
    m ← acknowledgement_middleware driver extra_options policy msg
    within m (do r ← m.consume_scope call_next msg; pure (some r))

  consume_scope-late :
      (policy : AckPolicy) (call_next : ℕ → Exec (World U) A) (msg : ℕ) (w : World U)
      → policy ≢ ack_first
      → consume_scope base_driver [] policy
          (length w.watched)
          call_next
          msg
          (record w { watched = w.watched ++ none ∷ [] })
        ≡ call_next msg (started msg w)
  unfolding consume_scope
  consume_scope-late ack_first call_next msg w late = absurd (late refl)
  consume_scope-late _ call_next msg w late = rw (set-append_last w.watched none (some msg))

  -- Under every policy but ACK_FIRST and MANUAL, under which there is no such middleware, let the
  -- call end in `r` with the message `m` still watched, let the subscriber give no options, and an
  -- exception carry none, and let the message be one whose methods only note the status, like
  -- `StreamMessage` itself. Then the message is settled as the policy and `r` say,
  -- unless it was settled before, nothing else of the state changes, an acknowledgement exception
  -- ends here, and every other outcome is passed on.
  pub session-late :
      (policy : AckPolicy) (call_next : ℕ → Exec (World U) A) (msg : ℕ) (w w' : World U)
      (r : Result A) (m : StreamMessage)
      → policy ≢ ack_first
      → policy ≢ manual
      → call_next msg (started msg w) ≡ (r, w')
      → Watches (length w.watched) msg m w'
      → HasNoOptions (failure r)
      → session base_driver [] policy call_next msg w
        ≡ (passed r (is_suppressed (failure r)), after (disposition policy (failure r)) msg m w')
  unfolding session acknowledgement_middleware within instance_at
  session-late policy call_next msg w w' r m late own ran h none_given = ground (
    arith,
    consume_scope-late policy call_next msg w late,
    aexit-Watches policy (length w.watched) msg m (failure r) w' late h none_given,
  )

  consume_scope-early :
      (call_next : ℕ → Exec (World U) A) (msg : ℕ) (w : World U) (m : StreamMessage)
      → get_elem? w.messages msg ≡ some m
      → consume_scope base_driver [] ack_first
          (length w.watched)
          call_next
          msg
          (record w { watched = w.watched ++ none ∷ [] })
        ≡ call_next msg (settled acked msg m (started msg w))
  unfolding consume_scope
  consume_scope-early call_next msg w m here =
      let early =
        settle_message-Watches acked (length w.watched) msg m (started msg w)
          (Watches-started msg w m here) in
      rw (set-append_last w.watched none (some msg), early)

  -- Under ACK_FIRST a message whose methods only note the status, like `StreamMessage` itself, is
  -- acknowledged before the call runs, if the subscriber gives no options. The outcome and the state
  -- of the call are passed on as they are, an acknowledgement exception too.
  pub session-early :
      (call_next : ℕ → Exec (World U) A) (msg : ℕ) (w w' : World U) (r : Result A)
      (m : StreamMessage)
      → get_elem? w.messages msg ≡ some m
      → call_next msg (settled acked msg m (started msg w)) ≡ (r, w')
      → session base_driver [] ack_first call_next msg w ≡ (passed r false, w')
  unfolding session acknowledgement_middleware within instance_at aexit
  session-early call_next msg w w' r m here ran =
      ground (arith, consume_scope-early call_next msg w m here)
