-- ===== src/Subscriber/Outcomes.antt =====
-- What becomes of an exception that the processing of a message raises, and when a subscriber stops.
use faststream.Prelude.{ℕ, ◌≡◌, true, false, none, ◌||◌, Bool-cases, arith, inl, inr}
use faststream.Exceptions.{Exc, Result, ok, err, isinstance, exception, system_exit, stop_consume}
use faststream.Response.{Response}
use faststream.Runtime.{World}
use faststream.Subscriber.{
  Subscriber, process_message, consume, after_message, stop, exit_application,
}

abbrev IsEscaping : Exc → Type 0
IsEscaping e = (isinstance e exception ≡ false) × (isinstance e system_exit ≡ false)

module _ {U : Type 0} (s : Subscriber U) where
  after_message-escapes :
      ((w : World U) → (s.wait_release w).0 ≡ ok tt)
      → (r : Result Response) (w : World U) (e : Exc) → (after_message s r w).0 ≡ err e
      → IsEscaping e
  unfolding after_message stop exit_application
  after_message-escapes waits (ok r) w e h = cc
  after_message-escapes waits (err x) w e h = elim (Bool-cases (isinstance x stop_consume)) [
    | inl t ↦ let e1 = waits (record w { running = false }) in ground arith
    | inr f ↦ elim (Bool-cases (isinstance x system_exit)) [
      | inl t ↦ let e1 = waits (record w { running = false }) in ground arith
      | inr g ↦ ground arith
    ]
  ]

  -- `consume` lets out no exception of the class `Exception` and no `SystemExit`, if waiting for
  -- the messages in flight raises nothing: what it raises is `CancelledError` or the like.
  pub consume-escapes :
      ((w : World U) → (s.wait_release w).0 ≡ ok tt)
      → (raw : ℕ) (w : World U) (e : Exc) → (consume s raw w).0 ≡ err e
      → IsEscaping e
  unfolding consume
  consume-escapes waits raw w e h = elim (Bool-cases w.running) [
    | inl t ↦
        after_message-escapes waits (process_message s raw w).0 (process_message s raw w).1 e ground
          arith
    | inr f ↦ ground arith
  ]

  stop-running :
      ((w : World U) → (s.wait_release w).1.running ≡ w.running)
      → (w : World U) → (stop s w).1.running ≡ false
  unfolding stop
  stop-running keeps w = keeps (record w { running = false })

  exit_application-running : (w : World U) → (exit_application s w).1.running ≡ w.running
  unfolding exit_application
  exit_application-running w = ground arith

  after_message-stops :
      ((w : World U) → (s.wait_release w).1.running ≡ w.running)
      → (e : Exc) (w : World U) → (isinstance e stop_consume || isinstance e system_exit) ≡ true
      → (after_message s (err e) w).1.running ≡ false
  unfolding after_message
  after_message-stops keeps e w h = elim (Bool-cases (isinstance e stop_consume)) [
    | inl t ↦ let down = stop-running keeps w in ground arith
    | inr f ↦
        let down = stop-running keeps w in
        let app = exit_application-running (stop s w).1 in ground arith
  ]

  after_message-halts :
      ((w : World U) → (s.wait_release w).1.running ≡ w.running)
      → (e : Exc) (r : Result Response) (w : World U) → r ≡ err e
      → (isinstance e stop_consume || isinstance e system_exit) ≡ true
      → (after_message s r w).1.running ≡ false
  after_message-halts keeps e r w raises h = rw raises (after_message-stops keeps e w h)

  consume-running :
      (raw : ℕ) (w : World U)
      → w.running ≡ true
      → (after_message s (process_message s raw w).0 (process_message s raw w).1).1.running ≡ false
      → (consume s raw w).1.running ≡ false
  unfolding consume
  consume-running raw w running down = elim (Bool-cases w.running) [
    | inl t ↦ ground arith
    | inr f ↦ ground arith
  ]

  consume-idle : (raw : ℕ) (w : World U) → w.running ≡ false → consume s raw w ≡ (ok none, w)
  unfolding consume
  consume-idle raw w stopped = ground arith

  -- Where the processing of a message, `process_message` with its middlewares, ends in
  -- `StopConsume` or `SystemExit`, the subscriber is stopped, if waiting for the messages in flight
  -- does not start it again: every message that is delivered after that is dropped, and changes
  -- nothing.
  pub consume-stops :
      ((w : World U) → (s.wait_release w).1.running ≡ w.running)
      → (raw : ℕ) (w : World U) → w.running ≡ true
      → (e : Exc) → (process_message s raw w).0 ≡ err e
      → (isinstance e stop_consume || isinstance e system_exit) ≡ true
      → (later : ℕ) → consume s later (consume s raw w).1 ≡ (ok none, (consume s raw w).1)
  consume-stops keeps raw w running e raises h later = consume-idle later (consume s raw w).1 (
      consume-running raw w running (
        after_message-halts keeps e (process_message s raw w).0 (process_message s raw w).1 raises
          h))
