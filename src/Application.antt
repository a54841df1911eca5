-- ===== src/Application.antt =====
-- _internal/application.py: the hooks and brokers of an application, at its start and stop.
pub mod Lifecycle
use faststream.Prelude.{
  ℕ, zero, suc, Bool, true, false, Option, none, some, List, [], ◌∷◌, ◌++◌, ◌==◌, any, get_elem?,
  if◌then◌else◌,
}
use faststream.Exceptions.{
  Exc, Result, ok, err, raised, isinstance, assertion_error, setup_error, startup_validation_error,
}
use faststream.Exec.{Exec, pure, raise, gets, modify, continue, ◌>>=◌}

-- Hooks and brokers are known by their numbers; `U` is the state of both.
pub record AppState (U : Type 0) : Type 0 where
  pub brokers : List ℕ
  pub on_startup_calling : List ℕ
  pub after_startup_calling : List ℕ
  pub on_shutdown_calling : List ℕ
  pub after_shutdown_calling : List ℕ
  pub running : Bool
  pub log : List ℕ
  pub user : U

abbrev pub Hook : Type 0 → Type 0
Hook U = Exec (AppState U) (Unit {0})

-- `is_validation_error` tells the errors of `pydantic`. Hooks are given with their options.
pub record Application (U : Type 0) : Type 0 where
  pub hook : ℕ → Hook U
  pub start_broker : ℕ → Hook U
  pub stop_broker : ℕ → Hook U
  pub is_validation_error : Exc → Bool
  pub has_logger : Bool

-- How something with loops ends, or nothing where the fuel is used up.
abbrev pub Ending : Type 0 → Type 0
Ending U = Option (Result (Unit {0}) × AppState U)

-- the lines that the application logs
abbrev pub starting : ℕ
starting = 0

abbrev pub started : ℕ
started = 1

abbrev pub shutting_down : ℕ
shutting_down = 2

abbrev pub shut_down : ℕ
shut_down = 3

abbrev pub translated : (Exc → Bool) → Result (Unit {0}) → Result (Unit {0})
translated is_validation_error (ok u) = ok u
translated is_validation_error (err e) =
    if is_validation_error e then err (raised startup_validation_error) else err e

abbrev pub is_nil : List ℕ → Bool
is_nil [] = true
is_nil (_ ∷ _) = false

module _ {U : Type 0} where
  abbrev pub then_next : Ending U → (AppState U → Ending U) → Ending U
  then_next none next = none
  then_next (some (ok u, w)) next = next w
  then_next (some (err e, w)) next = some (err e, w)

  -- for item in items: await call(item): the list is looked up at each turn, so an item that is
  -- appended on the way has its turn too.
  unfoldable pub run_each : (AppState U → List ℕ) → (ℕ → Hook U) → ℕ → ℕ → AppState U → Ending U
  run_each items call zero i w = none
  run_each items call (suc fuel) i w = elim (get_elem? (items w) i) [
    | none ↦ some (ok tt, w)
    | some item ↦ then_next (some (call item w)) (λ w1. run_each items call fuel (suc i) w1)
  ]

  unfoldable pub catch_startup_validation_error : (Exc → Bool) → Ending U → Ending U
  catch_startup_validation_error is_validation_error none = none
  catch_startup_validation_error is_validation_error (some (r, w)) =
      some (translated is_validation_error r, w)

  module _ (app : Application U) (fuel : ℕ) where
    -- _start_broker
    unfoldable pub start_brokers : AppState U → Ending U
    unfolding run_each
    start_brokers w =
        if is_nil w.brokers
        then some (err (raised assertion_error), w)
        else run_each (λ v. v.brokers) app.start_broker fuel 0 w

    -- start, with `_start_hooks_context` around `_start_broker`
    unfoldable pub start : AppState U → Ending U
    unfolding catch_startup_validation_error start_brokers run_each
    start w =
        then_next
          (catch_startup_validation_error app.is_validation_error
            (run_each (λ v. v.on_startup_calling) app.hook fuel 0 w))
          (λ w1.
            then_next (start_brokers w1)
              (λ w2. run_each (λ v. v.after_startup_calling) app.hook fuel 0 w2))

    -- stop, with `_shutdown_hooks_context`
    unfoldable pub stop : AppState U → Ending U
    unfolding run_each
    stop w = then_next (run_each (λ v. v.on_shutdown_calling) app.hook fuel 0 w) (λ w1.
        then_next (run_each (λ v. v.brokers) app.stop_broker fuel 0 w1)
          (λ w2. run_each (λ v. v.after_shutdown_calling) app.hook fuel 0 w2))

    write_log : ℕ → AppState U → AppState U
    write_log line w = if app.has_logger then record w { log = w.log ++ line ∷ [] } else w

    -- _startup
    unfoldable pub startup : AppState U → Ending U
    unfolding write_log start
    startup w =
        then_next (start (write_log starting w))
          (λ w1. some (ok tt, record (write_log started w1) { running = true }))

    -- _shutdown
    unfoldable pub shutdown : AppState U → Ending U
    unfolding write_log stop
    shutdown w =
        then_next (stop (write_log shutting_down w))
          (λ w1. some (ok tt, record (write_log shut_down w1) { running = false }))

  -- `add_broker`: a broker is added once.
  unfoldable pub add_broker : ℕ → Hook U
  add_broker broker = do
    known ← gets (λ w. any (λ b. b == broker) w.brokers)
    (if known
        then raise (raised setup_error)
        else modify (λ w. record w { brokers = w.brokers ++ broker ∷ [] }))
