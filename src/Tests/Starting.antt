-- ===== src/Tests/Starting.antt =====
-- An application whose startup hook sets up its broker, which adds another one while it starts.
use faststream.Prelude.{◌≡◌, refl, ℕ, ◌+◌, ◌≤◌, true, false, List, [], ◌∷◌, length, suc, zero}
use faststream.Exceptions.{err, raised, setup_error, value_error}
use faststream.Exec.{raise, modify}
use faststream.Application.{AppState, Hook, Application, add_broker}

abbrev counted : Hook ℕ
counted = modify (λ w. record w { user = w.user + 1 })

abbrev listed : List ℕ → Hook ℕ
listed brokers = modify (λ w. record w { brokers = brokers })

-- The first hook lists a broker, the others count, and one raises.
abbrev hook : ℕ → Hook ℕ
hook zero = listed (1 ∷ [])
hook (suc zero) = counted
hook (suc (suc n)) = raise (raised value_error)

-- Starting the first broker adds the second.
abbrev broker : ℕ → Hook ℕ
broker (suc zero) = listed (1 ∷ 2 ∷ [])
broker _ = counted

abbrev application : Application ℕ
application = record {
  hook = hook;
  start_broker = broker;
  stop_broker = λ b. counted;
  is_validation_error = λ e. false;
  has_logger = true;
}

abbrev created : AppState ℕ
created = record {
  brokers = [];
  on_startup_calling = 0 ∷ 1 ∷ [];
  after_startup_calling = 2 ∷ 1 ∷ [];
  on_shutdown_calling = [];
  after_shutdown_calling = [];
  running = false;
  log = [];
  user = 0;
}

record Small (w : AppState ℕ) : Type 0 where
  brokers : length w.brokers ≤ 2
  before : length w.on_startup_calling ≤ 2
  behind : length w.after_startup_calling ≤ 2

-- A broker is added once.
added_twice : (add_broker 1 (add_broker 1 created).1).0 ≡ err (raised setup_error)
unfolding add_broker
added_twice = refl
