-- ===== src/Tests/Supervising.antt =====
-- A task that fails again and again.
use faststream.Prelude.{◌≡◌, true, false, some, [], ◌∷◌, arith}
use faststream.Exceptions.{raised, value_error, isinstance, cancelled_error}
use faststream.Supervisor.{Task, Settings}
use faststream.Supervisor.Tracing.{Events, call_all, expected_all, call_all-expected_all}

abbrev settings : Settings
settings = record {
  ttl = 3600;
  is_disabled = false;
  restart_on_failure = true;
  ignored_exceptions = λ e. isinstance e cancelled_error;
}

abbrev broken : Task
broken = record { cancelled = false; tracked = true; exception = some (raised value_error) }

abbrev events : Events
events = (broken, 10) ∷ (broken, 20) ∷ (broken, 4000) ∷ []

call_all-expected_all_example : call_all settings events [] ≡ expected_all settings events []
call_all-expected_all_example =
    call_all-expected_all settings events (omega arith, (omega arith, (omega arith, tt)))
