-- ===== src/Supervisor.antt =====
-- _internal/endpoint/subscriber/supervisor.py: what happens when a task of a subscriber ends.
pub mod Cache
pub mod Tracing
use faststream.Prelude.{
  ℕ, ◌+◌, Bool, true, false, not, ◌||◌, Option, none, some, List, [], ◌∷◌, ◌==◌, ltb, if◌then◌else◌,
}
use faststream.Exceptions.{Exc}

-- A `_SupervisorCache`: identifiers of exceptions with their times, in the order of insertion.
abbrev pub SupervisorCache : Type 0
SupervisorCache = List (ℕ × ℕ)

-- now - v < ttl
abbrev pub is_recent : ℕ → ℕ → ℕ → Bool
is_recent ttl now v = ltb now (v + ttl)

-- the loop that collects the outdated keys from the front, and their deletion
unfoldable pub delete_outdated : ℕ → ℕ → SupervisorCache → SupervisorCache
delete_outdated ttl now [] = []
delete_outdated ttl now ((k, v) ∷ cache) =
    let rest = delete_outdated ttl now cache in if is_recent ttl now v then (k, v) ∷ cache else rest

unfoldable pub cleanup : ℕ → ℕ → SupervisorCache → SupervisorCache
cleanup ttl now [] = []
cleanup ttl now ((k, timestamp) ∷ cache) =
    if is_recent ttl now timestamp
    then (k, timestamp) ∷ cache
    else delete_outdated ttl now ((k, timestamp) ∷ cache)

abbrev pub has_key : ℕ → SupervisorCache → Bool
has_key key [] = false
has_key key ((k, v) ∷ cache) = (k == key) || has_key key cache

-- self[item] = time.time(): a key that is there keeps its place
unfoldable pub add : ℕ → ℕ → SupervisorCache → SupervisorCache
add item now [] = (item, now) ∷ []
add item now ((k, v) ∷ cache) =
    let rest = add item now cache in if k == item then (k, now) ∷ cache else (k, v) ∷ rest

-- A task that ended, as the callback finds it. The identifier of an exception is its number.
pub record Task : Type 0 where
  pub cancelled : Bool
  pub tracked : Bool
  pub exception : Option Exc

pub record Settings : Type 0 where
  pub ttl : ℕ
  pub is_disabled : Bool
  pub restart_on_failure : Bool
  pub ignored_exceptions : Exc → Bool

-- Whether the exception was logged with its trace, and whether the task was added again.
pub record Outcome : Type 0 where
  pub traced : Bool
  pub restarted : Bool

abbrev pub nothing_done : Outcome
nothing_done = record { traced = false; restarted = false }

-- the block under `if (exc := …) and not isinstance(…)`
abbrev pub failed : Settings → Exc → ℕ → SupervisorCache → Outcome × SupervisorCache
failed s exc now cache =
    let cleaned = cleanup s.ttl now cache in
    if has_key exc.ident cleaned
    then (record { traced = false; restarted = s.restart_on_failure }, cleaned)
    else (record { traced = true; restarted = s.restart_on_failure }, add exc.ident now cleaned)

abbrev pub ended : Settings → Option Exc → ℕ → SupervisorCache → Outcome × SupervisorCache
ended s none now cache = (nothing_done, cache)
ended s (some exc) now cache =
    if s.ignored_exceptions exc then (nothing_done, cache) else failed s exc now cache

-- TaskCallbackSupervisor.__call__, at the time `now`
unfoldable pub call : Settings → Task → ℕ → SupervisorCache → Outcome × SupervisorCache
call s task now cache =
    if task.cancelled || s.is_disabled
    then (nothing_done, cache)
    else if not task.tracked
    then (nothing_done, cache)
    else ended s task.exception now cache
