-- ===== src/Supervisor/Tracing.antt =====
-- Which exceptions are logged with their trace, whatever the cache has forgotten.
use faststream.Prelude.{
  ℕ, ◌≤◌, ◌≡◌, refl, ◌∙◌, true, false, not, ◌||◌, Option, none, some, List, [], ◌∷◌, Bool-cases,
  inl, inr, arith, if◌then◌else◌,
}
use faststream.Exceptions.{Exc}
use faststream.Supervisor.{
  SupervisorCache, cleanup, Task, Settings, Outcome, nothing_done, failed, call,
}
use faststream.Supervisor.Cache.{live, Rising, Rising-upper, cleanup-Cleaned, add-live, add-Rising}

-- The tasks that ended, with the times at which their callbacks ran.
abbrev pub Events : Type 0
Events = List (Task × ℕ)

abbrev pub InOrder : ℕ → Events → Type 0
InOrder low [] = Unit
InOrder low ((task, now) ∷ events) = (low ≤ now) × InOrder now events

unfoldable pub call_all : Settings → Events → SupervisorCache → List Outcome
call_all s [] cache = []
call_all s ((task, now) ∷ events) cache =
    let done = call s task now cache in done.0 ∷ call_all s events done.1

-- The same with a list of every trace that was logged, from which nothing is ever deleted.
abbrev reported : Settings → Exc → ℕ → List (ℕ × ℕ) → Outcome × List (ℕ × ℕ)
reported s exc now logged =
    if live s.ttl exc.ident now logged
    then (record { traced = false; restarted = s.restart_on_failure }, logged)
    else (record { traced = true; restarted = s.restart_on_failure }, (exc.ident, now) ∷ logged)

-- A task counts if it is the subscriber's still, was not cancelled, and raised.
abbrev raised_by : Settings → Task → Option Exc
raised_by s task =
    if task.cancelled || s.is_disabled || not task.tracked then none else elim (task.exception) [
      | none ↦ none
      | some exc ↦ if s.ignored_exceptions exc then none else some exc
    ]

abbrev answered : Settings → Option Exc → ℕ → List (ℕ × ℕ) → Outcome × List (ℕ × ℕ)
answered s none now logged = (nothing_done, logged)
answered s (some exc) now logged = reported s exc now logged

unfoldable pub expected_all : Settings → Events → List (ℕ × ℕ) → List Outcome
expected_all s [] logged = []
expected_all s ((task, now) ∷ events) logged =
    let done = answered s (raised_by s task) now logged in done.0 ∷ expected_all s events done.1

module _ (s : Settings) where
  record Agrees (now : ℕ) (cache : SupervisorCache) (logged : List (ℕ × ℕ)) : Type 0 where
    same : (key t : ℕ) → now ≤ t → live s.ttl key t cache ≡ live s.ttl key t logged
    rising : Rising 0 now cache

  abbrev through : Option Exc → ℕ → SupervisorCache → Outcome × SupervisorCache
  through none now cache = (nothing_done, cache)
  through (some exc) now cache = failed s exc now cache

  call-through :
      (task : Task) (now : ℕ) (cache : SupervisorCache)
      → call s task now cache ≡ through (raised_by s task) now cache
  unfolding call
  call-through task now cache = ground arith

  failed-Agrees :
      (exc : Exc) (low now : ℕ) (cache : SupervisorCache) (logged : List (ℕ × ℕ))
      → low ≤ now
      → Agrees low cache logged
      → ((failed s exc now cache).0 ≡ (reported s exc now logged).0)
        × Agrees now (failed s exc now cache).1 (reported s exc now logged).1
  failed-Agrees exc low now cache logged le a =
      let c = cleanup-Cleaned s.ttl now 0 low cache le a.rising in
      let known = c.known exc.ident ∙ a.same exc.ident now le in
      elim (Bool-cases (live s.ttl exc.ident now logged)) [
        | inl recent ↦
            let seen = known ∙ recent in
            (
              rw (seen, recent),
              rw (seen, recent)
                  (record {
                    same = λ key t l. c.kept key t l ∙ a.same key t (omega (arith, l, le));
                    rising = c.rising;
                  }),
            )
        | inr old ↦
            let unseen = known ∙ old in
            (
              rw (unseen, old),
              rw (unseen, old)
                  (record {
                    same = λ key t l.
                        let added =
                          add-live s.ttl exc.ident now (cleanup s.ttl now cache) unseen key t in
                        let before = c.kept key t l ∙ a.same key t (omega (arith, l, le)) in
                        ground (arith, added, before);
                    rising =
                        add-Rising s.ttl 0 exc.ident now (cleanup s.ttl now cache) unseen c.rising;
                  }),
            )
      ]

  through-Agrees :
      (raised : Option Exc) (low now : ℕ) (cache : SupervisorCache) (logged : List (ℕ × ℕ))
      → low ≤ now
      → Agrees low cache logged
      → ((through raised now cache).0 ≡ (answered s raised now logged).0)
        × Agrees now (through raised now cache).1 (answered s raised now logged).1
  through-Agrees none low now cache logged le a = (
    refl,
    record {
      same = λ key t l. a.same key t (omega (arith, l, le));
      rising = Rising-upper s.ttl 0 low now cache le a.rising;
    },
  )
  through-Agrees (some exc) low now cache logged le a = failed-Agrees exc low now cache logged le a

  call_all-Agrees :
      (events : Events) (low : ℕ) (cache : SupervisorCache) (logged : List (ℕ × ℕ))
      → InOrder low events
      → Agrees low cache logged
      → call_all s events cache ≡ expected_all s events logged
  unfolding call_all expected_all
  call_all-Agrees [] low cache logged o a = refl
  call_all-Agrees ((task, now) ∷ events) low cache logged (le, o) a =
      let (same, next) = through-Agrees (raised_by s task) low now cache logged le a in
      let rest = call_all-Agrees events now _ _ o next in
      rw (call-through task now cache, same, rest)

-- While the clock does not go back, the supervisor answers as if it kept every trace for ever: an
-- exception is logged with its trace exactly if none with its identifier was, less than `ttl`
-- before, and the task is added again whether or not it was logged. Deleting outdated entries from
-- the front of the cache alone is never seen.
pub call_all-expected_all :
    (s : Settings) (events : Events)
    → InOrder 0 events
    → call_all s events [] ≡ expected_all s events []
call_all-expected_all s events o =
    call_all-Agrees s events 0 [] [] o (record { same = λ key t l. refl; rising = omega arith })
