-- ===== src/Tests/Working.antt =====
-- Two messages, one worker, and a failure.
use faststream.Prelude.{ℕ, ◌+◌, ◌≤◌, ◌≡◌, ◌⊎◌, refl, false, [], ◌∷◌, length, arith}
use faststream.Concurrent.{
  State, serving, ended, initial, serve, enter_put, send, receive, enter_consume, put, work, fail,
  Reachable, start, next, Run,
}
use faststream.Concurrent.Bounds.{everywhere, count, given, Reachable-bounded}
use faststream.Concurrent.Draining.{work_left, IsDrained, CanGo, Reachable-drains}

abbrev handed : State
handed = record (initial 1) { putting = 7 ∷ [] }

abbrev buffered : State
buffered = record (initial 1) { buffer = 7 ∷ [] }

abbrev served : State
served = record buffered { server = serving }

abbrev consuming : State
consuming = record served { limiter = 0; buffer = []; consuming = 7 ∷ [] }

-- The first message is consumed by the only worker while the second waits for the semaphore.
abbrev busy : State
busy = record consuming { putting = 8 ∷ [] }

busy-Reachable : Reachable 1 busy
busy-Reachable =
    next consuming busy
      (next (record served { buffer = []; started = 7 ∷ [] }) consuming
        (next served (record served { buffer = []; started = 7 ∷ [] })
          (next buffered served
            (next (record handed { putting = []; limiter = 0; sending = 7 ∷ [] }) buffered
              (next handed (record handed { putting = []; limiter = 0; sending = 7 ∷ [] })
                (next (initial 1) handed start (put (initial 1) 7))
                (work (enter_put handed [] [] 7 0 refl refl)))
              (work (
                send (record handed { putting = []; limiter = 0; sending = 7 ∷ [] }) [] [] 7 refl
                  (omega arith))))
            (work (serve buffered refl)))
          (work (receive served 7 [] refl refl)))
        (work
          (enter_consume (record served { buffer = []; started = 7 ∷ [] }) [] [] 7 0 refl refl)))
      (put consuming 8)

abbrev crashed : State
crashed = record busy { limiter = 1; server = ended; consuming = []; cancelled = 7 ∷ [] }

crashed-Reachable : Reachable 1 crashed
crashed-Reachable = next busy crashed busy-Reachable (fail busy 7 [] false refl refl)

Reachable-bounded_example :
    (length crashed.consuming ≤ 1)
    × (length crashed.buffer ≤ 1)
    × ((m : ℕ) → everywhere m crashed ≡ count m (given crashed-Reachable))
Reachable-bounded_example = Reachable-bounded 1 crashed crashed-Reachable

Reachable-drains_example :
    ((t : State) × Run 1 (work_left busy) busy t × IsDrained t)
    × ((k : ℕ) (t : State)
        → Run 1 k busy t
        → (k + work_left t ≡ work_left busy) × (CanGo 1 t ⊎ IsDrained t))
Reachable-drains_example = Reachable-drains 1 busy (omega arith) busy-Reachable (λ e. cc)
