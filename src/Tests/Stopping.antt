-- ===== src/Tests/Stopping.antt =====
-- A subscriber that stops while it processes a message.
use faststream.Prelude.{◌≡◌, ◌↔◌, refl, true, false, some, [], ◌∷◌, length}
use faststream.Lock.{
  acquire, release, is_joined, waits, qsize, drained, waiting, serving, State, initial, new_lock,
  renew, post_start, begin, finish, stop, join, Reachable, start, next,
}
use faststream.Lock.Shutdown.{Reachable-drained}

-- It was started again while it still processed a message.
abbrev first_run : State
first_run = record initial { running = true; lock = acquire new_lock; in_flight = 6 ∷ [] }

abbrev renewed : State
renewed = record first_run { lock = new_lock; phase = serving; in_flight = []; earlier = 6 ∷ [] }

abbrev started : State
started = record renewed { running = true; phase = serving }

abbrev busy : State
busy = record started { lock = acquire started.lock; in_flight = 7 ∷ [] }

abbrev stopped : State
stopped = record busy { running = false; phase = waiting }

abbrev done : State
done = record stopped { lock = release stopped.lock; in_flight = [] }

abbrev over : State
over = record done { phase = drained }

over-Reachable : Reachable (some 15) over
unfolding acquire release waits is_joined
over-Reachable =
    next done over
      (next stopped done
        (next busy stopped
          (next started busy
            (next renewed started
              (next first_run renewed
                (next (record initial { running = true }) first_run
                  (next initial (record initial { running = true })
                    (next initial initial start (renew initial)) (post_start initial))
                  (begin (record initial { running = true }) 6 refl))
                (renew first_run))
              (post_start renewed))
            (begin started 7 refl))
          (stop busy))
        (finish stopped [] [] 7 refl))
      (join done refl refl refl)

Reachable-drained_example :
    (qsize over.lock ≡ length over.in_flight)
    × ((is_joined over.lock ≡ true) ↔ (over.in_flight ≡ []))
    × (over.phase ≡ drained → (over.running ≡ false) × (over.in_flight ≡ []))
Reachable-drained_example = Reachable-drained (some 15) over over-Reachable
