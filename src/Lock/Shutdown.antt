-- ===== src/Lock/Shutdown.antt =====
-- What the lock counts, and what a stop that waited has seen.
use faststream.Prelude.{
  ℕ, ◌+◌, ◌≡◌, ◌↔◌, refl, ap, sym, ◌∙◌, Bool, true, false, Option, List, [], ◌∷◌, ◌++◌, length,
  arith,
}
use faststream.Lock.{
  qsize, acquire, release, is_joined, Phase, serving, waiting, drained, left, State, Step, renew,
  post_start, begin, finish, finish_earlier, stop, join, give_up, Reachable, start, next,
}

-- Only a subscriber that serves runs, and one that drained has nothing in flight.
abbrev IsQuietPhase : Phase → Bool → List ℕ → Type 0
IsQuietPhase serving running in_flight = Unit
IsQuietPhase waiting running in_flight = running ≡ false
IsQuietPhase drained running in_flight = (running ≡ false) × (in_flight ≡ [])
IsQuietPhase left running in_flight = running ≡ false

record IsCounted (s : State) : Type 0 where
  queue : s.lock.queue ≡ length s.in_flight
  unfinished : s.lock.unfinished ≡ length s.in_flight
  phase : IsQuietPhase s.phase s.running s.in_flight

split_length : (xs ys : List ℕ) (m : ℕ) → length (xs ++ m ∷ ys) ≡ length (xs ++ ys) + 1
split_length [] ys m = ground arith
split_length (x ∷ xs) ys m = let rest = split_length xs ys m in ground arith

no_item : (xs ys : List ℕ) (m : ℕ) → [] ≡ xs ++ m ∷ ys → ⊥
no_item [] ys m h = cc
no_item (x ∷ xs) ys m h = cc

running_phase :
    (p : Phase) (b : Bool) (xs ys : List ℕ) → b ≡ true → IsQuietPhase p b xs → IsQuietPhase p b ys
running_phase serving b xs ys on q = tt
running_phase waiting b xs ys on q = q
running_phase drained b xs ys on (off, none_left) = absurd (ground arith)
running_phase left b xs ys on q = q

shorter_phase :
    (p : Phase) (b : Bool) (xs before after : List ℕ) (m : ℕ)
    → xs ≡ before ++ m ∷ after
    → IsQuietPhase p b xs
    → IsQuietPhase p b (before ++ after)
shorter_phase serving b xs before after m e q = tt
shorter_phase waiting b xs before after m e q = q
shorter_phase drained b xs before after m e (off, none_left) =
    absurd (no_item before after m (sym none_left ∙ e))
shorter_phase left b xs before after m e q = q

waiting_phase : (p : Phase) (b : Bool) (xs : List ℕ) → p ≡ waiting → IsQuietPhase p b xs → b ≡ false
waiting_phase serving b xs w q = cc
waiting_phase waiting b xs w q = q
waiting_phase drained b xs w q = q.0
waiting_phase left b xs w q = q

none_left : (xs : List ℕ) → length xs ≡ 0 → xs ≡ []
none_left [] h = refl
none_left (x ∷ xs) h = absurd (omega (arith, h))

Step-IsCounted :
    {timeout : Option ℕ} {s s' : State} → Step timeout s s' → IsCounted s → IsCounted s'
unfolding acquire release is_joined
Step-IsCounted (renew s) i = record { queue = refl; unfinished = refl; phase = tt }
Step-IsCounted (finish_earlier s before after m e) i = record {
  queue = i.queue;
  unfinished = i.unfinished;
  phase = i.phase;
}
Step-IsCounted (post_start s) i = record { queue = i.queue; unfinished = i.unfinished; phase = tt }
Step-IsCounted (begin s m on) i = record {
  queue = ground (arith, i.queue);
  unfinished = ground (arith, i.unfinished);
  phase = running_phase s.phase s.running s.in_flight (m ∷ s.in_flight) on i.phase;
}
Step-IsCounted (finish s before after m e) i =
    let n = split_length before after m in
    let total = ap (λ (xs : List ℕ). length xs) e in
    record {
      queue = ground (arith, i.queue, i.unfinished, n, total);
      unfinished = ground (arith, i.queue, i.unfinished, n, total);
      phase = shorter_phase s.phase s.running s.in_flight before after m e i.phase;
    }
Step-IsCounted (stop s) i = record { queue = i.queue; unfinished = i.unfinished; phase = refl }
Step-IsCounted (join s w t j) i = record {
  queue = i.queue;
  unfinished = i.unfinished;
  phase = (
    waiting_phase s.phase s.running s.in_flight w i.phase,
    none_left s.in_flight (ground (arith, j, i.unfinished)),
  );
}
Step-IsCounted (give_up s w) i = record {
  queue = i.queue;
  unfinished = i.unfinished;
  phase = waiting_phase s.phase s.running s.in_flight w i.phase;
}

Reachable-IsCounted : {timeout : Option ℕ} {s : State} → Reachable timeout s → IsCounted s
Reachable-IsCounted start = record { queue = refl; unfinished = refl; phase = tt }
Reachable-IsCounted (next s s' r step) = Step-IsCounted step (Reachable-IsCounted r)

drained_phase :
    (p : Phase) (b : Bool) (xs : List ℕ)
    → p ≡ drained
    → IsQuietPhase p b xs
    → (b ≡ false) × (xs ≡ [])
drained_phase serving b xs d q = cc
drained_phase waiting b xs d q = cc
drained_phase drained b xs d q = q
drained_phase left b xs d q = cc

-- In whatever order messages begin and end and the subscriber starts and stops, the lock counts the
-- messages in flight that began since the last start, which made the lock anew, and waiting for it
-- ends exactly when there is none. After a `stop` that waited to the end, and until the next start,
-- the subscriber does not run and has none of these messages in flight. Of messages that began before
-- the last start nothing is said: they hold an earlier lock.
pub Reachable-drained :
    (timeout : Option ℕ) (s : State)
    → Reachable timeout s
    → (qsize s.lock ≡ length s.in_flight)
      × ((is_joined s.lock ≡ true) ↔ (s.in_flight ≡ []))
      × (s.phase ≡ drained → (s.running ≡ false) × (s.in_flight ≡ []))
unfolding is_joined
Reachable-drained timeout s r =
    let i = Reachable-IsCounted r in
    (
      i.queue,
      (
        λ j. none_left s.in_flight (ground (arith, j, i.unfinished)),
        λ e.
            let shorter = ap (λ (xs : List ℕ). length xs) e in
            ground (arith, i.unfinished, shorter),
      ),
      λ d. drained_phase s.phase s.running s.in_flight d i.phase,
    )
