-- ===== src/Concurrent/Draining.antt =====
-- Work comes to an end, and where there is work some task can go on.
use faststream.Prelude.{
  ℕ, zero, suc, ◌+◌, ◌*◌, ◌<◌, ◌≡◌, ◌≢◌, ◌⊎◌, inl, inr, refl, ap, List, [], ◌∷◌, length,
  length-append, arith,
}
use faststream.Concurrent.{
  State, Server, pending, serving, ended, Work, serve, enter_put, send, receive, enter_consume,
  finish, Reachable, Run, stay, go,
}
use faststream.Concurrent.Bounds.{IsBounded, Reachable-IsBounded, Work-IsBounded, length_middle}

abbrev pub to_serve : Server → ℕ
to_serve pending = 1
to_serve serving = 0
to_serve ended = 0

-- How many steps of work are left.
abbrev pub work_left : State → ℕ
work_left s =
    5 * length s.putting
    + 4 * length s.sending
    + 3 * length s.buffer
    + 2 * length s.started
    + length s.consuming
    + to_serve s.server

-- Each message on its way is consumed, or its task is cancelled.
pub record IsDrained (s : State) : Type 0 where
  pub served : s.server ≡ serving
  pub putting : s.putting ≡ []
  pub sending : s.sending ≡ []
  pub buffer : s.buffer ≡ []
  pub started : s.started ≡ []
  pub consuming : s.consuming ≡ []

Work-work_left : {n : ℕ} {s s' : State} → Work n s s' → work_left s ≡ suc (work_left s')
Work-work_left (serve s e) = ground (arith, e)
Work-work_left (enter_put s before behind m p e l) =
    let one = length_middle before behind m in
    let total = ap (λ (xs : List ℕ). length xs) e in omega (arith, one, total)
Work-work_left (send s before behind m e l) =
    let one = length_middle before behind m in
    let total = ap (λ (xs : List ℕ). length xs) e in
    let last = length-append s.buffer (m ∷ []) in omega (arith, one, total, last)
Work-work_left (receive s m rest on e) =
    let total = ap (λ (xs : List ℕ). length xs) e in omega (arith, total)
Work-work_left (enter_consume s before behind m p e l) =
    let one = length_middle before behind m in
    let total = ap (λ (xs : List ℕ). length xs) e in omega (arith, one, total)
Work-work_left (finish s before behind m e) =
    let one = length_middle before behind m in
    let total = ap (λ (xs : List ℕ). length xs) e in omega (arith, one, total)

-- Some task can go on, or nothing is left to do.
abbrev pub CanGo : ℕ → State → Type 0
CanGo n s = (s' : State) × Work n s s'

a_permit : (n limiter : ℕ) → 0 < n → limiter ≡ n → (p : ℕ) × (limiter ≡ suc p)
a_permit zero limiter h e = absurd (omega (arith, h))
a_permit (suc n) limiter h e = (n, e)

module _ (n : ℕ) (some_worker : 0 < n) (s : State) (bounded : IsBounded n s) where
  -- With the semaphore free, the first message that waits for it or is in the buffer goes on.
  waiting_goes :
      (p : ℕ) (putting buffer started : List ℕ)
      → s.server ≡ serving
      → s.limiter ≡ suc p
      → s.putting ≡ putting
      → s.buffer ≡ buffer
      → s.started ≡ started
      → CanGo n s ⊎ ((s.putting ≡ []) × (s.buffer ≡ []) × (s.started ≡ []))
  waiting_goes p putting buffer (m ∷ started) on l e f g =
      inl (_, enter_consume s [] started m p g l)
  waiting_goes p putting (m ∷ buffer) [] on l e f g = inl (_, receive s m buffer on f)
  waiting_goes p (m ∷ putting) [] [] on l e f g = inl (_, enter_put s [] putting m p e l)
  waiting_goes p [] [] [] on l e f g = inr (e, f, g)

  -- Who has the semaphore goes on: a consumer ends, and a sender finds the buffer free or the buffer
  -- is read.
  holding_goes :
      (sending consuming buffer : List ℕ)
      → s.server ≡ serving
      → s.sending ≡ sending
      → s.consuming ≡ consuming
      → s.buffer ≡ buffer
      → CanGo n s ⊎ ((s.sending ≡ []) × (s.consuming ≡ []))
  holding_goes sending (m ∷ consuming) buffer on e f g = inl (_, finish s [] consuming m f)
  holding_goes (m ∷ sending) [] [] on e f g =
      let free : length s.buffer < n = rw g some_worker in inl (_, send s [] sending m e free)
  holding_goes (m ∷ sending) [] (k ∷ buffer) on e f g = inl (_, receive s k buffer on g)
  holding_goes [] [] buffer on e f g = inr (e, f)

  all_free : s.sending ≡ [] → s.consuming ≡ [] → s.limiter ≡ n
  all_free e f =
      let no_sender = ap (λ (xs : List ℕ). length xs) e in
      let no_consumer = ap (λ (xs : List ℕ). length xs) f in
      omega (arith, bounded.permits, no_sender, no_consumer)

  serving_goes : s.server ≡ serving → CanGo n s ⊎ IsDrained s
  serving_goes on = elim (holding_goes s.sending s.consuming s.buffer on refl refl refl) [
    | inl goes ↦ inl goes
    | inr (e, f) ↦
        let (p, l) = a_permit n s.limiter some_worker (all_free e f) in
        elim (waiting_goes p s.putting s.buffer s.started on l refl refl refl) [
          | inl goes ↦ inl goes
          | inr (g, h, i) ↦ inr (record {
            served = on;
            putting = g;
            sending = e;
            buffer = h;
            started = i;
            consuming = f;
          })
        ]
  ]

  going : (b : Server) → s.server ≡ b → s.server ≢ ended → CanGo n s ⊎ IsDrained s
  going pending off up = inl (_, serve s off)
  going serving on up = serving_goes on
  going ended off up = absurd (up off)

Work-up : {n : ℕ} {s s' : State} → Work n s s' → s.server ≢ ended → s'.server ≢ ended
Work-up (serve s e) up = λ h. cc
Work-up (enter_put s before behind m p e l) up = up
Work-up (send s before behind m e l) up = up
Work-up (receive s m rest on e) up = up
Work-up (enter_consume s before behind m p e l) up = up
Work-up (finish s before behind m e) up = up

Run-up : {n k : ℕ} {s t : State} → Run n k s t → s.server ≢ ended → t.server ≢ ended
Run-up (stay s) up = up
Run-up (go k s s' t w r) up = Run-up r (Work-up w up)

Run-IsBounded : {n k : ℕ} {s t : State} → Run n k s t → IsBounded n s → IsBounded n t
Run-IsBounded (stay s) b = b
Run-IsBounded (go k s s' t w r) b = Run-IsBounded r (Work-IsBounded w b)

Run-work_left : {n k : ℕ} {s t : State} → Run n k s t → k + work_left t ≡ work_left s
Run-work_left (stay s) = omega arith
Run-work_left (go k s s' t w r) =
    let step = Work-work_left w in let rest = Run-work_left r in omega (arith, step, rest)

none_left : (s : State) → work_left s ≡ 0 → (s' : State) → {n : ℕ} → Work n s s' → ⊥
none_left s e s' w = let step = Work-work_left w in omega (arith, e, step)

-- With the lists and the flag apart, so that they can be replaced.
nothing_left :
    (putting sending buffer started consuming : List ℕ) (b : Server)
    → b ≡ serving
    → putting ≡ []
    → sending ≡ []
    → buffer ≡ []
    → started ≡ []
    → consuming ≡ []
    → 5 * length putting
        + 4 * length sending
        + 3 * length buffer
        + 2 * length started
        + length consuming
        + to_serve b
      ≡ 0
nothing_left putting sending buffer started consuming b on e f g h i = rw (on, e, f, g, h, i)

IsDrained-work_left : (s : State) → IsDrained s → work_left s ≡ 0
IsDrained-work_left s d =
    nothing_left s.putting s.sending s.buffer s.started s.consuming s.server d.served d.putting
      d.sending d.buffer d.started d.consuming

module _ (n : ℕ) (some_worker : 0 < n) where
  drains :
      (k : ℕ) (s : State)
      → IsBounded n s
      → s.server ≢ ended
      → work_left s ≡ k
      → (t : State) × Run n k s t × IsDrained t
  drains zero s b up e = elim (going n some_worker s b s.server refl up) [
    | inl (s', w) ↦ absurd (none_left s e s' w)
    | inr drained ↦ (s, stay s, drained)
  ]
  drains (suc k) s b up e = elim (going n some_worker s b s.server refl up) [
    | inl (s', w) ↦
        let step = Work-work_left w in
        let (t, r, drained) =
          drains k s' (Work-IsBounded w b) (Work-up w up) (omega (arith, e, step)) in
        (t, go k s s' t w r, drained)
    | inr drained ↦
        let none_there = IsDrained-work_left s drained in absurd (omega (arith, e, none_there))
  ]

-- With a worker at least, and where the task that serves the queue did not end with an exception that
-- the supervisor does not restart it for, while no message is handed over any more, no task fails
-- and the subscriber is not stopped: work can go on until each message on its way is consumed and
-- the queue is served. Whatever the order of the
-- tasks, each step is one of those that are left, and at each point some task can go on, or all is
-- consumed. So no two tasks wait for each other, and work ends in that state only.
pub Reachable-drains :
    (max_workers : ℕ) (s : State)
    → 0 < max_workers
    → Reachable max_workers s
    → s.server ≢ ended
    → ((t : State) × Run max_workers (work_left s) s t × IsDrained t)
      × ((k : ℕ) (t : State)
          → Run max_workers k s t
          → (k + work_left t ≡ work_left s) × (CanGo max_workers t ⊎ IsDrained t))
Reachable-drains max_workers s some_worker r up =
    let b = Reachable-IsBounded r in
    (
      drains max_workers some_worker (work_left s) s b up refl,
      λ k t run. (
        Run-work_left run,
        going max_workers some_worker t (Run-IsBounded run b) t.server refl (Run-up run up),
      ),
    )
