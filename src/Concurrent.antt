-- ===== src/Concurrent.antt =====
-- _internal/endpoint/subscriber/mixins.py, ConcurrentMixin: messages that a subscriber hands over to
-- workers by a queue, under one semaphore. Each step is what a task does up to its next `await`, and
-- the event loop takes them in any order.
pub mod Bounds
pub mod Draining
use faststream.Prelude.{ℕ, suc, ◌+◌, ◌<◌, ◌≡◌, Bool, true, false, List, [], ◌∷◌, ◌++◌, length}

-- The task of `_serve_consume_queue`: it is to be started, at first or again by the supervisor, it
-- runs, or it ended with an exception that the supervisor does not restart it for.
pub data Server : Type 0 where
  pending serving ended : Server

-- What follows an exception: TaskCallbackSupervisor ignores `CancelledError`, and every exception
-- where it is disabled.
abbrev pub after_failure : Bool → Server
after_failure true = pending
after_failure false = ended

-- A message is in one of these places, by its number: its `_put_msg` waits for the semaphore, or has
-- it and sends; it is in the buffer; its `_consume_msg` was started and waits for the semaphore, or
-- has it and consumes; it was consumed; or its task was cancelled. `limiter` counts what the
-- semaphore has left.
pub record State : Type 0 where
  pub limiter : ℕ
  pub server : Server
  pub putting : List ℕ
  pub sending : List ℕ
  pub buffer : List ℕ
  pub started : List ℕ
  pub consuming : List ℕ
  pub consumed : List ℕ
  pub cancelled : List ℕ

-- ConcurrentMixin.__init__ and `start`
abbrev pub initial : ℕ → State
initial max_workers = record {
  limiter = max_workers;
  server = pending;
  putting = [];
  sending = [];
  buffer = [];
  started = [];
  consuming = [];
  consumed = [];
  cancelled = [];
}

-- What the tasks do with messages that are there.
pub data Work (max_workers : ℕ) : State → State → Type 0 where
  -- start_consume_task, and the restart by the supervisor
  serve : (s : State) → s.server ≡ pending → Work max_workers s (record s { server = serving })
  -- _put_msg
  enter_put :
      (s : State) (before behind : List ℕ) (m p : ℕ)
      → s.putting ≡ before ++ m ∷ behind
      → s.limiter ≡ suc p
      → Work max_workers s
          (record s { limiter = p; putting = before ++ behind; sending = m ∷ s.sending })
  send :
      (s : State) (before behind : List ℕ) (m : ℕ)
      → s.sending ≡ before ++ m ∷ behind
      → length s.buffer < max_workers
      → Work max_workers s (record s {
        limiter = suc s.limiter;
        sending = before ++ behind;
        buffer = s.buffer ++ m ∷ [];
      })
  -- _serve_consume_queue
  receive :
      (s : State) (m : ℕ) (rest : List ℕ)
      → s.server ≡ serving
      → s.buffer ≡ m ∷ rest
      → Work max_workers s (record s { buffer = rest; started = m ∷ s.started })
  -- _consume_msg
  enter_consume :
      (s : State) (before behind : List ℕ) (m p : ℕ)
      → s.started ≡ before ++ m ∷ behind
      → s.limiter ≡ suc p
      → Work max_workers s
          (record s { limiter = p; started = before ++ behind; consuming = m ∷ s.consuming })
  finish :
      (s : State) (before behind : List ℕ) (m : ℕ)
      → s.consuming ≡ before ++ m ∷ behind
      → Work max_workers s (record s {
        limiter = suc s.limiter;
        consuming = before ++ behind;
        consumed = m ∷ s.consumed;
      })

-- The steps: the client hands a message over, or a task goes on, or an exception escapes from
-- `consume`, which cancels the task group; the supervisor restarts its task or does not.
pub data Step (max_workers : ℕ) : State → State → Type 0 where
  put : (s : State) (m : ℕ) → Step max_workers s (record s { putting = m ∷ s.putting })
  work : {s s' : State} → Work max_workers s s' → Step max_workers s s'
  fail :
      (s : State) (m : ℕ) (rest : List ℕ) (restarted : Bool)
      → s.server ≡ serving
      → s.consuming ≡ m ∷ rest
      → Step max_workers s (record s {
        limiter = s.limiter + length s.consuming;
        server = after_failure restarted;
        started = [];
        consuming = [];
        cancelled = s.consuming ++ s.started ++ s.cancelled;
      })

pub data Reachable (max_workers : ℕ) : State → Type 0 where
  start : Reachable max_workers (initial max_workers)
  next : (s s' : State) → Reachable max_workers s → Step max_workers s s' → Reachable max_workers s'

-- A run of work alone, with the number of its steps.
pub data Run (max_workers : ℕ) : ℕ → State → State → Type 0 where
  stay : (s : State) → Run max_workers 0 s s
  go :
      (n : ℕ) (s s' t : State)
      → Work max_workers s s'
      → Run max_workers n s' t
      → Run max_workers (suc n) s t
