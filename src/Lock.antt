-- ===== src/Lock.antt =====
-- _internal/endpoint/subscriber/utils.py: MultiLock, on the counters of its `asyncio.Queue`, and the
-- subscriber that waits for it in `stop`.
pub mod Shutdown
use faststream.Prelude.{
  ℕ, zero, suc, ◌+◌, ◌-◌, ◌≡◌, Bool, true, false, Option, none, some, List, [], ◌∷◌, ◌++◌, ◌==◌,
  if◌then◌else◌,
}

-- `qsize()`, and the tasks that `join()` waits for
pub record MultiLock : Type 0 where
  pub queue : ℕ
  pub unfinished : ℕ

-- put_nowait(None)
unfoldable pub acquire : MultiLock → MultiLock
acquire l = record { queue = l.queue + 1; unfinished = l.unfinished + 1 }

-- get_nowait() and task_done(): of an empty queue, and of a queue without tasks, nothing is taken
unfoldable pub release : MultiLock → MultiLock
release l =
    if l.queue == 0
    then l
    else if l.unfinished == 0
    then record l { queue = l.queue - 1 }
    else record { queue = l.queue - 1; unfinished = l.unfinished - 1 }

abbrev pub qsize : MultiLock → ℕ
qsize l = l.queue

abbrev pub empty : MultiLock → Bool
empty l = l.queue == 0

-- `wait_release` waits only with a timeout that is not zero.
unfoldable pub waits : Option ℕ → Bool
waits none = false
waits (some timeout) = if timeout == 0 then false else true

-- queue.join() returns
unfoldable pub is_joined : MultiLock → Bool
is_joined l = l.unfinished == 0

-- Where `stop` is: not called since the last start, waiting, or returned; with the messages done,
-- or without, because the time was over or it did not wait.
pub data Phase : Type 0 where
  serving waiting drained left : Phase

-- `in_flight` are the messages whose processing has begun since the last start and not ended. They
-- hold `lock`; those of `earlier` had begun before that start, and hold the lock of their time.
pub record State : Type 0 where
  pub running : Bool
  pub lock : MultiLock
  pub phase : Phase
  pub in_flight : List ℕ
  pub earlier : List ℕ

-- MultiLock()
abbrev pub new_lock : MultiLock
new_lock = record { queue = 0; unfinished = 0 }

abbrev pub initial : State
initial = record { running = false; lock = new_lock; phase = serving; in_flight = []; earlier = [] }

-- The steps of a subscriber with this graceful timeout, in any order that the event loop takes. From
-- the test of `running` to the lock there is no other task in between.
pub data Step (timeout : Option ℕ) : State → State → Type 0 where
  -- `start` makes a new lock, whatever goes on, and a stop that waits goes on waiting for the old one.
  renew :
      (s : State)
      → Step timeout s (record s {
        lock = new_lock;
        phase = serving;
        in_flight = [];
        earlier = s.in_flight ++ s.earlier;
      })
  post_start : (s : State) → Step timeout s (record s { running = true; phase = serving })
  begin :
      (s : State) (m : ℕ)
      → s.running ≡ true
      → Step timeout s (record s { lock = acquire s.lock; in_flight = m ∷ s.in_flight })
  finish :
      (s : State) (before after : List ℕ) (m : ℕ)
      → s.in_flight ≡ before ++ m ∷ after
      → Step timeout s (record s { lock = release s.lock; in_flight = before ++ after })
  finish_earlier :
      (s : State) (before after : List ℕ) (m : ℕ)
      → s.earlier ≡ before ++ m ∷ after
      → Step timeout s (record s { earlier = before ++ after })
  stop : (s : State) → Step timeout s (record s { running = false; phase = waiting })
  join :
      (s : State)
      → s.phase ≡ waiting
      → waits timeout ≡ true
      → is_joined s.lock ≡ true
      → Step timeout s (record s { phase = drained })
  give_up : (s : State) → s.phase ≡ waiting → Step timeout s (record s { phase = left })

pub data Reachable (timeout : Option ℕ) : State → Type 0 where
  start : Reachable timeout initial
  next : (s s' : State) → Reachable timeout s → Step timeout s s' → Reachable timeout s'
