-- ===== src/Concurrent/Bounds.antt =====
-- How many messages are consumed at once, and where each message is.
use faststream.Prelude.{
  ℕ, suc, ◌+◌, ◌≤◌, ◌≡◌, refl, ap, ◌∙◌, List, [], ◌∷◌, ◌++◌, ◌==◌, length, length-append, arith,
  if◌then◌else◌,
}
use faststream.Concurrent.{
  State, Server, after_failure, Work, serve, enter_put, send, receive, enter_consume, finish, put,
  work, fail, Reachable, start, next,
}

-- How often a message is in a list.
abbrev pub count : ℕ → List ℕ → ℕ
count m [] = 0
count m (x ∷ xs) = if x == m then suc (count m xs) else count m xs

pub count-append : (m : ℕ) (xs ys : List ℕ) → count m (xs ++ ys) ≡ count m xs + count m ys
count-append m [] ys = omega arith
count-append m (x ∷ xs) ys = let rest = count-append m xs ys in ground (arith, rest)

pub length_middle : (xs ys : List ℕ) (m : ℕ) → length (xs ++ m ∷ ys) ≡ suc (length (xs ++ ys))
length_middle [] ys m = refl
length_middle (x ∷ xs) ys m = ap suc (length_middle xs ys m)

-- How often a message is in any of the places.
abbrev pub everywhere : ℕ → State → ℕ
everywhere m s =
    count m s.putting
    + count m s.sending
    + count m s.buffer
    + count m s.started
    + count m s.consuming
    + count m s.consumed
    + count m s.cancelled

pub record IsBounded (max_workers : ℕ) (s : State) : Type 0 where
  pub permits : s.limiter + length s.sending + length s.consuming ≡ max_workers
  pub buffered : length s.buffer ≤ max_workers

pub Work-IsBounded : {n : ℕ} {s s' : State} → Work n s s' → IsBounded n s → IsBounded n s'
Work-IsBounded (serve s e) b = record { permits = b.permits; buffered = b.buffered }
Work-IsBounded (enter_put s before behind m p e l) b = record {
  permits = omega (arith, b.permits, l);
  buffered = b.buffered;
}
Work-IsBounded (send s before behind m e l) b =
    let one = length_middle before behind m in
    let total = ap (λ (xs : List ℕ). length xs) e in
    record {
      permits = omega (arith, b.permits, one, total);
      buffered = omega (arith, l, length-append s.buffer (m ∷ []));
    }
Work-IsBounded (receive s m rest on e) b =
    let total = ap (λ (xs : List ℕ). length xs) e in
    record { permits = b.permits; buffered = omega (arith, b.buffered, total) }
Work-IsBounded (enter_consume s before behind m p e l) b = record {
  permits = omega (arith, b.permits, l);
  buffered = b.buffered;
}
Work-IsBounded (finish s before behind m e) b =
    let one = length_middle before behind m in
    let total = ap (λ (xs : List ℕ). length xs) e in
    record { permits = omega (arith, b.permits, one, total); buffered = b.buffered }

pub Reachable-IsBounded : {n : ℕ} {s : State} → Reachable n s → IsBounded n s
Reachable-IsBounded start = record { permits = omega arith; buffered = omega arith }
Reachable-IsBounded (next _ _ r (put s m)) =
    let b = Reachable-IsBounded r in record { permits = b.permits; buffered = b.buffered }
Reachable-IsBounded (next _ _ r (work w)) = Work-IsBounded w (Reachable-IsBounded r)
Reachable-IsBounded (next _ _ r (fail s m rest restarted on e)) =
    let b = Reachable-IsBounded r in
    record { permits = omega (arith, b.permits); buffered = b.buffered }

-- What the client handed over on the way.
abbrev pub given : {n : ℕ} {s : State} → Reachable n s → List ℕ
given start = []
given (next _ _ r (put s m)) = m ∷ given r
given (next _ _ r (work w)) = given r
given (next _ _ r (fail s m rest restarted on e)) = given r

count_middle :
    (k : ℕ) (before behind : List ℕ) (m : ℕ)
    → count k (before ++ m ∷ behind) ≡ count k (m ∷ before ++ behind)
count_middle k [] behind m = refl
count_middle k (x ∷ before) behind m =
    let rest = count_middle k before behind m in ground (arith, rest)

Work-everywhere : {n : ℕ} {s s' : State} (m : ℕ) → Work n s s' → everywhere m s' ≡ everywhere m s
Work-everywhere k (serve s e) = refl
Work-everywhere k (enter_put s before behind m p e l) =
    let moved = count_middle k before behind m in
    let total = ap (λ (xs : List ℕ). count k xs) e in ground (arith, moved, total)
Work-everywhere k (send s before behind m e l) =
    let moved = count_middle k before behind m in
    let total = ap (λ (xs : List ℕ). count k xs) e in
    let put_last = count-append k s.buffer (m ∷ []) in ground (arith, moved, total, put_last)
Work-everywhere k (receive s m rest on e) =
    let total = ap (λ (xs : List ℕ). count k xs) e in ground (arith, total)
Work-everywhere k (enter_consume s before behind m p e l) =
    let moved = count_middle k before behind m in
    let total = ap (λ (xs : List ℕ). count k xs) e in ground (arith, moved, total)
Work-everywhere k (finish s before behind m e) =
    let moved = count_middle k before behind m in
    let total = ap (λ (xs : List ℕ). count k xs) e in ground (arith, moved, total)

count-append_both :
    (k : ℕ) (xs ys zs : List ℕ) → count k (xs ++ ys ++ zs) ≡ count k xs + count k ys + count k zs
count-append_both k xs ys zs =
    let first = count-append k (xs ++ ys) zs in
    let second = count-append k xs ys in omega (arith, first, second)

Fail-everywhere :
    (k : ℕ) (s : State) (after : Server)
    → everywhere k (record s {
      limiter = s.limiter + length s.consuming;
      server = after;
      started = [];
      consuming = [];
      cancelled = s.consuming ++ s.started ++ s.cancelled;
    })
      ≡ everywhere k s
Fail-everywhere k s after =
    let all = count-append_both k s.consuming s.started s.cancelled in omega (arith, all)

everywhere-given :
    {n : ℕ} {s : State} (m : ℕ) (r : Reachable n s) → everywhere m s ≡ count m (given r)
everywhere-given k start = refl
everywhere-given k (next _ _ r (put s m)) = let h = everywhere-given k r in ground (arith, h)
everywhere-given k (next _ _ r (work w)) = Work-everywhere k w ∙ everywhere-given k r
everywhere-given k (next _ _ r (fail s m rest restarted on e)) =
    Fail-everywhere k s (after_failure restarted) ∙ everywhere-given k r

-- In whatever order the tasks go on and fail, as long as the subscriber is not stopped, at most
-- `max_workers` messages are consumed at once, the buffer holds at most as many, and each message
-- that the client handed over is at one place, as often as it was handed over: it waits, is in the
-- buffer, is started, is being consumed, was consumed, or was cancelled by a failure, its own or that
-- of another message. So a message is not consumed more often than it was handed over.
pub Reachable-bounded :
    (max_workers : ℕ) (s : State) (r : Reachable max_workers s)
    → (length s.consuming ≤ max_workers)
      × (length s.buffer ≤ max_workers)
      × ((m : ℕ) → everywhere m s ≡ count m (given r))
Reachable-bounded max_workers s r =
    let b = Reachable-IsBounded r in
    (omega (arith, b.permits), b.buffered, λ m. everywhere-given m r)
