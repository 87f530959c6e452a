-- ===== src/Threadpool/Live.antt =====
-- src/lib/concurrent/threadpool.c: what a thread waits for comes, but for threadpool_tasks_queued.
use libvci.Base.{
  ℕ, ◌+◌, ◌≤◌, ◌<◌, ◌≡◌, ◌≢◌, ◌⊎◌, inl, inr, ap, refl, Bool, true, false, Bool-cases, ltb, List, [],
  ◌∷◌, ◌++◌, arith,
}
use libvci.Threadpool.{
  Pool, Thread, wait_in, added, refused, done_wait, completed, sized, Move, crash, goes, take_from,
  wait, lock, advance, System, Reach,
}
use libvci.Threadpool.Weight.{total, locks, holds_in, holds_out}
use libvci.Threadpool.Sound.{IsSound, Reach-IsSound}
use libvci.Threadpool.Safe.{Reach-ne-crash}

abbrev pub moves : Move → Bool
moves (goes u r) = true
moves _ = false

-- The thread waits for work or has returned: it wants no mutex and no event.
abbrev pub rests : Thread → Bool
rests wait_in = true
rests done_wait = true
rests added = true
rests (refused task) = true
rests (completed task) = true
rests (sized n) = true
rests _ = false

-- A thread that has one of the mutexes goes on.
holder_moves :
    (sem_max : ℕ) (t : Thread) (s : Pool)
    → 0 < holds_in t + holds_out t
    → advance sem_max t s ≢ crash
    → moves (advance sem_max t s) ≡ true
unfolding advance take_from wait lock
holder_moves sem_max wait_in s h safe = ground arith
holder_moves sem_max _ s h safe = ground arith

stay_locked :
    (sem_max : ℕ) (t : Thread) (s : Pool)
    → rests t ≡ false
    → advance sem_max t s ≢ crash
    → moves (advance sem_max t s) ≡ false
    → 0 < locks s.mutex_queue_in + locks s.mutex_queue_out
unfolding advance take_from wait lock
stay_locked sem_max wait_in s busy safe stay = ground arith
stay_locked sem_max _ s busy safe stay = ground arith

-- Any other goes on, if the mutexes are free.
free_moves :
    (sem_max : ℕ) (t : Thread) (s : Pool)
    → rests t ≡ false
    → advance sem_max t s ≢ crash
    → (moves (advance sem_max t s) ≡ true) ⊎ (0 < locks s.mutex_queue_in + locks s.mutex_queue_out)
unfolding advance take_from wait lock
free_moves sem_max t s busy safe = elim (Bool-cases (moves (advance sem_max t s))) [
  | inl go ↦ inl go
  | inr stay ↦ inr (stay_locked sem_max t s busy safe stay)
]

-- A thread of the list with weight.
record Heavy (weight : Thread → ℕ) (ts : List Thread) : Type 0 where
  before : List Thread
  thread : Thread
  behind : List Thread
  parts : ts ≡ before ++ thread ∷ behind
  heavy : 0 < weight thread

find-Heavy : (weight : Thread → ℕ) (ts : List Thread) → 0 < total weight ts → Heavy weight ts
find-Heavy weight [] h = absurd (omega arith)
find-Heavy weight (t ∷ ts) h = elim (Bool-cases (ltb 0 (weight t))) [
  | inl now ↦ record { before = []; thread = t; behind = ts; parts = refl; heavy = ground arith }
  | inr later ↦
      let rest = find-Heavy weight ts (ground arith) in
      record {
        before = t ∷ rest.before;
        thread = rest.thread;
        behind = rest.behind;
        parts = ap (λ (us : List Thread). t ∷ us) rest.parts;
        heavy = rest.heavy;
      }
]

-- Some thread can make a step.
pub record CanStep (sem_max : ℕ) (z : System) : Type 0 where
  pub before : List Thread
  pub thread : Thread
  pub behind : List Thread
  pub parts : z.threads ≡ before ++ thread ∷ behind
  pub goes_on : moves (advance sem_max thread z.pool) ≡ true

module _ (sem_max : ℕ) (y z : System) (sound : IsSound y) (reached : Reach sem_max y z) where
  holder_steps :
      (weight : Thread → ℕ)
      → ((t : Thread) → weight t ≤ holds_in t + holds_out t)
      → 0 < total weight z.threads
      → CanStep sem_max z
  holder_steps weight holds some_holder =
      let one = find-Heavy weight z.threads some_holder in
      record {
        before = one.before;
        thread = one.thread;
        behind = one.behind;
        parts = one.parts;
        goes_on =
            holder_moves sem_max one.thread z.pool (omega (arith, one.heavy, holds one.thread))
              (Reach-ne-crash sem_max y z one.before one.thread one.behind sound reached one.parts);
      }

  -- In every state that is reached from a sound one: if a thread has more to do than to wait for a
  -- task, some thread can make a step.
  pub Reach-CanStep :
      (before : List Thread) (t : Thread) (behind : List Thread)
      → z.threads ≡ before ++ t ∷ behind
      → rests t ≡ false
      → CanStep sem_max z
  Reach-CanStep before t behind here_is busy =
      let v = Reach-IsSound sound reached in
      elim (free_moves sem_max t z.pool busy
        (Reach-ne-crash sem_max y z before t behind sound reached here_is)) [
          | inl go ↦ record {
            before = before;
            thread = t;
            behind = behind;
            parts = here_is;
            goes_on = go;
          }
          | inr locked ↦ elim (Bool-cases (ltb 0 (locks z.pool.mutex_queue_in))) [
            | inl first ↦ holder_steps holds_in (λ t. omega arith) (ground (arith, v.one_in))
            | inr second ↦ holder_steps holds_out (λ t. omega arith) (ground (arith, v.one_out))
          ]
        ]
