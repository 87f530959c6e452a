-- ===== src/Threadpool/Stuck.antt =====
-- src/lib/concurrent/threadpool.c: threadpool_tasks_queued unlocks another mutex than it has locked.
use libvci.Base.{ℕ, ◌≡◌, refl, true, List, ◌∷◌, ◌++◌, arith}
use libvci.Threadpool.{
  Pool, Thread, wait_in, lock_in, add_lock, size_lock, size_unlock, blocked, goes, take_from, wait,
  lock, advance, System, Step, step, Reach, here, next,
}
use libvci.Threadpool.Weight.{total, locks, holds_in}
use libvci.Threadpool.Sound.{around_one, locks-le}

-- mutex_queue_in is locked, and no thread is to unlock it.
record IsStuck (y : System) : Type 0 where
  locked : y.pool.mutex_queue_in ≡ true
  nobody : total holds_in y.threads ≡ 0

stuck_step :
    (sem_max : ℕ) (t : Thread) (s : Pool) (u : Thread) (r : Pool)
    → s.mutex_queue_in ≡ true
    → holds_in t ≡ 0
    → advance sem_max t s ≡ goes u r
    → (r.mutex_queue_in ≡ true) × (holds_in u ≡ 0)
unfolding advance take_from wait lock
stuck_step sem_max wait_in s u r l h e = ground arith
stuck_step sem_max _ s u r l h e = ground arith

Step-IsStuck : {sem_max : ℕ} {y z : System} → Step sem_max y z → IsStuck y → IsStuck z
Step-IsStuck {sem_max} (step before t behind s u r e) v =
    let old = around_one before t behind holds_in in
    let next_one = stuck_step sem_max t s u r v.locked (omega (arith, v.nobody, old)) e in
    record {
      locked = next_one.0;
      nobody = omega (arith, v.nobody, old, around_one before u behind holds_in, next_one.1);
    }

Reach-IsStuck : {sem_max : ℕ} {y z : System} → IsStuck y → Reach sem_max y z → IsStuck z
Reach-IsStuck v here = v
Reach-IsStuck v (next r st) = Step-IsStuck st (Reach-IsStuck v r)

after_size :
    (sem_max n : ℕ) (before behind : List Thread) (s : Pool) (u : Thread) (r : Pool)
    → total holds_in (before ++ size_unlock n ∷ behind) ≡ locks s.mutex_queue_in
    → advance sem_max (size_unlock n) s ≡ goes u r
    → IsStuck (record { threads = before ++ u ∷ behind; pool = r })
unfolding advance
after_size sem_max n before behind s u r one e =
    let old = around_one before (size_unlock n) behind holds_in in
    let new = around_one before u behind holds_in in
    let held_before : locks s.mutex_queue_in ≡ 1 =
      omega (arith, one, old, locks-le s.mutex_queue_in) in
    let none : holds_in u ≡ 0 = ground arith in
    record { locked = ground arith; nobody = omega (arith, one, old, new, held_before, none) }

-- Where a thread that is about to return from threadpool_tasks_queued is the one that has
-- mutex_queue_in locked: after its last statement no thread gets that mutex, so that no task is
-- added or taken.
pub tasks_queued_blocks :
    (sem_max n : ℕ) (before behind : List Thread) (s : Pool) (u : Thread) (r : Pool) (z : System)
    (task : ℕ)
    → total holds_in (before ++ size_unlock n ∷ behind) ≡ locks s.mutex_queue_in
    → advance sem_max (size_unlock n) s ≡ goes u r
    → Reach sem_max (record { threads = before ++ u ∷ behind; pool = r }) z
    → (advance sem_max (add_lock task) z.pool ≡ blocked)
      × (advance sem_max lock_in z.pool ≡ blocked)
      × (advance sem_max size_lock z.pool ≡ blocked)
unfolding advance lock
tasks_queued_blocks sem_max n before behind s u r z task one e reached =
    let v = Reach-IsStuck (after_size sem_max n before behind s u r one e) reached in
    rw v.locked (refl, refl, refl)
