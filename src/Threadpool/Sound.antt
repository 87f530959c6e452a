-- ===== src/Threadpool/Sound.antt =====
-- src/lib/concurrent/threadpool.c: the invariant of the two queues with their semaphores and mutexes.
use libvci.Base.{ℕ, ◌+◌, ◌≤◌, ◌≡◌, Bool, true, false, List, [], ◌∷◌, ◌++◌, length, arith}
use libvci.Threadpool.{Thread, System, Step, step, Reach, here, next}
use libvci.Threadpool.Weight.{
  total, total-append, locks, holds_in, holds_out, owed_in, owed_out, posted_in, posted_out, asks,
  asks-advance, mutex_in-advance, mutex_out-advance, queue_in-advance, queue_out-advance,
}
use libvci.Threadpool.Tasks.{held, count}

-- How many tasks there are, in the queues and in the hands of threads, and how often one of them.
abbrev pub tasks : System → ℕ
tasks y =
    total (λ t. length (held t)) y.threads
    + (length y.pool.task_queue_in + length y.pool.task_queue_out)

abbrev pub copies : ℕ → System → ℕ
copies x y =
    total (λ t. count x (held t)) y.threads
    + (count x y.pool.task_queue_in + count x y.pool.task_queue_out)

-- Each mutex is locked if one thread has it, and by one at most; each semaphore counts the tasks
-- of its queue, those that a thread is about to take less those that it is about to insert; and
-- no thread calls threadpool_tasks_queued.
pub record IsSound (y : System) : Type 0 where
  pub one_in : total holds_in y.threads ≡ locks y.pool.mutex_queue_in
  pub one_out : total holds_out y.threads ≡ locks y.pool.mutex_queue_out
  pub counted_in :
      y.pool.sem_queue_in + total owed_in y.threads
      ≡ length y.pool.task_queue_in + total posted_in y.threads
  pub counted_out :
      y.pool.sem_queue_out + total owed_out y.threads
      ≡ length y.pool.task_queue_out + total posted_out y.threads
  pub no_asking : total asks y.threads ≡ 0

pub locks-le : (b : Bool) → locks b ≤ 1
locks-le true = omega arith
locks-le false = omega arith

pub total-le :
    (v w : Thread → ℕ) → ((t : Thread) → v t ≤ w t) → (ts : List Thread) → total v ts ≤ total w ts
total-le v w below [] = omega arith
total-le v w below (t ∷ ts) = omega (arith, below t, total-le v w below ts)

module _ (before : List Thread) (t : Thread) (behind : List Thread) where
  pub around_one :
      (weight : Thread → ℕ)
      → total weight (before ++ t ∷ behind) ≡ total weight before + (weight t + total weight behind)
  around_one weight = total-append weight before (t ∷ behind)

pub Step-IsSound : (sem_max : ℕ) {y z : System} → Step sem_max y z → IsSound y → IsSound z
Step-IsSound sem_max (step before t behind s u r e) v =
    let old : (weight : Thread → ℕ)
        → total weight (before ++ t ∷ behind)
          ≡ total weight before + (weight t + total weight behind) =
      around_one before t behind in
    let new : (weight : Thread → ℕ)
        → total weight (before ++ u ∷ behind)
          ≡ total weight before + (weight u + total weight behind) =
      around_one before u behind in
    let quiet : asks t ≡ 0 = omega (arith, v.no_asking, old asks) in
    let in_locked : holds_in t ≤ locks s.mutex_queue_in = omega (arith, v.one_in, old holds_in) in
    let out_locked : holds_out t ≤ locks s.mutex_queue_out =
      omega (arith, v.one_out, old holds_out) in
    record {
      one_in = omega (
        arith,
        v.one_in,
        old holds_in,
        new holds_in,
        mutex_in-advance sem_max t s u r quiet in_locked e,
      );
      one_out = omega (
        arith,
        v.one_out,
        old holds_out,
        new holds_out,
        mutex_out-advance sem_max t s u r quiet out_locked e,
      );
      counted_in = omega (
        arith,
        v.counted_in,
        old owed_in,
        new owed_in,
        old posted_in,
        new posted_in,
        queue_in-advance sem_max t s u r e,
      );
      counted_out = omega (
        arith,
        v.counted_out,
        old owed_out,
        new owed_out,
        old posted_out,
        new posted_out,
        queue_out-advance sem_max t s u r e,
      );
      no_asking = omega (arith, v.no_asking, old asks, new asks, asks-advance sem_max t s u r e);
    }

pub Reach-IsSound : {sem_max : ℕ} {y z : System} → IsSound y → Reach sem_max y z → IsSound z
Reach-IsSound v here = v
Reach-IsSound {sem_max} v (next r st) = Step-IsSound sem_max st (Reach-IsSound v r)
