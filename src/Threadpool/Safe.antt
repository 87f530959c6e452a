-- ===== src/Threadpool/Safe.antt =====
-- src/lib/concurrent/threadpool.c: a thread that has waited finds a task, and no task is lost.
use libvci.Base.{ℕ, ◌≤◌, ◌<◌, ◌≡◌, ◌≢◌, ◌∙◌, refl, subst, List, ◌∷◌, ◌++◌, length, arith}
use libvci.Threadpool.{
  Pool, Thread, wait_in, take_in, done_take, post_out, crash, take_from, wait, lock, advance,
  System, Step, step, Reach, here, next,
}
use libvci.Threadpool.Weight.{holds_in, holds_out, owed_in, owed_out, posted_in, posted_out}
use libvci.Threadpool.Tasks.{held, count, posted_out-le, CanPost, count-advance, length-advance}
use libvci.Threadpool.Sound.{IsSound, Reach-IsSound, tasks, copies, around_one, total-le, locks-le}

posted_in-le : (t : Thread) → posted_in t ≤ holds_in t
posted_in-le wait_in = omega arith
posted_in-le _ = omega arith

posted_out-le_holds : (t : Thread) → posted_out t ≤ holds_out t
posted_out-le_holds wait_in = omega arith
posted_out-le_holds _ = omega arith

-- What a thread takes is there.
abbrev CanTake : Thread → Pool → Type 0
CanTake take_in s = 0 < length s.task_queue_in
CanTake done_take s = 0 < length s.task_queue_out
CanTake _ s = Unit

advance-ne-crash : (sem_max : ℕ) (t : Thread) (s : Pool) → CanTake t s → advance sem_max t s ≢ crash
unfolding advance take_from wait lock
advance-ne-crash sem_max wait_in s can e = ground arith
advance-ne-crash sem_max _ s can e = ground arith

module _ (before behind : List Thread) (s : Pool) where
  can_take_in :
      IsSound (record { threads = before ++ take_in ∷ behind; pool = s })
      → 0 < length s.task_queue_in
  can_take_in v = omega (
    arith,
    v.one_in,
    v.counted_in,
    locks-le s.mutex_queue_in,
    around_one before take_in behind holds_in,
    around_one before take_in behind owed_in,
    around_one before take_in behind posted_in,
    total-le posted_in holds_in posted_in-le before,
    total-le posted_in holds_in posted_in-le behind,
  )

  can_take_out :
      IsSound (record { threads = before ++ done_take ∷ behind; pool = s })
      → 0 < length s.task_queue_out
  can_take_out v = omega (
    arith,
    v.one_out,
    v.counted_out,
    locks-le s.mutex_queue_out,
    around_one before done_take behind holds_out,
    around_one before done_take behind owed_out,
    around_one before done_take behind posted_out,
    total-le posted_out holds_out posted_out-le_holds before,
    total-le posted_out holds_out posted_out-le_holds behind,
  )

  can_take :
      (t : Thread) → IsSound (record { threads = before ++ t ∷ behind; pool = s }) → CanTake t s
  can_take take_in v = can_take_in v
  can_take done_take v = can_take_out v
  can_take wait_in v = tt
  can_take _ v = tt

  can_post :
      (sem_max : ℕ) (t : Thread)
      → IsSound (record { threads = before ++ t ∷ behind; pool = s })
      → tasks (record { threads = before ++ t ∷ behind; pool = s }) ≤ sem_max
      → CanPost sem_max t s
  can_post sem_max (post_out task) v few = omega (
    arith,
    v.counted_out,
    few,
    around_one before (post_out task) behind posted_out,
    around_one before (post_out task) behind (λ t. length (held t)),
    total-le posted_out (λ t. length (held t)) posted_out-le before,
    total-le posted_out (λ t. length (held t)) posted_out-le behind,
  )
  can_post sem_max wait_in v few = tt
  can_post sem_max _ v few = tt

-- In every order of the steps of workers and callers, from a sound state in which no thread calls
-- threadpool_tasks_queued, no thread that takes from one of the queues finds it empty.
pub Reach-ne-crash :
    (sem_max : ℕ) (y z : System) (before : List Thread) (t : Thread) (behind : List Thread)
    → IsSound y
    → Reach sem_max y z
    → z.threads ≡ before ++ t ∷ behind
    → advance sem_max t z.pool ≢ crash
Reach-ne-crash sem_max y z before t behind v r here_is =
    let w = Reach-IsSound v r in
    let u : IsSound (record { threads = before ++ t ∷ behind; pool = z.pool }) =
      subst (λ (ts : List Thread). IsSound (record { threads = ts; pool = z.pool })) here_is w in
    advance-ne-crash sem_max t z.pool (can_take before behind z.pool t u)

Step-copies :
    (sem_max x : ℕ) {y z : System}
    → Step sem_max y z
    → IsSound y
    → tasks y ≤ sem_max
    → (copies x z ≡ copies x y) × (tasks z ≡ tasks y)
Step-copies sem_max x (step before t behind s u r e) v few =
    let can = can_post before behind s sem_max t v few in
    (
      omega (
        arith,
        around_one before t behind (λ t. count x (held t)),
        around_one before u behind (λ t. count x (held t)),
        count-advance sem_max x t s u r can e,
      ),
      omega (
        arith,
        around_one before t behind (λ t. length (held t)),
        around_one before u behind (λ t. length (held t)),
        length-advance sem_max t s u r can e,
      ),
    )

Reach-both :
    (sem_max x : ℕ) {y z : System}
    → IsSound y
    → tasks y ≤ sem_max
    → Reach sem_max y z
    → (copies x z ≡ copies x y) × (tasks z ≡ tasks y)
Reach-both sem_max x v few here = (refl, refl)
Reach-both sem_max x v few (next r st) =
    let before = Reach-both sem_max x v few r in
    let now = Step-copies sem_max x st (Reach-IsSound v r) (omega (arith, before.1)) in
    (now.0 ∙ before.0, now.1 ∙ before.1)

-- From a sound state with at most SEM_VALUE_MAX tasks, every order of steps keeps how often each
-- task is in the queues and in the hands of threads: none is lost, and none is handed out twice.
pub Reach-copies :
    (sem_max x : ℕ) (y z : System)
    → IsSound y
    → tasks y ≤ sem_max
    → Reach sem_max y z
    → copies x z ≡ copies x y
Reach-copies sem_max x y z v few r = (Reach-both sem_max x v few r).0
