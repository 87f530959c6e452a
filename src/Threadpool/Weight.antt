-- ===== src/Threadpool/Weight.antt =====
-- src/lib/concurrent/threadpool.c: what each step adds to and takes from the counts over all threads.
use libvci.Base.{
  ℕ, ◌+◌, ◌≤◌, ◌≡◌, Bool, true, false, List, [], ◌∷◌, ◌++◌, length, length-append, arith,
}
use libvci.Threadpool.{
  Pool, Thread, wait_in, lock_in, take_in, unlock_in, post_out, insert_out, unlock_out, add_post,
  add_insert, add_unlock, add_undo, done_lock, done_take, done_unlock, size_lock, size_read,
  size_unlock, goes, take_from, wait, lock, advance,
}

abbrev pub total : (Thread → ℕ) → List Thread → ℕ
total weight [] = 0
total weight (t ∷ ts) = weight t + total weight ts

pub total-append :
    (weight : Thread → ℕ) (xs ys : List Thread)
    → total weight (xs ++ ys) ≡ total weight xs + total weight ys
total-append weight [] ys = omega arith
total-append weight (x ∷ xs) ys = omega (arith, total-append weight xs ys)

abbrev pub locks : Bool → ℕ
locks true = 1
locks false = 0

-- Whether the thread has mutex_queue_in locked, or mutex_queue_out.
abbrev pub holds_in : Thread → ℕ
holds_in take_in = 1
holds_in (unlock_in task) = 1
holds_in (add_post task) = 1
holds_in (add_insert task) = 1
holds_in add_unlock = 1
holds_in (add_undo task) = 1
holds_in size_read = 1
holds_in (size_unlock n) = 1
holds_in _ = 0

abbrev pub holds_out : Thread → ℕ
holds_out (post_out task) = 1
holds_out (insert_out task) = 1
holds_out unlock_out = 1
holds_out done_take = 1
holds_out (done_unlock task) = 1
holds_out _ = 0

-- Whether the thread has waited for a task and not taken it.
abbrev pub owed_in : Thread → ℕ
owed_in lock_in = 1
owed_in take_in = 1
owed_in _ = 0

abbrev pub owed_out : Thread → ℕ
owed_out done_lock = 1
owed_out done_take = 1
owed_out _ = 0

-- Whether the thread has posted a task and not inserted it.
abbrev pub posted_in : Thread → ℕ
posted_in (add_insert task) = 1
posted_in _ = 0

abbrev pub posted_out : Thread → ℕ
posted_out (insert_out task) = 1
posted_out _ = 0

-- Whether the thread calls threadpool_tasks_queued.
abbrev pub asks : Thread → ℕ
asks size_lock = 1
asks size_read = 1
asks (size_unlock n) = 1
asks _ = 0

module _ (sem_max : ℕ) where
  pub asks-advance :
      (t : Thread) (s : Pool) (u : Thread) (r : Pool)
      → advance sem_max t s ≡ goes u r
      → asks u ≤ asks t
  unfolding advance take_from wait lock
  asks-advance wait_in s u r e = ground arith
  asks-advance _ s u r e = ground arith

  pub mutex_in-advance :
      (t : Thread) (s : Pool) (u : Thread) (r : Pool)
      → asks t ≡ 0
      → holds_in t ≤ locks s.mutex_queue_in
      → advance sem_max t s ≡ goes u r
      → holds_in u + locks s.mutex_queue_in ≡ holds_in t + locks r.mutex_queue_in
  unfolding advance take_from wait lock
  mutex_in-advance wait_in s u r a h e = ground arith
  mutex_in-advance _ s u r a h e = ground arith

  pub mutex_out-advance :
      (t : Thread) (s : Pool) (u : Thread) (r : Pool)
      → asks t ≡ 0
      → holds_out t ≤ locks s.mutex_queue_out
      → advance sem_max t s ≡ goes u r
      → holds_out u + locks s.mutex_queue_out ≡ holds_out t + locks r.mutex_queue_out
  unfolding advance take_from wait lock
  mutex_out-advance wait_in s u r a h e = ground arith
  mutex_out-advance _ s u r a h e = ground arith

  pub queue_in-advance :
      (t : Thread) (s : Pool) (u : Thread) (r : Pool)
      → advance sem_max t s ≡ goes u r
      → (r.sem_queue_in + owed_in u) + (length s.task_queue_in + posted_in t)
        ≡ (s.sem_queue_in + owed_in t) + (length r.task_queue_in + posted_in u)
  unfolding advance take_from wait lock
  queue_in-advance wait_in s u r e = ground arith
  queue_in-advance (add_insert task) s u r e =
      ground (arith, length-append {0} s.task_queue_in (task ∷ []))
  queue_in-advance _ s u r e = ground arith

  pub queue_out-advance :
      (t : Thread) (s : Pool) (u : Thread) (r : Pool)
      → advance sem_max t s ≡ goes u r
      → (r.sem_queue_out + owed_out u) + (length s.task_queue_out + posted_out t)
        ≡ (s.sem_queue_out + owed_out t) + (length r.task_queue_out + posted_out u)
  unfolding advance take_from wait lock
  queue_out-advance wait_in s u r e = ground arith
  queue_out-advance (insert_out task) s u r e =
      ground (arith, length-append {0} s.task_queue_out (task ∷ []))
  queue_out-advance _ s u r e = ground arith
