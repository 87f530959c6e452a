-- ===== src/Threadpool/Tasks.antt =====
-- src/lib/concurrent/threadpool.c: no step makes a task, or drops one while the semaphore can be posted.
use libvci.Base.{
  ℕ, ◌+◌, ◌≤◌, ◌<◌, ◌≡◌, ◌==◌, if◌then◌else◌, List, [], ◌∷◌, ◌++◌, length, length-append, arith,
}
use libvci.Threadpool.{
  Pool, Thread, wait_in, unlock_in, run, lock_out, post_out, insert_out, add_lock, add_post,
  add_insert, add_undo, refused, done_unlock, completed, goes, take_from, wait, lock, advance,
}
use libvci.Threadpool.Weight.{posted_out}

-- The task that a thread has in its hands: one to add, to run, to hand on or to return.
abbrev pub held : Thread → List ℕ
held (unlock_in task) = task ∷ []
held (run task) = task ∷ []
held (lock_out task) = task ∷ []
held (post_out task) = task ∷ []
held (insert_out task) = task ∷ []
held (add_lock task) = task ∷ []
held (add_post task) = task ∷ []
held (add_insert task) = task ∷ []
held (add_undo task) = task ∷ []
held (refused task) = task ∷ []
held (done_unlock task) = task ∷ []
held (completed task) = task ∷ []
held _ = []

abbrev pub count : ℕ → List ℕ → ℕ
count x [] = 0
count x (y ∷ ys) = (if x == y then 1 else 0) + count x ys

pub count-append : (x : ℕ) (xs ys : List ℕ) → count x (xs ++ ys) ≡ count x xs + count x ys
count-append x [] ys = omega arith
count-append x (y ∷ xs) ys = omega (arith, count-append x xs ys)

pub posted_out-le : (t : Thread) → posted_out t ≤ length (held t)
posted_out-le wait_in = omega arith
posted_out-le _ = omega arith

-- The thread can post the semaphore of the completed tasks, if that is what it is about to do.
abbrev pub CanPost : ℕ → Thread → Pool → Type 0
CanPost sem_max (post_out task) s = s.sem_queue_out < sem_max
CanPost sem_max _ s = Unit

module _ (sem_max : ℕ) where
  pub count-advance :
      (x : ℕ) (t : Thread) (s : Pool) (u : Thread) (r : Pool)
      → CanPost sem_max t s
      → advance sem_max t s ≡ goes u r
      → count x (held u) + (count x r.task_queue_in + count x r.task_queue_out)
        ≡ count x (held t) + (count x s.task_queue_in + count x s.task_queue_out)
  unfolding advance take_from wait lock
  count-advance x wait_in s u r p e = ground arith
  count-advance x (add_insert task) s u r p e =
      ground (arith, count-append x s.task_queue_in (task ∷ []))
  count-advance x (insert_out task) s u r p e =
      ground (arith, count-append x s.task_queue_out (task ∷ []))
  count-advance x _ s u r p e = ground arith

  pub length-advance :
      (t : Thread) (s : Pool) (u : Thread) (r : Pool)
      → CanPost sem_max t s
      → advance sem_max t s ≡ goes u r
      → length (held u) + (length r.task_queue_in + length r.task_queue_out)
        ≡ length (held t) + (length s.task_queue_in + length s.task_queue_out)
  unfolding advance take_from wait lock
  length-advance wait_in s u r p e = ground arith
  length-advance (add_insert task) s u r p e =
      ground (arith, length-append {0} s.task_queue_in (task ∷ []))
  length-advance (insert_out task) s u r p e =
      ground (arith, length-append {0} s.task_queue_out (task ∷ []))
  length-advance _ s u r p e = ground arith
