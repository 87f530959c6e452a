-- ===== src/Threadpool.antt =====
-- src/lib/concurrent/threadpool.c: workers and callers that share two queues, as one step of one thread at a time.
use libvci.Base.{
  ℕ, zero, suc, ◌+◌, ◌≡◌, Bool, true, false, ltb, if◌then◌else◌, List, [], ◌∷◌, ◌++◌, length,
}
mod Weight
mod Tasks
mod Sound
mod Safe
mod Live
mod Stuck
mod Tests

-- What the threads share: the queues of tasks, the value of each semaphore, whether each mutex
-- is locked, and the counter of the event descriptor. A task is a number in the list of its queue; in
-- the code its link is part of it, so that a task that is added again while it is queued would break
-- the queue. The callers are taken to add a task once.
pub record Pool : Type 0 where
  pub task_queue_in : List ℕ
  pub task_queue_out : List ℕ
  pub sem_queue_in : ℕ
  pub sem_queue_out : ℕ
  pub mutex_queue_in : Bool
  pub mutex_queue_out : Bool
  pub event_fd : ℕ

-- Where a thread stands: before the statement that the name tells.
pub data Thread : Type 0 where
  -- _thread_handle_tasks
  wait_in lock_in take_in : Thread
  unlock_in : ℕ → Thread
  run : ℕ → Thread
  lock_out : ℕ → Thread
  post_out : ℕ → Thread
  insert_out : ℕ → Thread
  unlock_out signal : Thread
  -- threadpool_add_task
  add_lock : ℕ → Thread
  add_post : ℕ → Thread
  add_insert : ℕ → Thread
  add_unlock : Thread
  add_undo : ℕ → Thread
  added : Thread
  refused : ℕ → Thread
  -- threadpool_take_completed_task
  done_wait done_lock done_take : Thread
  done_unlock : ℕ → Thread
  completed : ℕ → Thread
  -- threadpool_tasks_queued
  size_lock size_read : Thread
  size_unlock : ℕ → Thread
  sized : ℕ → Thread

-- A thread waits, or takes a task from an empty queue, or goes on.
pub data Move : Type 0 where
  blocked : Move
  crash : Move
  goes : Thread → Pool → Move

-- queue_take of an empty queue gives the sentinel, whose `container_of` is no task: a crash.
pub take_from : List ℕ → (ℕ → List ℕ → Move) → Move
take_from [] go_on = crash
take_from (task ∷ tasks) go_on = go_on task tasks

-- sem_wait on a semaphore of that value; an interrupted wait is made again.
pub wait : ℕ → (ℕ → Move) → Move
wait zero go_on = blocked
wait (suc n) go_on = go_on n

-- pthread_mutex_lock
pub lock : Bool → Move → Move
lock true go_on = blocked
lock false go_on = go_on

-- One statement of a worker. `sem_max` is SEM_VALUE_MAX, at which sem_post fails; then the task
-- stays out of the queue of completed tasks. The function of the task is run by the thread alone.
-- eventfd_write adds to a counter without a bound: that it blocks or fails at its limit is left out, as
-- are the failing sem_wait and the cancellation at pthread_testcancel.
pub thread_handle_tasks : ℕ → Thread → Pool → Move
unfolding take_from wait lock
thread_handle_tasks sem_max wait_in s =
    wait s.sem_queue_in (λ n. goes lock_in (record s { sem_queue_in = n }))
thread_handle_tasks sem_max lock_in s =
    lock s.mutex_queue_in (goes take_in (record s { mutex_queue_in = true }))
thread_handle_tasks sem_max take_in s =
    take_from s.task_queue_in
      (λ task tasks. goes (unlock_in task) (record s { task_queue_in = tasks }))
thread_handle_tasks sem_max (unlock_in task) s =
    goes (run task) (record s { mutex_queue_in = false })
thread_handle_tasks sem_max (run task) s = goes (lock_out task) s
thread_handle_tasks sem_max (lock_out task) s =
    lock s.mutex_queue_out (goes (post_out task) (record s { mutex_queue_out = true }))
thread_handle_tasks sem_max (post_out task) s =
    if ltb s.sem_queue_out sem_max
    then goes (insert_out task) (record s { sem_queue_out = s.sem_queue_out + 1 })
    else goes unlock_out s
thread_handle_tasks sem_max (insert_out task) s =
    goes unlock_out (record s { task_queue_out = s.task_queue_out ++ task ∷ [] })
thread_handle_tasks sem_max unlock_out s = goes signal (record s { mutex_queue_out = false })
thread_handle_tasks sem_max signal s = goes wait_in (record s { event_fd = s.event_fd + 1 })
thread_handle_tasks sem_max _ s = blocked

-- One statement of a caller.
pub threadpool_add_task : ℕ → Thread → Pool → Move
unfolding lock
threadpool_add_task sem_max (add_lock task) s =
    lock s.mutex_queue_in (goes (add_post task) (record s { mutex_queue_in = true }))
threadpool_add_task sem_max (add_post task) s =
    if ltb s.sem_queue_in sem_max
    then goes (add_insert task) (record s { sem_queue_in = s.sem_queue_in + 1 })
    else goes (add_undo task) s
threadpool_add_task sem_max (add_insert task) s =
    goes add_unlock (record s { task_queue_in = s.task_queue_in ++ task ∷ [] })
threadpool_add_task sem_max add_unlock s = goes added (record s { mutex_queue_in = false })
threadpool_add_task sem_max (add_undo task) s =
    goes (refused task) (record s { mutex_queue_in = false })
threadpool_add_task sem_max _ s = blocked

pub threadpool_take_completed_task : ℕ → Thread → Pool → Move
unfolding take_from wait lock
threadpool_take_completed_task sem_max done_wait s =
    wait s.sem_queue_out (λ n. goes done_lock (record s { sem_queue_out = n }))
threadpool_take_completed_task sem_max done_lock s =
    lock s.mutex_queue_out (goes done_take (record s { mutex_queue_out = true }))
threadpool_take_completed_task sem_max done_take s =
    take_from s.task_queue_out
      (λ task tasks. goes (done_unlock task) (record s { task_queue_out = tasks }))
threadpool_take_completed_task sem_max (done_unlock task) s =
    goes (completed task) (record s { mutex_queue_out = false })
threadpool_take_completed_task sem_max _ s = blocked

-- The last statement unlocks the other mutex.
pub threadpool_tasks_queued : ℕ → Thread → Pool → Move
unfolding lock
threadpool_tasks_queued sem_max size_lock s =
    lock s.mutex_queue_in (goes size_read (record s { mutex_queue_in = true }))
threadpool_tasks_queued sem_max size_read s = goes (size_unlock (length s.task_queue_in)) s
threadpool_tasks_queued sem_max (size_unlock n) s =
    goes (sized n) (record s { mutex_queue_out = false })
threadpool_tasks_queued sem_max _ s = blocked

-- One statement of one thread.
pub advance : ℕ → Thread → Pool → Move
unfolding thread_handle_tasks threadpool_add_task threadpool_take_completed_task
    threadpool_tasks_queued
advance sem_max wait_in s = thread_handle_tasks sem_max wait_in s
advance sem_max lock_in s = thread_handle_tasks sem_max lock_in s
advance sem_max take_in s = thread_handle_tasks sem_max take_in s
advance sem_max (unlock_in task) s = thread_handle_tasks sem_max (unlock_in task) s
advance sem_max (run task) s = thread_handle_tasks sem_max (run task) s
advance sem_max (lock_out task) s = thread_handle_tasks sem_max (lock_out task) s
advance sem_max (post_out task) s = thread_handle_tasks sem_max (post_out task) s
advance sem_max (insert_out task) s = thread_handle_tasks sem_max (insert_out task) s
advance sem_max unlock_out s = thread_handle_tasks sem_max unlock_out s
advance sem_max signal s = thread_handle_tasks sem_max signal s
advance sem_max (add_lock task) s = threadpool_add_task sem_max (add_lock task) s
advance sem_max (add_post task) s = threadpool_add_task sem_max (add_post task) s
advance sem_max (add_insert task) s = threadpool_add_task sem_max (add_insert task) s
advance sem_max add_unlock s = threadpool_add_task sem_max add_unlock s
advance sem_max (add_undo task) s = threadpool_add_task sem_max (add_undo task) s
advance sem_max done_wait s = threadpool_take_completed_task sem_max done_wait s
advance sem_max done_lock s = threadpool_take_completed_task sem_max done_lock s
advance sem_max done_take s = threadpool_take_completed_task sem_max done_take s
advance sem_max (done_unlock task) s = threadpool_take_completed_task sem_max (done_unlock task) s
advance sem_max size_lock s = threadpool_tasks_queued sem_max size_lock s
advance sem_max size_read s = threadpool_tasks_queued sem_max size_read s
advance sem_max (size_unlock n) s = threadpool_tasks_queued sem_max (size_unlock n) s
advance sem_max added s = blocked
advance sem_max (refused task) s = blocked
advance sem_max (completed task) s = blocked
advance sem_max (sized n) s = blocked

-- All threads with what they share.
pub record System : Type 0 where
  pub threads : List Thread
  pub pool : Pool

-- One thread makes one step.
pub data Step (sem_max : ℕ) : System → System → Type 0 where
  step :
      (before : List Thread) (t : Thread) (behind : List Thread) (s : Pool) (u : Thread) (r : Pool)
      → advance sem_max t s ≡ goes u r
      → Step sem_max
          (record { threads = before ++ t ∷ behind; pool = s })
          (record { threads = before ++ u ∷ behind; pool = r })

pub data Reach (sem_max : ℕ) (s : System) : System → Type 0 where
  here : Reach sem_max s s
  next : {t u : System} → Reach sem_max s t → Step sem_max t u → Reach sem_max s u
