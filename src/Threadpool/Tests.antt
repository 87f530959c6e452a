-- ===== src/Threadpool/Tests.antt =====
-- src/lib/concurrent/threadpool.c: one task from threadpool_add_task to its completion, and the theorems there.
use libvci.Base.{◌≡◌, ◌≢◌, refl, true, false, List, [], ◌∷◌, arith}
use libvci.Threadpool.{
  Pool, Thread, wait_in, lock_in, take_in, add_lock, add_post, add_insert, add_unlock, added,
  done_wait, size_lock, size_unlock, sized, blocked, crash, goes, wait, lock, advance, System, step,
  Reach, here, next,
}
use libvci.Threadpool.Sound.{IsSound, copies}
use libvci.Threadpool.Safe.{Reach-ne-crash, Reach-copies}
use libvci.Threadpool.Live.{CanStep, Reach-CanStep}
use libvci.Threadpool.Stuck.{tasks_queued_blocks}

abbrev idle_pool : Pool
idle_pool = record {
  task_queue_in = [];
  task_queue_out = [];
  sem_queue_in = 0;
  sem_queue_out = 0;
  mutex_queue_in = false;
  mutex_queue_out = false;
  event_fd = 0;
}

-- A worker, a caller that adds task 7, and one that takes a completed task.
abbrev start : System
start = record { threads = wait_in ∷ add_lock 7 ∷ done_wait ∷ []; pool = idle_pool }

abbrev start-IsSound : IsSound start
start-IsSound = record {
  one_in = refl;
  one_out = refl;
  counted_in = refl;
  counted_out = refl;
  no_asking = refl;
}

-- The caller has posted and inserted its task, and the worker has waited and locked the mutex.
abbrev taking : System
taking = record {
  threads = take_in ∷ added ∷ done_wait ∷ [];
  pool = record idle_pool { task_queue_in = 7 ∷ []; mutex_queue_in = true };
}

start-taking : Reach 100 start taking
unfolding advance wait lock
start-taking =
    let add : List Thread = wait_in ∷ [] in
    let rest : List Thread = done_wait ∷ [] in
    let locked : Pool = record idle_pool { mutex_queue_in = true } in
    let posted : Pool = record locked { sem_queue_in = 1 } in
    let queued : Pool = record posted { task_queue_in = 7 ∷ [] } in
    let free : Pool = record queued { mutex_queue_in = false } in
    let waited : Pool = record free { sem_queue_in = 0 } in
    next
      (next
        (next
          (next
            (next (next here (step add (add_lock 7) rest idle_pool (add_post 7) locked refl))
              (step add (add_post 7) rest locked (add_insert 7) posted refl))
            (step add (add_insert 7) rest posted add_unlock queued refl))
          (step add add_unlock rest queued added free refl))
        (step [] wait_in (added ∷ rest) free lock_in waited refl))
      (step [] lock_in (added ∷ rest) waited take_in (record waited { mutex_queue_in = true }) refl)

Reach-ne-crash_example : advance 100 take_in taking.pool ≢ crash
Reach-ne-crash_example =
    Reach-ne-crash 100 start taking [] take_in (added ∷ done_wait ∷ []) start-IsSound start-taking
      refl

Reach-copies_example : copies 7 taking ≡ copies 7 start
Reach-copies_example = Reach-copies 100 7 start taking start-IsSound (omega arith) start-taking

Reach-CanStep_example : CanStep 100 taking
Reach-CanStep_example =
    Reach-CanStep 100 start taking start-IsSound start-taking [] take_in (added ∷ done_wait ∷ [])
      refl refl

abbrev sized_pool : Pool
sized_pool = record idle_pool { mutex_queue_in = true }

abbrev after_sized : System
after_sized = record { threads = wait_in ∷ sized 0 ∷ []; pool = sized_pool }

size_step : advance 100 (size_unlock 0) sized_pool ≡ goes (sized 0) sized_pool
unfolding advance
size_step = refl

tasks_queued_blocks_example :
    (advance 100 (add_lock 7) sized_pool ≡ blocked)
    × (advance 100 lock_in sized_pool ≡ blocked)
    × (advance 100 size_lock sized_pool ≡ blocked)
tasks_queued_blocks_example =
    tasks_queued_blocks 100 0 (wait_in ∷ []) [] sized_pool (sized 0) sized_pool after_sized 7 refl
      size_step here
