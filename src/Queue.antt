-- ===== src/Queue.antt =====
-- src/lib/container/queue.c, include/queue.h: a first-in first-out queue on a linked list.
pub mod Order
mod Tests
use libvci.Base.{ℕ, ◌+◌, ◌-◌, ◌%◌, Bool, Option, none, some, List, ◌==◌, u32, Run, ok, ◌>>=◌}
use libvci.Links.{Links, list_init, list_insert_front, list_take_back, list_clear, list_destroy}

-- `list` is the address of the sentinel inside the struct.
pub record Queue : Type 0 where
  pub list : ℕ
  pub size : ℕ

unfoldable pub queue_init : Links → Queue → Links × Queue
queue_init s q = (list_init s q.list, record q { size = 0 })

unfoldable pub queue_destroy : ℕ → Links → Queue → Option ℕ → Run (List ℕ × Links)
queue_destroy fuel s q data_delete = list_destroy fuel s q.list data_delete

unfoldable pub queue_clear : ℕ → Links → Queue → Option ℕ → Run (List ℕ × Links × Queue)
queue_clear fuel s q data_delete = do
  let q = record q { size = 0 }
  (deleted, s') ← list_clear fuel s q.list data_delete
  ok (deleted, s', q)

unfoldable pub queue_insert : Links → Queue → ℕ → Links × Queue
queue_insert s q link = (list_insert_front s q.list link, record q { size = (q.size + 1) % u32 })

unfoldable pub queue_take : Links → Queue → ℕ × Links × Queue
queue_take s q =
    let q = record q { size = (q.size + u32 - 1) % u32 } in
    let (link, s') = list_take_back s q.list in (link, s', q)

unfoldable pub queue_size : Queue → ℕ
queue_size q = q.size

unfoldable pub queue_empty : Queue → Bool
queue_empty q = q.size == 0

-- queue_new, at the address that malloc gives; `none` is NULL.
unfoldable pub queue_new : Option ℕ → Links → Option (Links × Queue)
unfolding queue_init
queue_new none s = none
queue_new (some p) s = some (queue_init s (record { list = p; size = 0 }))

-- queue_delete
unfoldable pub queue_delete : ℕ → Links → Queue → Option ℕ → Run (List ℕ × Links)
unfolding queue_destroy
queue_delete fuel s q data_delete = queue_destroy fuel s q data_delete
