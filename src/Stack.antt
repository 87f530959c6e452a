-- ===== src/Stack.antt =====
-- src/lib/container/stack.c, include/stack.h: a last-in first-out stack on a linked list.
pub mod Order
mod Tests
use libvci.Base.{ℕ, ◌+◌, ◌-◌, ◌%◌, Bool, Option, none, some, List, ◌==◌, u32, Run, ok, ◌>>=◌}
use libvci.Links.{
  Links, list_init, list_insert_front, list_take_front, list_front, list_clear, list_destroy,
}

-- `list` is the address of the sentinel inside the struct.
pub record Stack : Type 0 where
  pub list : ℕ
  pub size : ℕ

unfoldable pub stack_init : Links → Stack → Links × Stack
stack_init s st = (list_init s st.list, record st { size = 0 })

unfoldable pub stack_destroy : ℕ → Links → Stack → Option ℕ → Run (List ℕ × Links)
stack_destroy fuel s st data_delete = list_destroy fuel s st.list data_delete

unfoldable pub stack_clear : ℕ → Links → Stack → Option ℕ → Run (List ℕ × Links × Stack)
stack_clear fuel s st data_delete = do
  let st = record st { size = 0 }
  (deleted, s') ← list_clear fuel s st.list data_delete
  ok (deleted, s', st)

unfoldable pub stack_insert : Links → Stack → ℕ → Links × Stack
stack_insert s st link =
    (list_insert_front s st.list link, record st { size = (st.size + 1) % u32 })

unfoldable pub stack_take : Links → Stack → ℕ × Links × Stack
stack_take s st =
    let st = record st { size = (st.size + u32 - 1) % u32 } in
    let (link, s') = list_take_front s st.list in (link, s', st)

unfoldable pub stack_top : Links → Stack → ℕ
stack_top s st = list_front s st.list

unfoldable pub stack_size : Stack → ℕ
stack_size st = st.size

unfoldable pub stack_empty : Stack → Bool
stack_empty st = st.size == 0

-- stack_new, at the address that malloc gives; `none` is NULL.
unfoldable pub stack_new : Option ℕ → Links → Option (Links × Stack)
unfolding stack_init
stack_new none s = none
stack_new (some p) s = some (stack_init s (record { list = p; size = 0 }))

-- stack_delete
unfoldable pub stack_delete : ℕ → Links → Stack → Option ℕ → Run (List ℕ × Links)
unfolding stack_destroy
stack_delete fuel s q data_delete = stack_destroy fuel s q data_delete
