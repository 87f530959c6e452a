-- ===== src/Links.antt =====
-- src/lib/container/list.c, include/list.h, include/link.h: circular doubly linked lists of nodes
-- that the caller owns, with a sentinel node.
pub mod Chain
pub mod Insert
pub mod Take
pub mod Walk
pub mod Merge
mod Tests
use libvci.Base.{
  ℕ, zero, suc, Bool, true, false, Option, none, some, List, [], ◌∷◌, ◌==◌, if◌then◌else◌, Run, ok,
  out_of_fuel, ◌>>=◌,
}

-- The two pointers of every node.
pub record Links : Type 0 where
  pub prev : ℕ → ℕ
  pub next : ℕ → ℕ

abbrev pub update : (ℕ → ℕ) → ℕ → ℕ → ℕ → ℕ
update f p v q = if p == q then v else f q

-- `p->prev = v` and `p->next = v`
abbrev pub set_prev : Links → ℕ → ℕ → Links
set_prev s p v = record s { prev = update s.prev p v }

abbrev pub set_next : Links → ℕ → ℕ → Links
set_next s p v = record s { next = update s.next p v }

unfoldable pub list_init : Links → ℕ → Links
list_init s list = set_next (set_prev s list list) list list

unfoldable pub list_insert : Links → ℕ → ℕ → Links
list_insert s list link =
    let s = set_prev s link list in
    let s = set_next s link (s.next list) in
    let s = set_next s list link in set_prev s (s.next link) link

unfoldable pub list_take : Links → ℕ → Links
list_take s link =
    let s = set_next s (s.prev link) (s.next link) in set_prev s (s.next link) (s.prev link)

unfoldable pub list_insert_front : Links → ℕ → ℕ → Links
list_insert_front s list link = list_insert s list link

unfoldable pub list_insert_back : Links → ℕ → ℕ → Links
list_insert_back s list link = list_insert s (s.prev list) link

unfoldable pub list_front : Links → ℕ → ℕ
list_front s list = s.next list

unfoldable pub list_back : Links → ℕ → ℕ
list_back s list = s.prev list

unfoldable pub list_take_front : Links → ℕ → ℕ × Links
unfolding list_front
list_take_front s list = let link = list_front s list in (link, list_take s link)

unfoldable pub list_take_back : Links → ℕ → ℕ × Links
unfolding list_back
list_take_back s list = let link = list_back s list in (link, list_take s link)

-- `while(index--) link = link->next;`
pub steps : (ℕ → ℕ) → ℕ → ℕ → ℕ
steps f link zero = link
steps f link (suc index) = steps f (f link) index

unfoldable pub list_at : Links → ℕ → ℕ → ℕ
unfolding steps
list_at s list index =
    let link = steps s.next (s.next list) index in if link == list then s.prev list else link

unfoldable pub list_at_reverse : Links → ℕ → ℕ → ℕ
unfolding steps
list_at_reverse s list index =
    let link = steps s.prev (s.prev list) index in if link == list then s.next list else link

unfoldable pub list_empty : Links → ℕ → Bool
list_empty s list = s.next list == list

unfoldable pub list_merge : Links → ℕ → ℕ → Links
unfolding list_empty list_init
list_merge s list other =
    if list_empty s other
    then s
    else let s = set_next s (s.prev other) list in
      let s = set_prev s (s.next other) (s.next list) in
      let s = set_prev s (s.next list) (s.prev other) in
      let s = set_next s list (s.next other) in list_init s other

-- list_for_each_safe, with the links that are handed to `data_delete`. The successor is read before
-- the call, so what the call does to its own link has no effect on the loop.
pub for_each_safe : ℕ → Links → (list link safe : ℕ) → Run (List ℕ)
for_each_safe zero s list link safe = out_of_fuel
for_each_safe (suc fuel) s list link safe =
    let rest = for_each_safe fuel s list safe (s.next safe) >>= λ deleted. ok (link ∷ deleted) in
    if link == list then ok [] else rest

-- list_clear, on fuel; the function pointer is `none` for NULL.
pub list_clear : ℕ → Links → ℕ → Option ℕ → Run (List ℕ × Links)
list_clear fuel s list none = ok ([], list_init s list)
list_clear fuel s list (some _) = do
  deleted ← for_each_safe fuel s list (s.next list) (s.next (s.next list))
  ok (deleted, s)

-- list_destroy
pub list_destroy : ℕ → Links → ℕ → Option ℕ → Run (List ℕ × Links)
unfolding list_clear
list_destroy fuel s list data_delete = list_clear fuel s list data_delete

-- list_new, at the address that malloc gives; `none` is NULL.
unfoldable pub list_new : Option ℕ → Links → Option (ℕ × Links)
unfolding list_init
list_new none s = none
list_new (some p) s = some (p, list_init s p)

-- list_delete
unfoldable pub list_delete : ℕ → Links → ℕ → Option ℕ → Run (List ℕ × Links)
unfolding list_destroy
list_delete fuel s list data_delete = list_destroy fuel s list data_delete
