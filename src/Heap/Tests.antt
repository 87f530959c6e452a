-- ===== src/Heap/Tests.antt =====
-- Runs of the heap, and its theorems at a concrete heap.
use libvci.Base.{
  ℕ, suc, ◌≤◌, ◌<◌, ◌≡◌, refl, ◌⊎◌, arith, compare, zero, get_or, true, some, List, [], ◌∷◌, Run,
  ok, fault, ◌>>=◌, Allocator, Returns, load, store, realloc,
}
use libvci.Heap.{
  Heap, heap_insert, heap_take, heap_clear, up_loop, down_loop, heapify_up, heapify_down, larger,
  swap, heap_place, heap_after_growth, heap_shrink, heap_resize,
}
use libvci.Heap.Order.{IsValid, parent}
use libvci.Heap.Insert.{Placed, Refused, heap_insert-Placed}
use libvci.Heap.Take.{Taken, heap_take-Taken}
use libvci.Heap.Clear.{heap_insert-fault_after_clear}

abbrev generous : Allocator
generous = record { grants = λ n. true; junk = λ i. 99 }

-- Eight slots, of which three are live.
abbrev three : Heap
three = record {
  data_words = 9 ∷ 4 ∷ 7 ∷ 0 ∷ 0 ∷ 0 ∷ 0 ∷ 0 ∷ [];
  data_delete = some 77;
  data_compare = compare;
  size = 3;
  capacity = 8;
}

three-IsValid : IsValid (λ n. n) three
three-IsValid = record {
  ranks = λ a b. refl;
  bounded = omega arith;
  block = refl;
  least_capacity = omega arith;
  most_capacity = omega arith;
  ordered = ordered;
}
  where
    ordered :
        (c : ℕ) → 0 < c → c < 3 → get_or three.data_words c 0 ≤ get_or three.data_words (parent c) 0
    ordered zero p q = absurd (omega arith)
    ordered (suc zero) p q = omega arith
    ordered (suc (suc zero)) p q = omega arith
    ordered (suc (suc (suc c))) p q = absurd (omega arith)

-- Inserting 8 between 9 and 4, then taking 9: the block keeps its capacity of 8.
insert_take : Run (ℕ × List ℕ)
unfolding heap_insert heap_take up_loop down_loop heapify_up heapify_down larger swap heap_place
    heap_after_growth heap_shrink heap_resize load store realloc
insert_take = do
  (_, h) ← heap_insert generous three 8
  (x, h') ← heap_take generous h
  ok (x, h'.data_words)

insert_take_result : insert_take ≡ ok (9, 8 ∷ 4 ∷ 7 ∷ 4 ∷ 0 ∷ 0 ∷ 0 ∷ 0 ∷ [])
unfolding insert_take
insert_take_result = refl

heap_insert-Placed_example :
    Returns
      (λ r. Placed (λ n. n) three 8 r ⊎ Refused generous three r)
      (heap_insert generous three 8)
heap_insert-Placed_example =
    heap_insert-Placed (λ n. n) generous three 8 three-IsValid (omega arith)

heap_take-Taken_example : Returns (Taken (λ n. n) three) (heap_take generous three)
heap_take-Taken_example = heap_take-Taken (λ n. n) generous three three-IsValid (omega arith)

heap_insert-fault_after_clear_example :
    (heap_clear three >>= λ r. heap_insert generous r.1 5) ≡ fault
heap_insert-fault_after_clear_example =
    heap_insert-fault_after_clear (λ n. n) three three-IsValid generous 77 5 refl refl
