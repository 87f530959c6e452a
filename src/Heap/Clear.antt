-- ===== src/Heap/Clear.antt =====
-- heap_clear hands every element to the delete function, and what it leaves in `size`.
use mathlib.Core.List.{reverse, reverse-append}
use libvci.Base.{
  ℕ, zero, suc, ◌-◌, ◌*◌, ◌%◌, ◌≤◌, ◌≡◌, refl, ◌∙◌, ap, ◌⊎◌, inl, inr, arith, max, true, Option,
  none, some, List, ◌∷◌, [], length, get_or, take, leb, u32, ok, fault, ◌>>=◌, load-ok, store-fault,
  take-suc, Allocator, length-resized,
}
use libvci.Heap.{
  Heap, clear_loop, heap_clear, clear_with, heap_insert, heap_after_growth, heap_place,
}
use libvci.Heap.Order.{IsValid, items}
use libvci.Heap.Resize.{resized_heap, heap_resize-granted}

clear_loop-reverse :
    (block : List ℕ) (n : ℕ)
    → n ≤ length block
    → clear_loop block n ≡ ok (reverse (take n block), u32 - 1)
unfolding clear_loop
clear_loop-reverse block zero h = refl
clear_loop-reverse block (suc n) h =
    let last = get_or block n 0 in
    rw
      (
        load-ok block n h,
        clear_loop-reverse block n (omega arith),
        take-suc n block 0 h,
        reverse-append (take n block) (last ∷ []),
      )
      refl

fits : (rank : ℕ → ℕ) (h : Heap) → IsValid rank h → h.size ≤ length h.data_words
fits rank h v = omega (arith, v.bounded, v.block)

module _ (rank : ℕ → ℕ) (h : Heap) (v : IsValid rank h) where
  -- heap_clear on a valid heap: with no delete function the heap becomes empty; with one, each
  -- element is deleted once, from the last slot down, and `size` is left at the largest `unsigned`.
  pub heap_clear-all :
      ((h.data_delete ≡ none) × (heap_clear h ≡ ok ([], record h { size = 0 })))
      ⊎ ((f : ℕ) × (h.data_delete ≡ some f)
          × (heap_clear h ≡ ok (reverse (items h), record h { size = u32 - 1 })))
  unfolding heap_clear clear_with
  heap_clear-all = cases h.data_delete refl
    where
      cases :
          (d : Option ℕ)
          → h.data_delete ≡ d
          → ((h.data_delete ≡ none) × (heap_clear h ≡ ok ([], record h { size = 0 })))
            ⊎ ((f : ℕ) × (h.data_delete ≡ some f)
                × (heap_clear h ≡ ok (reverse (items h), record h { size = u32 - 1 })))
      cases none e = inl (e, ap (λ d. clear_with d h) e)
      cases (some f) e = inr (f, e, ap (λ d. clear_with d h) e ∙ cleared f)
        where
          cleared :
              (f : ℕ) → clear_with (some f) h ≡ ok (reverse (items h), record h { size = u32 - 1 })
          cleared f = rw (clear_loop-reverse h.data_words h.size (fits rank h v)) refl

  -- After heap_clear with a delete function, an insertion for which memory is granted writes
  -- outside the block: `size` wraps below zero in the loop's last test.
  pub heap_insert-fault_after_clear :
      (mem : Allocator) (f x : ℕ)
      → h.data_delete ≡ some f
      → mem.grants (max 8 ((h.capacity * 2) % u32)) ≡ true
      → (heap_clear h >>= λ r. heap_insert mem r.1 x) ≡ fault
  unfolding heap_clear clear_with heap_insert heap_after_growth heap_place
  heap_insert-fault_after_clear mem f x e granted =
      let fixed = v.bounded in
      let size = v.block in
      let top = v.most_capacity in
      let cleared = record h { size = u32 - 1 } in
      let grown = resized_heap mem cleared ((h.capacity * 2) % u32) in
      let full : leb h.capacity (u32 - 1) ≡ true = ground arith in
      let block = length-resized mem h.data_words (max 8 ((h.capacity * 2) % u32)) in
      ap (λ d. clear_with d h >>= λ r. heap_insert mem r.1 x) e
      ∙ rw
          (
            clear_loop-reverse h.data_words h.size (fits rank h v),
            full,
            heap_resize-granted mem cleared ((h.capacity * 2) % u32) granted,
            store-fault grown.data_words (u32 - 1) x (omega (arith, block)),
          )
          refl
