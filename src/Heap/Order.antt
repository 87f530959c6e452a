-- ===== src/Heap/Order.antt =====
-- The heap order, the invariant of a heap, and what its comparison must be.
use libvci.Base.{
  Ranks, ℕ, zero, suc, ◌-◌, ◌/◌, ◌^◌, ◌≤◌, ◌<◌, ◌≡◌, ap, ◌∙◌, arith, List, Perm, length, get_or,
  take, ok, load-ok, store-ok, length-set, exchange,
}
use libvci.Heap.{Heap, swap}

abbrev pub parent : ℕ → ℕ
parent c = (c - 1) / 2

module _ (rank : ℕ → ℕ) where
  abbrev pub key : List ℕ → ℕ → ℕ
  key block i = rank (get_or block i 0)

  -- No element is larger than its parent.
  abbrev pub IsHeap : ℕ → List ℕ → Type 0
  IsHeap size block = (c : ℕ) → 0 < c → c < size → key block c ≤ key block (parent c)

  -- The children of `i` are no larger than the parent of `i`.
  abbrev pub IsBridged : ℕ → List ℕ → ℕ → Type 0
  IsBridged size block i =
      (c : ℕ) → 0 < c → c < size → parent c ≡ i → 0 < i → key block c ≤ key block (parent i)

  root_greatest_below :
      (k size : ℕ) (block : List ℕ) (i : ℕ)
      → IsHeap size block
      → i < k
      → i < size
      → key block i ≤ key block 0
  root_greatest_below zero size block i h f p = absurd (omega arith)
  root_greatest_below (suc k) size block i h f p =
      ground (arith, h i, root_greatest_below k size block (parent i) h)

  pub root_greatest :
      (size : ℕ) (block : List ℕ) (i : ℕ) → IsHeap size block → i < size → key block i ≤ key block 0
  root_greatest size block i h p = root_greatest_below (suc i) size block i h (omega arith) p

  -- A heap that its operations keep: `size` live slots of an allocated block, in heap order.
  pub record IsValid (h : Heap) : Type 0 where
    pub ranks : Ranks rank h.data_compare
    pub bounded : h.size ≤ h.capacity
    pub block : length h.data_words ≡ h.capacity
    pub least_capacity : 8 ≤ h.capacity
    pub most_capacity : h.capacity ≤ 2 ^ 31
    pub ordered : IsHeap h.size h.data_words

-- The elements, in the order of their slots.
abbrev pub items : Heap → List ℕ
items h = take h.size h.data_words

-- `b` holds the live words of `a`, in heap order.
abbrev pub Sifted : (ℕ → ℕ) → ℕ → List ℕ → List ℕ → Type 0
Sifted rank size a b = IsHeap rank size b × Perm (take size b) (take size a) × (length b ≡ length a)

pub swap-ok :
    (block : List ℕ) (i j : ℕ)
    → i < length block
    → j < length block
    → swap block i j ≡ ok (exchange block i j)
unfolding swap exchange
swap-ok block i j hi hj =
    rw (load-ok block i hi, load-ok block j hj, store-ok block i (get_or block j 0) hi)
      (store-ok _ j _ (rw length-set hj))

-- `h'` is `h` with its live words rearranged into heap order.
pub record Rearranged (rank : ℕ → ℕ) (h h' : Heap) : Type 0 where
  pub compare_kept : h'.data_compare ≡ h.data_compare
  pub delete_kept : h'.data_delete ≡ h.data_delete
  pub size_kept : h'.size ≡ h.size
  pub capacity_kept : h'.capacity ≡ h.capacity
  pub sifted : Sifted rank h.size h.data_words h'.data_words

module _ {rank : ℕ → ℕ} {h h' : Heap} where
  pub Rearranged-IsValid :
      Rearranged rank h h'
      → Ranks rank h.data_compare
      → h.size ≤ h.capacity
      → length h.data_words ≡ h.capacity
      → 8 ≤ h.capacity
      → h.capacity ≤ 2 ^ 31
      → IsValid rank h'
  Rearranged-IsValid r ranks fits block low high =
      let (heap, _, len) = r.sifted in
      record {
        ranks = λ a b. ap (λ f. f a b) r.compare_kept ∙ ranks a b;
        bounded = omega (arith, r.size_kept, r.capacity_kept);
        block = omega (arith, r.capacity_kept, len);
        least_capacity = omega (arith, r.capacity_kept);
        most_capacity = omega (arith, r.capacity_kept);
        ordered = λ c p q. heap c p (omega (arith, r.size_kept));
      }

  pub Rearranged-perm : Rearranged rank h h' → Perm (items h') (items h)
  Rearranged-perm r = rw r.size_kept r.sifted.1
