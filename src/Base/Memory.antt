-- ===== src/Base/Memory.antt =====
-- Reads and writes of a block of words, the C library's block functions, and exchanges of two slots.
use Prim.Native.Nat.{ℕ, ◌+◌, ◌-◌, ◌≤◌, ◌<◌}
use native.Mathlib.Omega.{arith}
use mathlib.Core.Path.{◌≡◌, ◌∙◌}
use mathlib.Core.Option.{Option, none, some}
use mathlib.Core.List.{List, ◌++◌, Perm}
use mathlib.Core.List.Perm
use libvci.Base.Tests.{if◌then◌else◌, ◌==◌, ltb, leb}
use libvci.Base.Runs.{Run, ok, fault, Allocator}
use libvci.Base.Arrays.{
  length, get_elem?, get_or, set, take, drop, replicate, tabulate, get_elem?-get_or,
  get_elem?-beyond, get_or-set, get_or-take, length-set, length-take, length-append,
  length-tabulate, get_or-append, take-append, take-take, set-perm, take-set,
}

-- `data[i]`, a fault outside the block.
unfoldable pub load : List ℕ → ℕ → Run ℕ
load block i = elim (get_elem? block i) [ none ↦ fault | some v ↦ ok v ]

-- `data[i] = v`
unfoldable pub store : List ℕ → ℕ → ℕ → Run (List ℕ)
store block i v = if ltb i (length block) then ok (set block i v) else fault

-- `memmove(data + to, data + from, n)` within one block.
unfoldable pub move : List ℕ → ℕ → ℕ → ℕ → Run (List ℕ)
move block to from n =
    if leb (to + n) (length block)
    then (if leb (from + n) (length block)
        then ok (take to block ++ (take n (drop from block) ++ drop (to + n) block))
        else fault)
    else fault

pub move-fault :
    (block : List ℕ) (to from n : ℕ) → length block < from + n → move block to from n ≡ fault
unfolding move
move-fault block to from n h = ground arith

-- malloc, calloc and realloc of `n` units; `none` is NULL.
unfoldable pub malloc : Allocator → ℕ → Option (List ℕ)
malloc mem n = if mem.grants n then some (tabulate n 0 mem.junk) else none

unfoldable pub calloc : Allocator → ℕ → Option (List ℕ)
calloc mem n = if mem.grants n then some (replicate n 0) else none

-- The old contents up to the smaller size are kept.
abbrev pub resized : Allocator → List ℕ → ℕ → List ℕ
resized mem block n = take n block ++ tabulate (n - length block) (length block) mem.junk

unfoldable pub realloc : Allocator → List ℕ → ℕ → Option (List ℕ)
realloc mem block n = if mem.grants n then some (resized mem block n) else none

pub load-ok : (block : List ℕ) (i : ℕ) → i < length block → load block i ≡ ok (get_or block i 0)
unfolding load
load-ok block i h = rw (get_elem?-get_or block i 0 h, load)

pub load-fault : (block : List ℕ) (i : ℕ) → length block ≤ i → load block i ≡ fault
unfolding load
load-fault block i h = rw (get_elem?-beyond block i h, load)

pub store-ok : (block : List ℕ) (i v : ℕ) → i < length block → store block i v ≡ ok (set block i v)
unfolding store
store-ok block i v h = ground arith

pub store-fault : (block : List ℕ) (i v : ℕ) → length block ≤ i → store block i v ≡ fault
unfolding store
store-fault block i v h = ground arith

pub length-resized : (mem : Allocator) (block : List ℕ) (n : ℕ) → length (resized mem block n) ≡ n
length-resized mem block n = omega (
  arith,
  length-append {0} (take n block) (tabulate (n - length block) (length block) mem.junk),
  length-take {0} n block,
  length-tabulate {0} (n - length block) (length block) mem.junk,
)

-- A resize keeps the elements that fit, and the order of each.
pub get_or-resized :
    (mem : Allocator) (block : List ℕ) (n i : ℕ)
    → i < n
    → i < length block
    → get_or (resized mem block n) i 0 ≡ get_or block i 0
get_or-resized mem block n i hn hi =
    get_or-append (take n block) _ i 0 (omega (arith, length-take {0} n block))
    ∙ get_or-take n block i 0 hn

pub take-resized :
    (mem : Allocator) (block : List ℕ) (n k : ℕ)
    → k ≤ n
    → k ≤ length block
    → take k (resized mem block n) ≡ take k block
take-resized mem block n k hn hk =
    take-append k (take n block) _ (omega (arith, length-take {0} n block)) ∙ take-take k n block hn

-- Slots `i` and `j` exchanged.
unfoldable pub exchange : List ℕ → ℕ → ℕ → List ℕ
exchange block i j = set (set block i (get_or block j 0)) j (get_or block i 0)

pub length-exchange : (block : List ℕ) (i j : ℕ) → length (exchange block i j) ≡ length block
unfolding exchange
length-exchange block i j = simp length-set

module _ (block : List ℕ) (i j : ℕ) (hi : i < length block) (hj : j < length block) where
  pub get_or-exchange :
      (c : ℕ)
      → get_or (exchange block i j) c 0 ≡ (
          if j == c
          then get_or block i 0
          else if i == c
          then get_or block j 0
          else get_or block c 0)
  unfolding exchange
  get_or-exchange c = rw (
    get_or-set (set block i (get_or block j 0)) j c (get_or block i 0) 0 (rw length-set hj),
    get_or-set block i c (get_or block j 0) 0 hi,
  )

  pub exchange-perm : Perm (exchange block i j) block
  unfolding exchange
  exchange-perm =
      let b = set block i (get_or block j 0) in
      let kept : get_or b j 0 ≡ get_or block j 0 =
        ground (arith, get_or-set block i j (get_or block j 0) 0) in
      let second = rw kept at (set-perm b j (get_or block i 0) 0 (rw length-set hj)) in
      Perm.cons_inv (Perm.trans second (set-perm block i (get_or block j 0) 0 hi))

-- An exchange below `n` permutes the first `n` slots.
pub take-exchange-perm :
    (n : ℕ) (block : List ℕ) (i j : ℕ)
    → n ≤ length block
    → i < n
    → j < n
    → Perm (take n (exchange block i j)) (take n block)
unfolding exchange
take-exchange-perm n block i j hn hi hj =
    let size = length-take {0} n block in
    rw
      (
        take-set n (set block i (get_or block j 0)) j (get_or block i 0) hj,
        take-set n block i (get_or block j 0) hi,
        ← get_or-take n block i 0 hi,
        ← get_or-take n block j 0 hj,
      )
      (exchange-perm (take n block) i j (omega (arith, size)) (omega (arith, size)))
