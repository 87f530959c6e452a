-- ===== src/Vector/Valid.antt =====
-- The invariant of a vector, its elements, and vector_set_capacity.
use libvci.Base.{
  ℕ, ◌^◌, ◌≤◌, ◌≡◌, refl, sym, ◌∙◌, ◌⊎◌, inl, inr, arith, min, List, length, take, ltb, ◌==◌,
  Bool-cases, if◌then◌else◌, Code, success, failure, enomem, Allocator, realloc, length-resized,
  take-take, length-take, take_all, take-resized, Returns, returns, Returns-keep, false, ok,
  Returns-bind,
}
use libvci.Nice.{get_nice_size}
use libvci.Nice.Power.{get_nice_size_bounds}
use libvci.Vector.{Vector, default_capacity, vector_set_capacity, reallocate}

-- `size` live slots of an allocated block of `capacity` slots.
pub record IsValid (vec : Vector) : Type 0 where
  pub bounded : vec.size ≤ vec.capacity
  pub block : length vec.data_words ≡ vec.capacity
  pub least_capacity : 8 ≤ vec.capacity
  pub most_capacity : vec.capacity ≤ 2 ^ 31

-- The elements, in the order of their slots.
abbrev pub items : Vector → List ℕ
items vec = take vec.size vec.data_words

pub length-items : {vec : Vector} → IsValid vec → length (items vec) ≡ vec.size
length-items {vec} v = omega (arith, length-take {0} vec.size vec.data_words, v.bounded, v.block)

-- The allocator does not grant the block that vector_set_capacity asks for.
abbrev pub Denied : Allocator → ℕ → Type 0
Denied mem capacity =
    (n : ℕ) × (get_nice_size capacity default_capacity ≡ ok n) × (mem.grants n ≡ false)

-- What vector_set_capacity leaves, whether or not the block was moved: the elements that are within
-- the new capacity, and the function pointers; and where it fails, the block too.
pub record Resized (mem : Allocator) (vec : Vector) (capacity : ℕ) (r : Code × Vector)
    : Type 0 where
  pub valid : IsValid r.1
  pub kept : items r.1 ≡ take capacity (items vec)
  pub size : r.1.size ≡ min capacity vec.size
  pub outcome :
      ((r.0 ≡ success) × (capacity ≤ r.1.capacity))
      ⊎ ((r.0 ≡ failure enomem)
          × (r.1 ≡ record vec { size = min capacity vec.size })
          × Denied mem capacity)
  pub compare_kept : r.1.data_compare ≡ vec.data_compare
  pub delete_kept : r.1.data_delete ≡ vec.data_delete

abbrev cut : Vector → ℕ → Vector
cut vec capacity = if ltb capacity vec.size then record vec { size = capacity } else vec

cut-lem :
    (vec : Vector) (capacity : ℕ)
    → IsValid vec
    → (cut vec capacity ≡ record vec { size = min capacity vec.size })
cut-lem vec capacity v = elim (Bool-cases (ltb capacity vec.size)) [
  | inl less ↦ let e : min capacity vec.size ≡ capacity = ground arith in rw (less, e) refl
  | inr more ↦ let e : min capacity vec.size ≡ vec.size = ground arith in rw (more, e) refl
]

module _ (mem : Allocator) (vec : Vector) (capacity n : ℕ) (v : IsValid vec) where
  shorter_items : take (min capacity vec.size) vec.data_words ≡ take capacity (items vec)
  shorter_items = elim (Bool-cases (ltb capacity vec.size)) [
    | inl less ↦
        let e : min capacity vec.size ≡ capacity = ground arith in
        rw e (sym (take-take capacity vec.size vec.data_words (ground arith)))
    | inr more ↦
        let e : min capacity vec.size ≡ vec.size = ground arith in
        rw e (sym (take_all capacity (items vec) (ground (arith, length-items v))))
  ]

  reallocate-Resized :
      get_nice_size capacity default_capacity ≡ ok n
      → n ≤ 2 ^ 31
      → 8 ≤ n
      → capacity ≤ n
      → Resized mem vec capacity (reallocate mem (record vec { size = min capacity vec.size }) n)
  unfolding reallocate realloc
  reallocate-Resized asked top low enough =
      let fixed = v.bounded in
      let size = v.block in
      let small = v.least_capacity in
      let most = v.most_capacity in
      elim (Bool-cases (mem.grants n)) [
        | inr denied ↦
            rw (denied, reallocate)
              (record {
                valid = record {
                  bounded = omega arith;
                  block = size;
                  least_capacity = small;
                  most_capacity = most;
                };
                kept = shorter_items;
                size = refl;
                outcome = inr (refl, refl, (n, asked, denied));
                compare_kept = refl;
                delete_kept = refl;
              })
        | inl granted ↦
            let fits : min capacity vec.size ≤ n = omega arith in
            rw (granted, reallocate)
              (record {
                valid = record {
                  bounded = fits;
                  block = length-resized mem vec.data_words n;
                  least_capacity = low;
                  most_capacity = top;
                };
                kept =
                    take-resized mem vec.data_words n (min capacity vec.size) fits (omega arith)
                    ∙ shorter_items;
                size = refl;
                outcome = inl (refl, enough);
                compare_kept = refl;
                delete_kept = refl;
              })
      ]

  unchanged-Resized :
      capacity ≤ vec.capacity
      → Resized mem vec capacity (success, record vec { size = min capacity vec.size })
  unchanged-Resized enough =
      let fixed = v.bounded in
      record {
        valid = record {
          bounded = omega arith;
          block = v.block;
          least_capacity = v.least_capacity;
          most_capacity = v.most_capacity;
        };
        kept = shorter_items;
        size = refl;
        outcome = inl (refl, enough);
        compare_kept = refl;
        delete_kept = refl;
      }

-- vector_set_capacity keeps the elements within the new capacity, in order, also where it fails,
-- and where it succeeds there is room for as many elements as were asked for.
pub vector_set_capacity-Resized :
    (mem : Allocator) (vec : Vector) (capacity : ℕ)
    → IsValid vec
    → capacity ≤ 2 ^ 31
    → Returns (Resized mem vec capacity) (vector_set_capacity mem vec capacity)
unfolding vector_set_capacity
vector_set_capacity-Resized mem vec capacity v h = rw (cut-lem vec capacity v) (
    Returns-bind (Returns-keep (get_nice_size_bounds capacity 8 h (omega arith)))
      λ n (asked, (enough, low, top)). elim (Bool-cases (n == vec.capacity)) [
        | inl same ↦ rw same (returns (unchanged-Resized mem vec capacity n v (ground arith)))
        | inr other ↦
            rw other (returns (reallocate-Resized mem vec capacity n v asked top low enough))
      ])
