-- ===== src/Vector/Change.antt =====
-- vector_insert_at and vector_take_at insert and remove one element, and keep the others in order.
use libvci.Base.{
  min, ℕ, suc, ◌+◌, ◌-◌, ◌*◌, ◌%◌, ◌^◌, ◌≤◌, ◌<◌, ◌≡◌, refl, sym, ap, ◌∙◌, ◌⊎◌, inl, inr, arith,
  List, ◌++◌, length, take, drop, leb, Bool-cases, u32, ok, Code, success, failure, enomem,
  Allocator, move, load-ok, store-ok, length-set, get_or, get_or-take, length-append, length-take,
  length-drop, take_all, Returns, returns, Returns-mono, Returns-bind,
}
use libvci.Vector.{Vector, place, after_growth, vector_insert_at, vector_take_at}
use libvci.Vector.Slots.{insert_slot, remove_slot, set-take, take_insert, take_remove}
use libvci.Vector.Valid.{IsValid, items, length-items, Denied, Resized, vector_set_capacity-Resized}

-- A memmove within the block.
move-ok :
    (block : List ℕ) (to from n : ℕ)
    → to + n ≤ length block
    → from + n ≤ length block
    → move block to from n ≡ ok (take to block ++ (take n (drop from block) ++ drop (to + n) block))
unfolding move
move-ok block to from n h k = ground arith

-- The vector that vector_insert_at leaves, and its result.
pub record Inserted (vec : Vector) (i x : ℕ) (r : Code × Vector) : Type 0 where
  pub done : r.0 ≡ success
  pub valid : IsValid r.1
  pub inserted : items r.1 ≡ insert_slot (items vec) i x
  pub compare_kept : r.1.data_compare ≡ vec.data_compare
  pub delete_kept : r.1.data_delete ≡ vec.data_delete

module _ (vec : Vector) (i x : ℕ) (v : IsValid vec) (hi : i ≤ vec.size)
    (room : vec.size < vec.capacity) where
  place-Inserted : Returns (Inserted vec i x) (place vec i x)
  unfolding place
  place-Inserted =
      let size = v.block in
      let top = v.most_capacity in
      let n = vec.size - i in
      let b = vec.data_words in
      let count : (vec.size + u32 - i) % u32 ≡ n = omega arith in
      let one : i + 1 ≡ suc i = omega arith in
      let grown : (vec.size + 1) % u32 ≡ suc vec.size = omega arith in
      let rest = take n (drop i b) ++ drop (suc i + n) b in
      let len : length (take (suc i) b ++ rest) ≡ length b = omega (
        arith,
        length-append {0} (take (suc i) b) rest,
        length-append {0} (take n (drop i b)) (drop (suc i + n) b),
        length-take {0} (suc i) b,
        length-take {0} n (drop i b),
        length-drop {0} i b,
        length-drop {0} (suc i + n) b,
      ) in
      let written = set-take b rest i x (omega arith) in
      rw
        (
          count,
          one,
          grown,
          move-ok b (suc i) i n (omega arith) (omega arith),
          store-ok (take (suc i) b ++ rest) i x (omega arith),
        )
        (returns (record {
          done = refl;
          valid = record {
            bounded = room;
            block = length-set (take (suc i) b ++ rest) i x ∙ len ∙ size;
            least_capacity = v.least_capacity;
            most_capacity = top;
          };
          inserted =
              ap (take (suc vec.size)) written
              ∙ take_insert b vec.size i (omega arith) hi x (drop (suc i + n) b);
          compare_kept = refl;
          delete_kept = refl;
        }))

-- vector_insert_at on a full vector, where the allocator does not grant the size that is asked for.
pub record Refused (mem : Allocator) (vec : Vector) (r : Code × Vector) : Type 0 where
  pub code : r.0 ≡ failure enomem
  pub full : vec.capacity ≤ vec.size
  pub denied : Denied mem (vec.capacity * 2)
  pub same : r.1 ≡ vec

-- vector_insert_at at a slot of a valid vector or behind its last, where the capacity is at most
-- 2^30 if the vector is full, inserts exactly the given element there; or the vector is full, the
-- allocator does not grant the size that twice the capacity is rounded to, and the vector stays as
-- it is.
pub vector_insert_at-Inserted :
    (mem : Allocator) (vec : Vector) (i x : ℕ)
    → IsValid vec
    → i ≤ vec.size
    → (vec.capacity ≤ vec.size → vec.capacity ≤ 2 ^ 30)
    → Returns (λ r. Inserted vec i x r ⊎ Refused mem vec r) (vector_insert_at mem vec i x)
unfolding vector_insert_at after_growth
vector_insert_at-Inserted mem vec i x v hi small = elim (Bool-cases (leb vec.capacity vec.size)) [
  | inr space ↦ rw space (Returns-mono (place-Inserted vec i x v hi (ground arith)) λ r p. inl p)
  | inl full ↦
      let most = small (ground arith) in
      let doubled : (vec.capacity * 2) % u32 ≡ vec.capacity * 2 = omega arith in
      rw (full, doubled)
        (Returns-bind (vector_set_capacity-Resized mem vec (vec.capacity * 2) v (omega arith))
          (grown (ground arith)))
]
  where
    grown :
        vec.capacity ≤ vec.size
        → (r : Code × Vector) → Resized mem vec (vec.capacity * 2) r
        → Returns (λ r. Inserted vec i x r ⊎ Refused mem vec r) (after_growth r i x)
    grown full (success, vec') r =
        let low = v.least_capacity in
        let fits = v.bounded in
        let same : vec'.size ≡ vec.size = omega (arith, r.size) in
        let wide : vec.capacity * 2 ≤ vec'.capacity = ground (arith, r.outcome) in
        let kept =
          r.kept ∙ take_all (vec.capacity * 2) (items vec) (omega (arith, length-items v)) in
        Returns-mono (place-Inserted vec' i x r.valid (omega arith) (omega arith)) λ q p.
          inl (record {
            done = p.done;
            valid = p.valid;
            inserted = p.inserted ∙ ap (λ ys. insert_slot ys i x) kept;
            compare_kept = p.compare_kept ∙ r.compare_kept;
            delete_kept = p.delete_kept ∙ r.delete_kept;
          })
    grown full (failure e, vec') r =
        let fits = v.bounded in
        let uncut : min (vec.capacity * 2) vec.size ≡ vec.size = omega arith in
        elim r.outcome [
          | inl (done, more) ↦ absurd cc
          | inr (code, same, denied) ↦ returns (
              inr (record {
                code = code;
                full = full;
                denied = denied;
                same = same ∙ ap (λ n. record vec { size = n }) uncut;
              }))
        ]

-- vector_take_at at a slot of a valid vector returns its element and removes just that one.
pub vector_take_at-remove :
    (vec : Vector) (i : ℕ)
    → IsValid vec
    → i < vec.size
    → Returns
        (λ r.
          (r.0 ≡ get_or (items vec) i 0)
          × IsValid r.1
          × (items r.1 ≡ remove_slot (items vec) i)
          × (r.1.data_compare ≡ vec.data_compare)
          × (r.1.size ≡ vec.size - 1))
        (vector_take_at vec i)
unfolding vector_take_at
vector_take_at-remove vec i v hi =
    let size = v.block in
    let fixed = v.bounded in
    let top = v.most_capacity in
    let n = vec.size - 1 - i in
    let b = vec.data_words in
    let less : (vec.size + u32 - 1) % u32 ≡ vec.size - 1 = omega arith in
    let count : (vec.size - 1 + u32 - i) % u32 ≡ n = omega arith in
    let one : i + 1 ≡ suc i = omega arith in
    let rest = take n (drop (suc i) b) ++ drop (i + n) b in
    let len : length (take i b ++ rest) ≡ length b = omega (
      arith,
      length-append {0} (take i b) rest,
      length-append {0} (take n (drop (suc i) b)) (drop (i + n) b),
      length-take {0} i b,
      length-take {0} n (drop (suc i) b),
      length-drop {0} (suc i) b,
      length-drop {0} (i + n) b,
    ) in
    rw
      (
        load-ok b i (omega arith),
        less,
        count,
        one,
        move-ok b i (suc i) n (omega arith) (omega arith),
      )
      (returns (
        sym (get_or-take vec.size b i 0 hi),
        record {
          bounded = omega arith;
          block = len ∙ size;
          least_capacity = v.least_capacity;
          most_capacity = top;
        },
        take_remove b vec.size i (omega arith) hi (drop (i + n) b),
        refl,
        refl,
      ))
