-- ===== src/Map/Insert.antt =====
-- map_insert, and what map_retrieve and map_take make of the new entry.
use libvci.Base.{
  ℕ, suc, ◌+◌, ◌-◌, ◌%◌, ◌<◌, ◌≡◌, ◌⊎◌, ◌∙◌, refl, ap, inl, inr, arith, Bool, true, false, not,
  ◌&&◌, is_eq, length, get_or-set, ltb, ◌==◌, some, u32, ok, Code, success, failure, ebadslt,
  Allocator, Returns, returns, Returns-bind, Returns-mono, Returns-of_eq, subst, length-set,
}
use libvci.Map.{
  Map, Entry, removed, no_entry, is_available, entry_put, mask, map_lookup, fill, place, map_insert,
  map_should_grow, map_should_shrink, map_retrieve, map_contains, map_take, erase, shrink,
}
use libvci.Map.Missing.{map_retrieve-none, map_contains-none, with_entry-Absent}
use libvci.Map.Mask.{mask-less}
use libvci.Map.Probe.{
  IsTable, entry, Absent, entry_at-ok, with_entry, with_entry-IsTable, new_entry, slot_loop-Reached,
}

-- What map_insert leaves: one slot that had no datum holds the entry, and the key leads to it.
pub record Inserted (map : Map) (key datum : ℕ) (r : Code × Map) : Type 0 where
  pub slot : ℕ
  pub free_before : is_available (entry map slot).state ≡ false
  pub done : r.0 ≡ success
  pub result : r.1 ≡ with_entry map slot (new_entry map key datum) ((map.size + 1) % u32)
  pub table : IsTable r.1
  pub found : map_lookup r.1 key ≡ ok (some slot)
  pub held : entry r.1 slot ≡ new_entry map key datum
  pub inside : slot < r.1.capacity

module _ (map : Map) (key datum : ℕ) (v : IsTable map)
    (same : is_eq (map.key_compare key key) ≡ true) (absent : Absent map key) where
  fill-Inserted :
      (i : ℕ)
      → i < map.capacity
      → is_available (entry map i).state ≡ false
      → ((n : ℕ) → map_lookup (with_entry map i (new_entry map key datum) n) key ≡ ok (some i))
      → Returns (Inserted map key datum) (fill map key (map.key_hash key) datum (some i))
  unfolding fill entry_put
  fill-Inserted i h free found =
      let block = v.block in
      let fits : ltb i (length map.table) ≡ true = ground arith in
      let equal : (i == i) ≡ true = ground arith in
      let n = (map.size + 1) % u32 in
      rw fits (
        returns (record {
          slot = i;
          free_before = free;
          done = refl;
          result = refl;
          table = with_entry-IsTable map i n (new_entry map key datum) v;
          found = found n;
          held =
              get_or-set map.table i i (new_entry map key datum) no_entry (omega arith)
              ∙ rw equal refl;
          inside = h;
        }))

  place-Inserted :
      Returns (λ r. Inserted map key datum r ⊎ (r ≡ (failure ebadslt, map))) (place map key datum)
  unfolding place fill map_lookup
  place-Inserted =
      let most = v.most_capacity in
      let least = v.least_capacity in
      Returns-bind
        (slot_loop-Reached map key datum v same absent map.capacity
          (mask map.capacity (map.key_hash key)) 1
          (mask-less map.capacity (map.key_hash key) (omega arith) most) (omega arith)
          (omega arith))
        λ s r. elim r [
          | inl none_left ↦ rw none_left (returns (inr refl))
          | inr (i, e, h, free, found) ↦
              rw e (Returns-mono (fill-Inserted i h free found) λ r p. inl p)
        ]

  -- map_insert on a map that does not grow, with a key that no entry has: a slot that held no datum
  -- gets the entry, and map_lookup finds it; or the slots that it tries are all taken, the result is
  -- -EBADSLT, and the map stays as it is.
  pub map_insert-Inserted :
      (fuel : ℕ) (mem : Allocator)
      → (map.static_size ≡ true) ⊎ (map_should_grow map ≡ false)
      → Returns
          (λ r. Inserted map key datum r ⊎ (r ≡ (failure ebadslt, map)))
          (map_insert (suc fuel) mem map key datum)
  unfolding map_insert
  map_insert-Inserted fuel mem calm = rw (stays calm) place-Inserted
    where
      never : (b : Bool) → (b && false) ≡ false
      never true = refl
      never false = refl

      stays :
          (map.static_size ≡ true) ⊎ (map_should_grow map ≡ false)
          → (not map.static_size && map_should_grow map) ≡ false
      stays (inl fixed) = ap (λ s. not s && map_should_grow map) fixed
      stays (inr light) = ap (λ g. not map.static_size && g) light ∙ never (not map.static_size)

-- What map_retrieve gives for a key that map_lookup finds.
pub retrieve_found :
    (map : Map) (key i : ℕ) (e : Entry)
    → IsTable map
    → i < map.capacity
    → map_lookup map key ≡ ok (some i)
    → entry map i ≡ e
    → map_retrieve map key ≡ ok (e.value)
unfolding map_retrieve
retrieve_found map key i e v h found held =
    rw (found, entry_at-ok map i v h) (ap (λ f. ok (f.value)) held)

module _ (map : Map) (key datum : ℕ) (v : IsTable map)
    (same : is_eq (map.key_compare key key) ≡ true) (absent : Absent map key) where
  -- map_retrieve of a key that map_insert has put into a map that does not grow, where no entry had
  -- it, gives its datum; or map_insert has returned -EBADSLT, and the map is as it was.
  pub map_retrieve-map_insert :
      (fuel : ℕ) (mem : Allocator)
      → (map.static_size ≡ true) ⊎ (map_should_grow map ≡ false)
      → Returns
          (λ r.
            ((r.0 ≡ success) × (map_retrieve r.1 key ≡ ok datum)) ⊎ (r ≡ (failure ebadslt, map)))
          (map_insert (suc fuel) mem map key datum)
  map_retrieve-map_insert fuel mem calm =
      Returns-mono (map_insert-Inserted map key datum v same absent fuel mem calm) λ r q. elim q [
        | inr refused ↦ inr refused
        | inl p ↦ inl (
          p.done,
          retrieve_found r.1 key p.slot (new_entry map key datum) p.table p.inside p.found p.held,
        )
      ]

-- map_take of a key that map_lookup finds, in a map of a fixed size.
take_found :
    (map : Map) (key i fuel : ℕ) (mem : Allocator) (e : Entry)
    → IsTable map
    → i < map.capacity
    → map.static_size ≡ true
    → map_lookup map key ≡ ok (some i)
    → entry map i ≡ e
    → map_take fuel mem map key
      ≡ ok (e.value, with_entry map i (record e { state = removed }) ((map.size + u32 - 1) % u32))
unfolding map_take erase entry_put shrink
take_found map key i fuel mem e v h fixed found held =
    let block = v.block in
    let fits : ltb i (length map.table) ≡ true = ground arith in
    let keeps = λ (m : Map) (f : m.static_size ≡ true). ap (λ s. not s && map_should_shrink m) f in
    let taken =
      with_entry map i (record (entry map i) { state = removed }) ((map.size + u32 - 1) % u32) in
    rw (found, entry_at-ok map i v h, fits, keeps taken fixed)
      (ap
        (λ f.
          ok
            (f.value, with_entry map i (record f { state = removed }) ((map.size + u32 - 1) % u32)))
        held)

-- What map_take of the new key leaves in the map `map'` that map_insert has left: the slot that held
-- no datum before the insertion is marked as removed, the size is as before, and the key is gone.
pub record Undone (map map' : Map) (key datum : ℕ) (r : ℕ × Map) : Type 0 where
  pub slot : ℕ
  pub inside : slot < map.capacity
  pub free_before : is_available (entry map slot).state ≡ false
  pub filled : entry map' slot ≡ new_entry map key datum
  pub datum_given : r.0 ≡ datum
  pub result :
      r.1 ≡ with_entry map' slot (record (new_entry map key datum) { state = removed }) map.size
  pub marked : (entry r.1 slot).state ≡ removed
  pub retrieved : map_retrieve r.1 key ≡ ok 0
  pub contained : map_contains r.1 key ≡ ok false

module _ (map : Map) (key datum : ℕ) (v : IsTable map)
    (same : is_eq (map.key_compare key key) ≡ true) (absent : Absent map key)
    (fixed : map.static_size ≡ true) where
  taken-Undone :
      (map' : Map) (i : ℕ)
      → map' ≡ with_entry map i (new_entry map key datum) ((map.size + 1) % u32)
      → i < map.capacity
      → is_available (entry map i).state ≡ false
      → entry map' i ≡ new_entry map key datum
      → Undone map map' key datum
          (datum, with_entry map' i (record (new_entry map key datum) { state = removed }) map.size)
  taken-Undone map' i result inside free held =
      let block = v.block in
      let new = new_entry map key datum in
      let gone = record new { state = removed } in
      let n = (map.size + 1) % u32 in
      let inserted = with_entry map i new n in
      let taken = with_entry inserted i gone map.size in
      let table = with_entry-IsTable inserted i map.size gone (with_entry-IsTable map i n new v) in
      let missing = with_entry-Absent map key i n map.size new new v inside absent in
      let equal : (i == i) ≡ true = ground arith in
      let there : entry taken i ≡ gone =
        get_or-set inserted.table i i gone no_entry (omega (arith, length-set map.table i new))
        ∙ rw equal refl in
      let whole : with_entry map' i gone map.size ≡ taken =
        ap (λ m. with_entry m i gone map.size) result in
      record {
        slot = i;
        inside = inside;
        free_before = free;
        filled = held;
        datum_given = refl;
        result = refl;
        marked = ap (λ m. (entry m i).state) whole ∙ ap (λ e. e.state) there;
        retrieved = ap (λ m. map_retrieve m key) whole ∙ map_retrieve-none taken key table missing;
        contained = ap (λ m. map_contains m key) whole ∙ map_contains-none taken key table missing;
      }

  -- map_take of a key that map_insert has put into a valid map of a fixed size and of less than
  -- 2^32 - 1 entries, where no entry had the key and the comparison finds it equal to itself,
  -- gives the datum, marks the slot of the new entry, which held no datum before, as removed, and
  -- restores the size, and then map_retrieve gives NULL for the key and map_contains false; or
  -- map_insert has returned -EBADSLT, and the map is as it was.
  pub map_take-map_insert :
      (fuel : ℕ) (mem : Allocator)
      → map.size + 1 < u32
      → Returns
          (λ r.
            Returns (Undone map r.1 key datum) (map_take fuel mem r.1 key)
            ⊎ (r ≡ (failure ebadslt, map)))
          (map_insert (suc fuel) mem map key datum)
  map_take-map_insert fuel mem small =
      let new = new_entry map key datum in
      Returns-mono (map_insert-Inserted map key datum v same absent fuel mem (inl fixed)) λ r q.
        elim q [
          | inr refused ↦ inr refused
          | inl p ↦
              let still : r.1.static_size ≡ true = ap (λ m. m.static_size) p.result ∙ fixed in
              let size : r.1.size ≡ map.size + 1 = ap (λ m. m.size) p.result ∙ omega arith in
              let back : (r.1.size + u32 - 1) % u32 ≡ map.size = omega arith in
              let room : p.slot < map.capacity =
                subst (λ c. p.slot < c) (ap (λ m. m.capacity) p.result) p.inside in
              inl (
                Returns-of_eq
                  (take_found r.1 key p.slot fuel mem new p.table p.inside still p.found p.held
                    ∙ ap (λ n. ok (datum, with_entry r.1 p.slot (record new { state = removed }) n))
                        back)
                  (taken-Undone r.1 p.slot p.result room p.free_before p.held))
        ]
