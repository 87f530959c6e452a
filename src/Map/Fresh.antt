-- ===== src/Map/Fresh.antt =====
-- A new and a cleared map have no key.
use libvci.Base.{
  ℕ, zero, suc, ◌*◌, ◌%◌, ◌^◌, ◌≤◌, ◌≡◌, ◌≢◌, ◌⊎◌, ◌∙◌, refl, ap, inl, inr, arith, Bool, true,
  false, List, [], ◌∷◌, length, replicate, length-replicate, get_or, Bool-cases, Option, none, some,
  u32, success, failure, enomem, Allocator, Returns, returns, Returns-bind, Comparison,
}
use libvci.Nice.Power.{get_nice_size_bounds}
use libvci.Map.{
  Map, MapConfig, Entry, State, empty, available, removed, no_entry, is_available, judge, Verdict,
  here, nowhere, further, blank, map_init, map_clear, clear_with, clear_loop,
}
use libvci.Map.Probe.{IsTable, entry, Absent}

pub judge-unavailable :
    (cmp : Comparison) (key hash : ℕ) (e : Entry)
    → is_available e.state ≡ false
    → judge cmp key hash e ≢ here
unfolding judge
judge-unavailable cmp key hash e gone = by_state e.state gone
  where
    not_here : Verdict → Bool
    not_here here = false
    not_here nowhere = true
    not_here further = true

    by_state :
        (s : State) → is_available s ≡ false → judge cmp key hash (record e { state = s }) ≢ here
    by_state empty g h = absurd (ground (arith, ap not_here h))
    by_state removed g h = absurd (ground (arith, ap not_here h))
    by_state available g h = absurd (ground (arith, g))

pub get_or-replicate : (n i : ℕ) → get_or (replicate n no_entry) i no_entry ≡ no_entry
get_or-replicate zero i = refl
get_or-replicate (suc n) zero = refl
get_or-replicate (suc n) (suc i) = get_or-replicate n i

-- Every slot of zeroes is free.
pub zeroes-Absent : (map : Map) (n key : ℕ) → map.table ≡ replicate n no_entry → Absent map key
zeroes-Absent map n key zeroes i h =
    judge-unavailable map.key_compare key (map.key_hash key) (entry map i) (
      ap (λ t. is_available (get_or t i no_entry).state) zeroes
      ∙ ap (λ e. is_available e.state) (get_or-replicate n i))

-- map_init for up to 2^30 entries gives a table that has no key; or no memory is granted, and the
-- result is -ENOMEM.
pub map_init-Absent :
    (mem : Allocator) (conf : MapConfig)
    → conf.config_size ≤ 2 ^ 30
    → Returns
        (λ r.
          ((map : Map) × (r ≡ (success, some map))
            × IsTable map
            × (map.size ≡ 0)
            × (conf.config_size * 2 ≤ map.capacity)
            × ((key : ℕ) → Absent map key))
          ⊎ (r ≡ (failure enomem, none)))
        (map_init mem conf)
unfolding map_init blank
map_init-Absent mem conf h =
    let doubled : (conf.config_size * 2) % u32 ≡ conf.config_size * 2 = omega arith in
    rw doubled (
      Returns-bind (get_nice_size_bounds (conf.config_size * 2) 32 (omega arith) (omega arith))
        λ size (enough, least, most). elim (Bool-cases (mem.grants size)) [
          | inr refused ↦ rw refused (returns (inr refl))
          | inl granted ↦ rw granted (
              returns (
                inl (
                  blank conf size,
                  refl,
                  (record {
                    block = length-replicate {0} size no_entry;
                    least_capacity = least;
                    most_capacity = most;
                  }),
                  refl,
                  enough,
                  (λ key. zeroes-Absent (blank conf size) size key refl),
                )))
        ])

length-clear_loop : (table : List Entry) → length (clear_loop table).1 ≡ length table
unfolding clear_loop
length-clear_loop [] = refl
length-clear_loop (e ∷ table) = elim (Bool-cases (is_available e.state)) [
  | inl held ↦ rw held (ap suc (length-clear_loop table))
  | inr free ↦ rw free (ap suc (length-clear_loop table))
]

clear_loop-unavailable :
    (table : List Entry) (i : ℕ)
    → is_available (get_or (clear_loop table).1 i no_entry).state ≡ false
unfolding clear_loop
clear_loop-unavailable [] i = refl
clear_loop-unavailable (e ∷ table) zero = elim (Bool-cases (is_available e.state)) [
  | inl held ↦ rw held refl
  | inr free ↦ rw free free
]
clear_loop-unavailable (e ∷ table) (suc i) = elim (Bool-cases (is_available e.state)) [
  | inl held ↦ rw held (clear_loop-unavailable table i)
  | inr free ↦ rw free (clear_loop-unavailable table i)
]

-- map_clear, with a delete function and without, leaves the table's capacity, a size of 0, and no
-- key.
pub map_clear-Absent :
    (map : Map)
    → IsTable map
    → IsTable (map_clear map).1
      × ((map_clear map).1.size ≡ 0)
      × ((map_clear map).1.capacity ≡ map.capacity)
      × ((key : ℕ) → Absent (map_clear map).1 key)
unfolding map_clear clear_with
map_clear-Absent map v = cleared map.data_delete
  where
    cleared :
        (f : Option ℕ)
        → IsTable (clear_with f map).1
          × ((clear_with f map).1.size ≡ 0)
          × ((clear_with f map).1.capacity ≡ map.capacity)
          × ((key : ℕ) → Absent (clear_with f map).1 key)
    cleared none = (
      (record {
        block = length-replicate {0} map.capacity no_entry;
        least_capacity = v.least_capacity;
        most_capacity = v.most_capacity;
      }),
      refl,
      refl,
      (λ key.
          zeroes-Absent (record map { table = replicate map.capacity no_entry; size = 0 })
            map.capacity key refl),
    )
    cleared (some f) = (
      (record {
        block = length-clear_loop map.table ∙ v.block;
        least_capacity = v.least_capacity;
        most_capacity = v.most_capacity;
      }),
      refl,
      refl,
      (λ key i h.
          judge-unavailable map.key_compare key (map.key_hash key)
            (get_or (clear_loop map.table).1 i no_entry) (clear_loop-unavailable map.table i)),
    )
