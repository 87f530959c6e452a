-- ===== src/Map/Tests.antt =====
-- The map's theorems at a table of 32 slots, with numbers for keys.
use libvci.Base.{
  ◌≡◌, ◌⊎◌, refl, sym, ap, ◌∙◌, inl, inr, Bool-cases, ◌==◌, set, get_or-set, arith, compare, true,
  some, replicate, ok, success, failure, ebadslt, Allocator, Returns,
}
use libvci.Map.{
  Map, Entry, available, is_available, judge, follow, mask, entry_at, map_lookup, lookup_loop,
  no_entry, map_insert, map_retrieve, map_take,
}
use libvci.Map.Probe.{IsTable, entry, Absent}
use libvci.Map.Fresh.{judge-unavailable, get_or-replicate, zeroes-Absent}
use libvci.Map.Others.{judge-other, map_retrieve-map_insert_other}
use libvci.Map.Insert.{Undone, map_retrieve-map_insert, map_take-map_insert}

abbrev generous : Allocator
generous = record { grants = λ n. true; junk = λ i. 99 }

-- A table that has never held an entry.
abbrev used : Map
used = record {
  table = replicate 32 no_entry;
  size = 0;
  capacity = 32;
  lower_bound = 10;
  upper_bound = 60;
  static_size = true;
  key_compare = compare;
  key_hash = λ k. k;
  data_delete = some 77;
}

used-IsTable : IsTable used
used-IsTable = record { block = refl; least_capacity = omega arith; most_capacity = omega arith }

map_retrieve-map_insert_example :
    Returns
      (λ r. ((r.0 ≡ success) × (map_retrieve r.1 37 ≡ ok 500)) ⊎ (r ≡ (failure ebadslt, used)))
      (map_insert 1 generous used 37 500)
map_retrieve-map_insert_example =
    map_retrieve-map_insert used 37 500 used-IsTable refl (zeroes-Absent used 32 37 refl) 0 generous
      (inl refl)

map_take-map_insert_example :
    Returns
      (λ r.
        Returns (Undone used r.1 37 500) (map_take 0 generous r.1 37)
        ⊎ (r ≡ (failure ebadslt, used)))
      (map_insert 1 generous used 37 500)
map_take-map_insert_example =
    map_take-map_insert used 37 500 used-IsTable refl (zeroes-Absent used 32 37 refl) refl 0
      generous (omega arith)

-- The same with an entry in slot 5, where the search for the key 69 starts too.
abbrev old_entry : Entry
old_entry = record { key = 37; value = 400; hash = 37; state = available }

abbrev one : Map
one = record used { table = set (replicate 32 no_entry) 5 old_entry; size = 1 }

one-IsTable : IsTable one
one-IsTable = record { block = refl; least_capacity = omega arith; most_capacity = omega arith }

one-Absent : Absent one 69
one-Absent i h k =
    let there = get_or-set (replicate 32 no_entry) 5 i old_entry no_entry (omega arith) in
    elim (Bool-cases (5 == i)) [
      | inl equal ↦
          let changed : entry one i ≡ old_entry = there ∙ rw equal refl in
          judge-other compare 69 69 old_entry refl refl (ap (judge compare 69 69) (sym changed) ∙ k)
      | inr apart ↦
          let zeroes : entry one i ≡ no_entry = there ∙ rw apart (get_or-replicate 32 i) in
          judge-unavailable compare 69 69 (entry one i) (ap (λ e. is_available e.state) zeroes) k
    ]

old_found : map_lookup one 37 ≡ ok (some 5)
unfolding map_lookup lookup_loop judge follow mask entry_at
old_found = refl

map_retrieve-map_insert_other_example :
    Returns (λ r. map_retrieve r.1 37 ≡ map_retrieve one 37) (map_insert 1 generous one 69 500)
map_retrieve-map_insert_other_example =
    map_retrieve-map_insert_other one 69 500 37 one-IsTable refl one-Absent refl 0 5 generous
      (inl refl) old_found
