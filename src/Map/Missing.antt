-- ===== src/Map/Missing.antt =====
-- map_lookup, map_retrieve and map_contains for a key that no entry of the table has.
use libvci.Base.{
  ℕ, zero, suc, ◌+◌, ◌%◌, ◌≤◌, ◌<◌, ◌≡◌, ◌≢◌, ◌∙◌, refl, sym, ap, inl, inr, arith, false,
  get_or-set, length-set, set, subst, ◌-◌, Run, Option, ltb, ◌==◌, Bool-cases, none, u32, ok,
}
use libvci.Map.{
  Map, Entry, Verdict, here, nowhere, further, removed, no_entry, mask, judge, follow, lookup_loop,
  map_lookup, map_retrieve, map_contains,
}
use libvci.Map.Mask.{mask-less}
use libvci.Map.Probe.{IsTable, entry, Absent, entry_at-ok, with_entry}

follow-none :
    (w : Verdict) (index : ℕ) (rest : Run (Option ℕ))
    → w ≢ here
    → rest ≡ ok none
    → follow w index rest ≡ ok none
unfolding follow
follow-none here index rest other e = absurd (other refl)
follow-none nowhere index rest other e = refl
follow-none further index rest other e = e

module _ (map : Map) (key : ℕ) (v : IsTable map) (absent : Absent map key) where
  lookup_loop-none :
      (fuel index offset : ℕ)
      → index < map.capacity
      → map.capacity ≤ offset + fuel
      → lookup_loop (suc fuel) map key (map.key_hash key) index offset ≡ ok none
  unfolding lookup_loop
  lookup_loop-none zero index offset h enough =
      let stops : ltb offset map.capacity ≡ false = ground arith in rw stops refl
  lookup_loop-none (suc fuel) index offset h enough =
      let most = v.most_capacity in
      let least = v.least_capacity in
      elim (Bool-cases (ltb offset map.capacity)) [
        | inr stops ↦ rw stops refl
        | inl goes ↦
            let below : offset < map.capacity = ground arith in
            let kept : (offset + 2) % u32 ≡ offset + 2 = omega arith in
            let next = mask map.capacity ((index + offset) % u32) in
            let rest =
              lookup_loop-none fuel next (offset + 2)
                (mask-less map.capacity ((index + offset) % u32) (omega arith) most)
                (omega arith) in
            rw (goes, entry_at-ok map index v h, kept)
              (follow-none (judge map.key_compare key (map.key_hash key) (entry map index)) index
                (lookup_loop (suc fuel) map key (map.key_hash key) next (offset + 2))
                (absent index h) rest)
      ]

  map_lookup-none : map_lookup map key ≡ ok none
  unfolding map_lookup
  map_lookup-none =
      let most = v.most_capacity in
      let least = v.least_capacity in
      let rounds : map.capacity ≡ suc (map.capacity - 1) = omega arith in
      subst
        (λ n.
          lookup_loop n map key (map.key_hash key) (mask map.capacity (map.key_hash key)) 1
          ≡ ok none)
        (sym rounds)
        (lookup_loop-none (map.capacity - 1) (mask map.capacity (map.key_hash key)) 1
          (mask-less map.capacity (map.key_hash key) (omega arith) most) (omega arith))

  -- map_retrieve of a key that no entry has gives NULL.
  pub map_retrieve-none : map_retrieve map key ≡ ok 0
  unfolding map_retrieve
  map_retrieve-none = rw map_lookup-none refl

  -- map_contains of a key that no entry has is false.
  pub map_contains-none : map_contains map key ≡ ok false
  unfolding map_contains
  map_contains-none = rw map_lookup-none refl

-- The table after the entry that was put into slot `i` has been taken out again.
pub with_entry-Absent :
    (map : Map) (key i n m : ℕ) (new old : Entry)
    → IsTable map
    → i < map.capacity
    → Absent map key
    → Absent (with_entry (with_entry map i new n) i (record old { state = removed }) m) key
unfolding judge
with_entry-Absent map key i n m new old v h absent j k =
    let block = v.block in
    let gone = record old { state = removed } in
    let first = get_or-set map.table i j new no_entry (omega arith) in
    let second =
      get_or-set (set map.table i new) i j gone no_entry
        (omega (arith, length-set map.table i new)) in
    let map' = with_entry (with_entry map i new n) i gone m in
    let judged = λ (e : Entry). judge map.key_compare key (map.key_hash key) e in
    elim (Bool-cases (i == j)) [
      | inl equal ↦
          let there : entry map' j ≡ gone = second ∙ rw equal refl in
          let skipped : judged gone ≡ further = refl in
          λ e. absurd (further-ne-here (sym (ap judged there ∙ skipped) ∙ e))
      | inr apart ↦
          let there : entry map' j ≡ entry map j = second ∙ rw (apart, first, apart) refl in
          λ e. absent j k (sym (ap judged there) ∙ e)
    ]
  where
    further-ne-here : further ≢ here
    further-ne-here = λ e. absurd cc
