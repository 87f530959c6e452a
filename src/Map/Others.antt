-- ===== src/Map/Others.antt =====
-- map_insert and the keys that are in the map already.
use libvci.Base.{
  ℕ, zero, suc, ◌+◌, ◌%◌, ◌≤◌, ◌<◌, ◌≡◌, ◌≢◌, ◌⊎◌, ◌∙◌, refl, sym, ap, subst, inl, inr, arith, Bool,
  true, false, is_eq, get_or-set, ltb, ◌==◌, Bool-cases, Option, none, some, u32, Run, ok, fault,
  out_of_fuel, Allocator, Comparison, Returns, Returns-mono,
}
use libvci.Map.{
  Map, Entry, State, available, no_entry, is_available, mask, Verdict, here, nowhere, further,
  judge, follow, lookup_loop, map_lookup, map_should_grow, map_insert, map_retrieve,
}
use libvci.Map.Mask.{mask-less}
use libvci.Map.Probe.{
  IsTable, entry, Absent, entry_at-ok, with_entry, with_entry-IsTable, new_entry, judge-available,
}
use libvci.Map.Fresh.{judge-unavailable}
use libvci.Map.Insert.{retrieve_found, map_insert-Inserted}

Verdict-cases : (w : Verdict) → (w ≡ here) ⊎ ((w ≡ nowhere) ⊎ (w ≡ further))
Verdict-cases here = inl refl
Verdict-cases nowhere = inr (inl refl)
Verdict-cases further = inr (inr refl)

-- The slot that a lookup gives.
abbrev slot_of : Run (Option ℕ) → Option ℕ
slot_of (ok s) = s
slot_of fault = none
slot_of out_of_fuel = none

abbrev slot_or : Option ℕ → ℕ → ℕ
slot_or none d = d
slot_or (some i) d = i

abbrev is_some : Option ℕ → Bool
is_some none = false
is_some (some i) = true

lookup_round :
    (map : Map) (key hash fuel index offset : ℕ)
    → IsTable map
    → index < map.capacity
    → offset < map.capacity
    → lookup_loop (suc fuel) map key hash index offset
      ≡ follow (judge map.key_compare key hash (entry map index)) index (
          lookup_loop fuel map key hash
            (mask map.capacity ((index + offset) % u32))
            ((offset + 2) % u32))
unfolding lookup_loop
lookup_round map key hash fuel index offset v h k =
    let goes : ltb offset map.capacity ≡ true = ground arith in
    rw (goes, entry_at-ok map index v h) refl

lookup_end :
    (map : Map) (key hash fuel index offset : ℕ)
    → map.capacity ≤ offset
    → lookup_loop (suc fuel) map key hash index offset ≡ ok none
unfolding lookup_loop
lookup_end map key hash fuel index offset h =
    let stops : ltb offset map.capacity ≡ false = ground arith in rw stops refl

no_rounds :
    (map : Map) (key hash index offset : ℕ)
    → lookup_loop zero map key hash index offset ≡ out_of_fuel
unfolding lookup_loop
no_rounds map key hash index offset = refl

module _ (map : Map) (i other n : ℕ) (e : Entry) (v : IsTable map) (hi : i < map.capacity)
    (free : is_available (entry map i).state ≡ false) (held : is_available e.state ≡ true)
    (differs : judge map.key_compare other (map.key_hash other) e ≢ here) where
  kept :
      (fuel index offset j : ℕ)
      → index < map.capacity
      → lookup_loop fuel map other (map.key_hash other) index offset ≡ ok (some j)
      → (lookup_loop fuel (with_entry map i e n) other (map.key_hash other) index offset
          ≡ ok (some j))
        × (j < map.capacity)
        × (judge map.key_compare other (map.key_hash other) (entry map j) ≡ here)
  unfolding follow
  kept zero index offset j h found = absurd (
      ground (
        arith,
        ap (λ r. is_some (slot_of r))
            (sym (no_rounds map other (map.key_hash other) index offset) ∙ found),
      ))
  kept (suc fuel) index offset j h found =
      let most = v.most_capacity in
      let least = v.least_capacity in
      let block = v.block in
      let map' = with_entry map i e n in
      let hash = map.key_hash other in
      let next = mask map.capacity ((index + offset) % u32) in
      let rest = lookup_loop fuel map other hash next ((offset + 2) % u32) in
      let rest' = lookup_loop fuel map' other hash next ((offset + 2) % u32) in
      elim (Bool-cases (ltb offset map.capacity)) [
        | inr over ↦ absurd (
            ground (
              arith,
              ap (λ r. is_some (slot_of r))
                  (sym (lookup_end map other hash fuel index offset (ground arith)) ∙ found),
            ))
        | inl inside ↦
            let k : offset < map.capacity = ground arith in
            let before = sym (lookup_round map other hash fuel index offset v h k) ∙ found in
            let after =
              lookup_round map' other hash fuel index offset (with_entry-IsTable map i n e v) h k in
            let there = get_or-set map.table i index e no_entry (omega arith) in
            elim (Verdict-cases (judge map.key_compare other hash (entry map index))) [
              | inl hit ↦
                  let same : index ≡ j =
                    ap (λ r. slot_or (slot_of r) 0)
                      (ap (λ w. follow w index rest) (sym hit) ∙ before) in
                  let apart : (i == index) ≡ false = elim (Bool-cases (i == index)) [
                    | inr apart ↦ apart
                    | inl equal ↦
                        let e : i ≡ index = ground arith in
                        absurd (
                          judge-unavailable map.key_compare other hash (entry map index)
                            (ap (λ m. is_available (entry map m).state) (sym e) ∙ free) hit)
                  ] in
                  let unchanged : entry map' index ≡ entry map index = there ∙ rw apart refl in
                  (
                    after
                        ∙ ap (λ f. follow (judge map.key_compare other hash f) index rest')
                            unchanged
                        ∙ ap (λ w. follow w index rest') hit
                        ∙ ap (λ m. ok (some m)) same,
                    subst (λ m. m < map.capacity) same h,
                    subst (λ m. judge map.key_compare other hash (entry map m) ≡ here) same hit,
                  )
              | inr (inl miss) ↦ absurd (
                  ground (
                    arith,
                    ap (λ r. is_some (slot_of r))
                        (ap (λ w. follow w index rest) (sym miss) ∙ before),
                  ))
              | inr (inr go_on) ↦
                  let found' : rest ≡ ok (some j) =
                    ap (λ w. follow w index rest) (sym go_on) ∙ before in
                  let (again, inside', hit) =
                    kept fuel next ((offset + 2) % u32) j
                      (mask-less map.capacity ((index + offset) % u32) (omega arith) most) found' in
                  let go_on' : judge map.key_compare other hash (entry map' index) ≡ further =
                    elim (Bool-cases (i == index)) [
                      | inr apart ↦
                          let unchanged : entry map' index ≡ entry map index =
                            there ∙ rw apart refl in
                          ap (judge map.key_compare other hash) unchanged ∙ go_on
                      | inl equal ↦
                          let changed : entry map' index ≡ e = there ∙ rw equal refl in
                          ap (judge map.key_compare other hash) changed
                          ∙ (elim (judge-available map.key_compare other hash e held) [
                            | inl hit' ↦ absurd (differs hit')
                            | inr on ↦ on
                          ])
                    ] in
                  (after ∙ ap (λ w. follow w index rest') go_on' ∙ again, inside', hit)
            ]
      ]

-- An entry of one key is not taken for another key.
pub judge-other :
    (cmp : Comparison) (key hash : ℕ) (e : Entry)
    → is_eq (cmp e.key key) ≡ false
    → is_available e.state ≡ true
    → judge cmp key hash e ≢ here
unfolding judge
judge-other cmp key hash e differs held = by_state e.state held (Bool-cases (e.hash == hash))
  where
    not_here : Verdict → Bool
    not_here here = false
    not_here nowhere = true
    not_here further = true

    by_state :
        (s : State)
        → is_available s ≡ true
        → ((e.hash == hash) ≡ true) ⊎ ((e.hash == hash) ≡ false)
        → judge cmp key hash (record e { state = s }) ≢ here
    by_state State.empty a h k = absurd (ground (arith, a))
    by_state State.removed a h k = absurd (ground (arith, a))
    by_state available a (inr apart) k =
        let further' : judge cmp key hash (record e { state = available }) ≡ further =
          rw apart refl in
        absurd (ground (arith, ap not_here (sym further' ∙ k)))
    by_state available a (inl equal) k =
        let further' : judge cmp key hash (record e { state = available }) ≡ further =
          rw (equal, differs) refl in
        absurd (ground (arith, ap not_here (sym further' ∙ k)))

module _ (map : Map) (key datum other : ℕ) (v : IsTable map)
    (same : is_eq (map.key_compare key key) ≡ true) (absent : Absent map key)
    (differs : is_eq (map.key_compare key other) ≡ false) where
  -- map_insert of a key that no entry has, on a map that does not grow, leaves what map_retrieve
  -- gives for another key that map_lookup finds.
  pub map_retrieve-map_insert_other :
      (fuel j : ℕ) (mem : Allocator)
      → (map.static_size ≡ true) ⊎ (map_should_grow map ≡ false)
      → map_lookup map other ≡ ok (some j)
      → Returns
          (λ r. map_retrieve r.1 other ≡ map_retrieve map other)
          (map_insert (suc fuel) mem map key datum)
  unfolding map_lookup
  map_retrieve-map_insert_other fuel j mem calm found =
      Returns-mono (map_insert-Inserted map key datum v same absent fuel mem calm) λ r q. elim q [
        | inr refused ↦ ap (λ p. map_retrieve p.1 other) refused
        | inl p ↦
            let inside = p.inside in
            let as_big : r.1.capacity ≡ map.capacity = ap (λ m. m.capacity) p.result in
            ap (λ m. map_retrieve m other) p.result
            ∙ after p.slot ((map.size + 1) % u32) (omega arith) p.free_before
      ]
    where
      after :
          (i n : ℕ)
          → i < map.capacity
          → is_available (entry map i).state ≡ false
          → map_retrieve (with_entry map i (new_entry map key datum) n) other
            ≡ map_retrieve map other
      after i n hi free =
          let new = new_entry map key datum in
          let map' = with_entry map i new n in
          let most = v.most_capacity in
          let least = v.least_capacity in
          let block = v.block in
          let hash = map.key_hash other in
          let (again, inside, hit) =
            kept map i other n new v hi free refl
              (judge-other map.key_compare other hash new differs refl) map.capacity
              (mask map.capacity hash) 1 j (mask-less map.capacity hash (omega arith) most) found in
          let apart : (i == j) ≡ false = elim (Bool-cases (i == j)) [
            | inr apart ↦ apart
            | inl equal ↦
                let e : i ≡ j = ground arith in
                absurd (
                  judge-unavailable map.key_compare other hash (entry map j)
                    (ap (λ m. is_available (entry map m).state) (sym e) ∙ free) hit)
          ] in
          let unchanged : entry map' j ≡ entry map j =
            get_or-set map.table i j new no_entry (omega arith) ∙ rw apart refl in
          retrieve_found map' other j (entry map j) (with_entry-IsTable map i n new v) inside again
            unchanged
          ∙ sym (retrieve_found map other j (entry map j) v inside found refl)
