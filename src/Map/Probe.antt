-- ===== src/Map/Probe.antt =====
-- The probe loops of map_insert and map_lookup, which visit the same slots.
use libvci.Base.{
  ℕ, zero, suc, ◌+◌, ◌*◌, ◌%◌, ◌^◌, ◌≤◌, ◌<◌, ◌≡◌, ◌≢◌, ◌⊎◌, ◌∙◌, refl, sym, ap, subst, inl, inr,
  arith, Comparison, true, false, is_eq, length, set, get_or, get_elem?-get_or, get_or-set,
  length-set, ltb, ◌==◌, Bool-cases, Option, none, some, u32, ok, Returns, Returns-mono,
  Returns-of_eq,
}
use libvci.Map.{
  Map, Entry, State, empty, available, removed, no_entry, is_available, entry_at, mask, here,
  further, judge, follow, lookup_loop, slot_loop,
}
use libvci.Map.Mask.{mask-less}

-- A table of `capacity` entries.
pub record IsTable (map : Map) : Type 0 where
  pub block : length map.table ≡ map.capacity
  pub least_capacity : 32 ≤ map.capacity
  pub most_capacity : map.capacity ≤ 2 ^ 31

abbrev pub entry : Map → ℕ → Entry
entry map i = get_or map.table i no_entry

-- No entry of the table is taken for one of the key.
abbrev pub Absent : Map → ℕ → Type 0
Absent map key =
    (i : ℕ) → i < map.capacity → judge map.key_compare key (map.key_hash key) (entry map i) ≢ here

pub entry_at-ok :
    (map : Map) (i : ℕ) → IsTable map → i < map.capacity → entry_at map.table i ≡ ok (entry map i)
unfolding entry_at
entry_at-ok map i v h =
    let block = v.block in rw (get_elem?-get_or map.table i no_entry (omega arith), entry_at) refl

-- The table with a new entry.
abbrev pub with_entry : Map → ℕ → Entry → ℕ → Map
with_entry map i e n = record map { table = set map.table i e; size = n }

pub with_entry-IsTable :
    (map : Map) (i n : ℕ) (e : Entry) → IsTable map → IsTable (with_entry map i e n)
with_entry-IsTable map i n e v = record {
  block = length-set map.table i e ∙ v.block;
  least_capacity = v.least_capacity;
  most_capacity = v.most_capacity;
}

-- The entry that map_insert writes.
abbrev pub new_entry : Map → ℕ → ℕ → Entry
new_entry map key datum = record {
  key = key;
  value = datum;
  hash = map.key_hash key;
  state = available;
}

judge-new :
    (map : Map) (key datum : ℕ)
    → is_eq (map.key_compare key key) ≡ true
    → judge map.key_compare key (map.key_hash key) (new_entry map key datum) ≡ here
unfolding judge
judge-new map key datum same =
    let hashes : (map.key_hash key == map.key_hash key) ≡ true = ground arith in
    rw (hashes, same) refl

pub judge-available :
    (cmp : Comparison) (key hash : ℕ) (e : Entry)
    → is_available e.state ≡ true
    → (judge cmp key hash e ≡ here) ⊎ (judge cmp key hash e ≡ further)
unfolding judge
judge-available cmp key hash e a =
    by_state e.state a (Bool-cases (e.hash == hash)) (Bool-cases (is_eq (cmp e.key key)))
  where
    by_state :
        (s : State)
        → is_available s ≡ true
        → ((e.hash == hash) ≡ true) ⊎ ((e.hash == hash) ≡ false)
        → (is_eq (cmp e.key key) ≡ true) ⊎ (is_eq (cmp e.key key) ≡ false)
        → (judge cmp key hash (record e { state = s }) ≡ here)
          ⊎ (judge cmp key hash (record e { state = s }) ≡ further)
    by_state empty a h k = absurd (ground (arith, a))
    by_state removed a h k = absurd (ground (arith, a))
    by_state available a (inr other) k = inr (rw other refl)
    by_state available a (inl equal) (inl match) = inl (rw (equal, match) refl)
    by_state available a (inl equal) (inr differs) = inr (rw (equal, differs) refl)

-- One round of each loop.
lookup_here :
    (map : Map) (key hash fuel index offset : ℕ) (e : Entry)
    → offset < map.capacity
    → entry_at map.table index ≡ ok e
    → judge map.key_compare key hash e ≡ here
    → lookup_loop (suc fuel) map key hash index offset ≡ ok (some index)
unfolding lookup_loop follow
lookup_here map key hash fuel index offset e h a j =
    let goes : ltb offset map.capacity ≡ true = ground arith in rw (goes, a, j) refl

lookup_further :
    (map : Map) (key hash fuel index offset : ℕ) (e : Entry)
    → offset < map.capacity
    → entry_at map.table index ≡ ok e
    → judge map.key_compare key hash e ≡ further
    → lookup_loop (suc fuel) map key hash index offset
      ≡ lookup_loop fuel map key hash
          (mask map.capacity ((index + offset) % u32))
          ((offset + 2) % u32)
unfolding lookup_loop follow
lookup_further map key hash fuel index offset e h a j =
    let goes : ltb offset map.capacity ≡ true = ground arith in rw (goes, a, j) refl

slot_free :
    (map : Map) (fuel index offset : ℕ) (e : Entry)
    → offset < map.capacity
    → entry_at map.table index ≡ ok e
    → is_available e.state ≡ false
    → slot_loop (suc fuel) map index offset ≡ ok (some index)
unfolding slot_loop
slot_free map fuel index offset e h a s =
    let goes : ltb offset map.capacity ≡ true = ground arith in rw (goes, a, s) refl

slot_taken :
    (map : Map) (fuel index offset : ℕ) (e : Entry)
    → offset < map.capacity
    → entry_at map.table index ≡ ok e
    → is_available e.state ≡ true
    → slot_loop (suc fuel) map index offset
      ≡ slot_loop fuel map (mask map.capacity ((index + offset) % u32)) ((offset + 2) % u32)
unfolding slot_loop
slot_taken map fuel index offset e h a s =
    let goes : ltb offset map.capacity ≡ true = ground arith in rw (goes, a, s) refl

slot_end :
    (map : Map) (fuel index offset : ℕ)
    → map.capacity ≤ offset
    → slot_loop (suc fuel) map index offset ≡ ok none
unfolding slot_loop
slot_end map fuel index offset h =
    let stops : ltb offset map.capacity ≡ false = ground arith in rw stops refl

-- A slot that map_insert may use, and that map_lookup comes to, once the entry is there.
abbrev pub Reached : Map → ℕ → ℕ → (fuel index offset : ℕ) → Option ℕ → Type 0
Reached map key datum fuel index offset s =
    (s ≡ none)
    ⊎ ((i : ℕ) × (s ≡ some i)
        × (i < map.capacity)
        × (is_available (entry map i).state ≡ false)
        × ((n : ℕ)
            → lookup_loop fuel (with_entry map i (new_entry map key datum) n) key (map.key_hash key)
                index offset
              ≡ ok (some i)))

module _ (map : Map) (key datum : ℕ) (v : IsTable map)
    (same : is_eq (map.key_compare key key) ≡ true) (absent : Absent map key) where
  at_slot :
      (fuel index offset n : ℕ)
      → index < map.capacity
      → offset < map.capacity
      → lookup_loop
          (suc fuel)
          (with_entry map index (new_entry map key datum) n)
          key
          (map.key_hash key)
          index
          offset
        ≡ ok (some index)
  at_slot fuel index offset n h k =
      let block = v.block in
      let new = new_entry map key datum in
      let map' = with_entry map index new n in
      let equal : (index == index) ≡ true = ground arith in
      let there : entry map' index ≡ new =
        get_or-set map.table index index new no_entry (omega arith) ∙ rw equal refl in
      lookup_here map' key (map.key_hash key) fuel index offset new k
        (entry_at-ok map' index (with_entry-IsTable map index n new v) h ∙ ap ok there)
        (judge-new map key datum same)

  past_slot :
      (fuel index offset i n : ℕ)
      → index < map.capacity
      → i < map.capacity
      → offset < map.capacity
      → is_available (entry map index).state ≡ true
      → is_available (entry map i).state ≡ false
      → lookup_loop
          (suc fuel)
          (with_entry map i (new_entry map key datum) n)
          key
          (map.key_hash key)
          index
          offset
        ≡ lookup_loop fuel
            (with_entry map i (new_entry map key datum) n)
            key
            (map.key_hash key)
            (mask map.capacity ((index + offset) % u32))
            ((offset + 2) % u32)
  past_slot fuel index offset i n h hi k taken free =
      let block = v.block in
      let new = new_entry map key datum in
      let map' = with_entry map i new n in
      let apart : (i == index) ≡ false = elim (Bool-cases (i == index)) [
        | inr other ↦ other
        | inl equal ↦
            let e : index ≡ i = ground arith in
            absurd (ground (arith, sym taken ∙ ap (λ j. is_available (entry map j).state) e ∙ free))
      ] in
      let kept : entry map' index ≡ entry map index =
        get_or-set map.table i index new no_entry (omega arith) ∙ rw apart refl in
      let verdict : judge map.key_compare key (map.key_hash key) (entry map index) ≡ further =
        elim (judge-available map.key_compare key (map.key_hash key) (entry map index) taken) [
          | inl hit ↦ absurd (absent index h hit)
          | inr go_on ↦ go_on
        ] in
      lookup_further map' key (map.key_hash key) fuel index offset (entry map index) k
        (entry_at-ok map' index (with_entry-IsTable map i n new v) h ∙ ap ok kept) verdict

  pub slot_loop-Reached :
      (fuel index offset : ℕ)
      → index < map.capacity
      → offset ≤ map.capacity + 1
      → map.capacity + 2 ≤ offset + 2 * fuel
      → Returns (Reached map key datum fuel index offset) (slot_loop fuel map index offset)
  slot_loop-Reached zero index offset h k f = absurd (omega arith)
  slot_loop-Reached (suc fuel) index offset h k f =
      let most = v.most_capacity in
      let least = v.least_capacity in
      let a = entry_at-ok map index v h in
      elim (Bool-cases (ltb offset map.capacity)) [
        | inr over ↦ Returns-of_eq (slot_end map fuel index offset (ground arith)) (inl refl)
        | inl inside ↦
            let k' : offset < map.capacity = ground arith in
            elim (Bool-cases (is_available (entry map index).state)) [
              | inr free ↦
                  Returns-of_eq (slot_free map fuel index offset (entry map index) k' a free)
                    (inr (index, refl, h, free, λ n. at_slot fuel index offset n h k'))
              | inl taken ↦
                  let step : (offset + 2) % u32 ≡ offset + 2 = omega arith in
                  let next = mask map.capacity ((index + offset) % u32) in
                  let rest =
                    slot_loop-Reached fuel next (offset + 2)
                      (mask-less map.capacity ((index + offset) % u32) (omega arith) most)
                      (omega arith) (omega arith) in
                  subst (Returns (Reached map key datum (suc fuel) index offset))
                    (sym (
                      slot_taken map fuel index offset (entry map index) k' a taken
                      ∙ ap (slot_loop fuel map next) step))
                    (Returns-mono rest λ s r. elim r [
                      | inl none_left ↦ inl none_left
                      | inr (i, e, hi, free, found) ↦ inr (
                        i,
                        e,
                        hi,
                        free,
                        λ n.
                            past_slot fuel index offset i n h hi k' taken free
                            ∙ ap
                                (lookup_loop fuel (with_entry map i (new_entry map key datum) n) key
                                  (map.key_hash key) next)
                                step
                            ∙ found n,
                      )
                    ])
            ]
      ]
