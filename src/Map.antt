-- ===== src/Map.antt =====
-- src/lib/container/map.c, include/map.h: a hash table with open addressing.
pub mod Mask
pub mod Probe
pub mod Fresh
pub mod Missing
pub mod Insert
pub mod Others
mod Tests
use Prim.Native.Nat.{bit_and}
use libvci.Base.{
  ℕ, zero, suc, ◌+◌, ◌-◌, ◌*◌, ◌/◌, ◌%◌, max, Comparison, is_eq, Bool, true, false, not, ◌&&◌,
  Option, none, some, List, [], ◌∷◌, length, get_elem?, set, replicate, ltb, leb, ◌==◌,
  if◌then◌else◌, u32, Run, ok, fault, out_of_fuel, ◌>>=◌, Code, success, failure, enomem, ebadslt,
  Allocator,
}
use libvci.Nice.{get_nice_size}

-- enum map_data_state
pub data State : Type 0 where
  empty : State
  available : State
  removed : State

pub record Entry : Type 0 where
  pub key : ℕ
  pub value : ℕ
  pub hash : ℕ
  pub state : State

pub record MapConfig : Type 0 where
  pub config_size : ℕ
  pub config_lower_bound : ℕ
  pub config_upper_bound : ℕ
  pub config_static_size : Bool
  pub config_key_compare : Comparison
  pub config_key_hash : ℕ → ℕ
  pub config_data_delete : Option ℕ

pub record Map : Type 0 where
  pub table : List Entry
  pub size : ℕ
  pub capacity : ℕ
  pub lower_bound : ℕ
  pub upper_bound : ℕ
  pub static_size : Bool
  pub key_compare : Comparison
  pub key_hash : ℕ → ℕ
  pub data_delete : Option ℕ

abbrev pub default_size : ℕ
default_size = 32

-- An entry of calloc or memset.
abbrev pub no_entry : Entry
no_entry = record { key = 0; value = 0; hash = 0; state = empty }

abbrev pub is_available : State → Bool
is_available available = true
is_available empty = false
is_available removed = false

-- `map->table[i]`, and the assignment to it.
pub entry_at : List Entry → ℕ → Run Entry
entry_at table i = elim (get_elem? table i) [ none ↦ fault | some e ↦ ok e ]

pub entry_put : List Entry → ℕ → Entry → Run (List Entry)
entry_put table i e = if ltb i (length table) then ok (set table i e) else fault

-- The division by a capacity of 0 does not occur, since every capacity is at least 32.
pub map_load : Map → ℕ
map_load map = ((100 * map.size) % u32) / map.capacity

pub map_should_grow : Map → Bool
map_should_grow map = leb map.upper_bound (map_load map)

pub map_should_shrink : Map → Bool
map_should_shrink map = ltb (map_load map) map.lower_bound

-- `index & (map->capacity - 1)`
pub mask : ℕ → ℕ → ℕ
mask capacity index = bit_and index ((capacity + u32 - 1) % u32)

-- What the `switch` of map_lookup makes of an entry.
pub data Verdict : Type 0 where
  here : Verdict
  nowhere : Verdict
  further : Verdict

pub judge : Comparison → ℕ → ℕ → Entry → Verdict
judge cmp key hash e = elim e.state [
  | empty ↦ nowhere
  | available ↦
      if not (e.hash == hash) then further else if is_eq (cmp e.key key) then here else further
  | removed ↦ further
]

-- The way out of the `switch`, where `rest` is the next round.
pub follow : Verdict → ℕ → Run (Option ℕ) → Run (Option ℕ)
follow here index rest = ok (some index)
follow nowhere index rest = ok none
follow further index rest = rest

-- The `while(offset < map->capacity)` of map_lookup: the index of the entry, or `none` for NULL.
pub lookup_loop : ℕ → Map → ℕ → ℕ → ℕ → ℕ → Run (Option ℕ)
lookup_loop zero map key hash index offset = out_of_fuel
lookup_loop (suc fuel) map key hash index offset =
    let rest =
      lookup_loop fuel map key hash (mask map.capacity ((index + offset) % u32))
        ((offset + 2) % u32) in
    let step =
      entry_at map.table index >>= λ e. follow (judge map.key_compare key hash e) index rest in
    if ltb offset map.capacity then step else ok none

-- `offset` grows by 2, so `capacity` rounds are enough.
pub map_lookup : Map → ℕ → Run (Option ℕ)
map_lookup map key =
    let hash = map.key_hash key in lookup_loop map.capacity map key hash (mask map.capacity hash) 1

-- The `while(offset < map->capacity)` of map_insert: the index of the slot, or `none` at the end.
pub slot_loop : ℕ → Map → ℕ → ℕ → Run (Option ℕ)
slot_loop zero map index offset = out_of_fuel
slot_loop (suc fuel) map index offset =
    let rest =
      slot_loop fuel map (mask map.capacity ((index + offset) % u32)) ((offset + 2) % u32) in
    let step =
      entry_at map.table index >>= λ e. if is_available e.state then rest else ok (some index) in
    if ltb offset map.capacity then step else ok none

-- What map_insert writes to the slot.
pub fill : Map → ℕ → ℕ → ℕ → Option ℕ → Run (Code × Map)
fill map key hash datum none = ok (failure ebadslt, map)
fill map key hash datum (some index) = do
  t ←
      entry_put map.table index
        (record { key = key; value = datum; hash = hash; state = available })
  ok (success, record map { table = t; size = (map.size + 1) % u32 })

-- The part of map_insert behind the growth.
pub place : Map → ℕ → ℕ → Run (Code × Map)
place map key datum =
    let hash = map.key_hash key in
    slot_loop map.capacity map (mask map.capacity hash) 1 >>= λ slot. fill map key hash datum slot

-- The `for` of map_resize over the old table, by the given map_insert.
pub reinsert : (Map → ℕ → ℕ → Run (Code × Map)) → List Entry → Map → Run (Code × Map)
reinsert insert [] map = ok (success, map)
reinsert insert (e ∷ old) map =
    let skip = reinsert insert old map in
    let go = insert map e.key e.value >>= λ r. elim r.0 [
      | success ↦ reinsert insert old r.1
      | failure err ↦ ok (failure err, r.1)
    ] in
    if is_available e.state then go else skip

-- map_resize, which calls map_insert.
pub map_resize : (Map → ℕ → ℕ → Run (Code × Map)) → Allocator → Map → ℕ → Run (Code × Map)
map_resize insert mem map capacity =
    let capacity' = max capacity default_size in
    let fresh = record map {
      size = 0;
      capacity = capacity';
      table = replicate capacity' no_entry;
    } in
    if mem.grants capacity'
    then (reinsert insert map.table fresh >>= λ r. elim r.0 [
      | success ↦ ok (success, r.1)
      | failure err ↦
          ok (
            failure err,
            record r.1 { size = map.size; capacity = map.capacity; table = map.table },
          )
    ])
    else ok (failure enomem, map)

abbrev pub is_badslt : Code → Bool
is_badslt (failure ebadslt) = true
is_badslt _ = false

-- The `do ... while(err == -EBADSLT)` of map_insert, whose result is not used.
pub grow_loop : ℕ → (Map → ℕ → ℕ → Run (Code × Map)) → Allocator → Map → ℕ → Run Map
grow_loop zero insert mem map capacity = out_of_fuel
grow_loop (suc fuel) insert mem map capacity = do
  (code, map') ← map_resize insert mem map capacity
  let again = grow_loop fuel insert mem map' ((capacity * 2) % u32)
  if is_badslt code then again else ok map'

-- map_insert; `fuel` bounds how deep map_insert and map_resize call each other, and the rounds of
-- the growth.
pub map_insert : ℕ → Allocator → Map → ℕ → ℕ → Run (Code × Map)
map_insert zero mem map key datum = out_of_fuel
map_insert (suc fuel) mem map key datum =
    let grown = grow_loop fuel (map_insert fuel mem) mem map ((map.capacity * 2) % u32) in
    if not map.static_size && map_should_grow map
    then (grown >>= λ map'. place map' key datum)
    else place map key datum

-- The members that map_init sets once it has a table.
pub blank : MapConfig → ℕ → Map
blank conf size = record {
  table = replicate size no_entry;
  size = 0;
  capacity = size;
  lower_bound = conf.config_lower_bound;
  upper_bound = conf.config_upper_bound;
  static_size = conf.config_static_size;
  key_compare = conf.config_key_compare;
  key_hash = conf.config_key_hash;
  data_delete = conf.config_data_delete;
}

-- map_init; `none` leaves the caller's struct without a table.
pub map_init : Allocator → MapConfig → Run (Code × Option Map)
map_init mem conf = do
  size ← get_nice_size ((conf.config_size * 2) % u32) default_size
  ok (if mem.grants size then (success, some (blank conf size)) else (failure enomem, none))

-- map_new, with the 7 words of the struct; `none` is NULL.
pub map_new : Allocator → MapConfig → Run (Option Map)
map_new mem conf = if mem.grants 7 then (map_init mem conf >>= λ r. ok (r.1)) else ok none

-- The `for` of map_clear: the data handed to `data_delete`, and the table.
pub clear_loop : List Entry → List ℕ × List Entry
clear_loop [] = ([], [])
clear_loop (e ∷ table) =
    let (deleted, cleared) = clear_loop table in
    if is_available e.state
    then (e.value ∷ deleted, record e { state = empty } ∷ cleared)
    else (deleted, e ∷ cleared)

pub clear_with : Option ℕ → Map → List ℕ × Map
clear_with none map = ([], record map { table = replicate map.capacity no_entry; size = 0 })
clear_with (some _) map =
    let (deleted, cleared) = clear_loop map.table in
    (deleted, record map { table = cleared; size = 0 })

pub map_clear : Map → List ℕ × Map
map_clear map = clear_with map.data_delete map

-- map_destroy gives the table back; what is left is the list of deleted data.
pub map_destroy : Map → List ℕ
map_destroy map = (map_clear map).0

pub map_delete : Map → List ℕ
map_delete map = map_destroy map

pub map_rehash : ℕ → Allocator → Map → ℕ → Run (Code × Map)
map_rehash fuel mem map size = do
  size' ← get_nice_size ((((size + map.size) % u32) * 2) % u32) default_size
  if size' == map.capacity
      then ok (success, map)
      else map_resize (map_insert fuel mem) mem map size'

-- map_retrieve, with 0 for NULL.
pub map_retrieve : Map → ℕ → Run ℕ
map_retrieve map key =
    map_lookup map key
    >>= elim [ none ↦ ok 0 | some index ↦ entry_at map.table index >>= λ e. ok (e.value) ]

-- The part of map_take that takes the entry out of the table.
pub erase : Map → ℕ → Run (ℕ × Map)
erase map index = do
  e ← entry_at map.table index
  t ← entry_put map.table index (record e { state = removed })
  ok (e.value, record map { table = t; size = (map.size + u32 - 1) % u32 })

-- The resize at the end of map_take, whose result is not used.
pub shrink : ℕ → Allocator → Map → Run Map
shrink fuel mem map =
    let smaller = map_resize (map_insert fuel mem) mem map (map.capacity / 4) >>= λ r. ok (r.1) in
    if not map.static_size && map_should_shrink map then smaller else ok map

-- map_take, with 0 for NULL.
pub map_take : ℕ → Allocator → Map → ℕ → Run (ℕ × Map)
map_take fuel mem map key = map_lookup map key >>= elim [
  | none ↦ ok (0, map)
  | some index ↦ erase map index >>= λ r. shrink fuel mem r.1 >>= λ map'. ok (r.0, map')
]

pub map_contains : Map → ℕ → Run Bool
map_contains map key = map_lookup map key >>= elim [ none ↦ ok false | some _ ↦ ok true ]

pub map_size : Map → ℕ
map_size map = map.size

pub map_empty : Map → Bool
map_empty map = map.size == 0

pub map_set_static_size : Map → Bool → Map
map_set_static_size map static_size = record map { static_size = static_size }

pub map_static_size : Map → Bool
map_static_size map = map.static_size

pub entry_key : Entry → ℕ
entry_key e = e.key

pub entry_data : Entry → ℕ
entry_data e = e.value
