-- ===== src/Links/Tests.antt =====
-- The linked list's theorems at concrete rings.
use libvci.Base.{
  ℕ, ◌+◌, ◌≡◌, refl, ◌≢◌, ◌⊎◌, arith, [], ◌∷◌, Option, none, some, ok, ◌==◌, if◌then◌else◌,
}
use libvci.Links.{Links, list_back, list_insert, list_take, list_clear, list_init, list_merge}
use libvci.Links.Chain.{IsRing}
use libvci.Links.Insert.{list_insert-after}
use libvci.Links.Take.{list_take-remove}
use libvci.Links.Walk.{list_clear-all}
use libvci.Links.Merge.{Forward, list_merge-loses}

-- Sentinel 1 with nodes 2, 3 and 4, and sentinel 11 with nodes 12 and 13; 5 is no one's node, and
-- 6 is an empty list.
abbrev after : ℕ → ℕ
after n = if n == 4 then 1 else if n == 13 then 11 else if n == 6 then 6 else n + 1

abbrev before : ℕ → ℕ
before n =
    if n == 1
    then 4
    else if n == 11
    then 13
    else if n == 6
    then 6
    else if n == 2
    then 1
    else if n == 3
    then 2
    else if n == 4
    then 3
    else if n == 12
    then 11
    else 12

abbrev links : Links
links = record { prev = before; next = after }

three-IsRing : IsRing links 1 (2 ∷ 3 ∷ 4 ∷ [])
three-IsRing = record {
  chain = (refl, refl, (refl, refl, (refl, refl, (refl, refl))));
  apart = omega arith;
  distinct = omega arith;
}

two-IsRing : IsRing links 11 (12 ∷ 13 ∷ [])
two-IsRing = record {
  chain = (refl, refl, (refl, refl, (refl, refl)));
  apart = omega arith;
  distinct = omega arith;
}

none-IsRing : IsRing links 6 []
none-IsRing = record { chain = (refl, refl); apart = tt; distinct = tt }

list_insert-after_example : IsRing (list_insert links 3 5) 1 (2 ∷ 3 ∷ 5 ∷ 4 ∷ [])
list_insert-after_example =
    list_insert-after links 1 (2 ∷ []) 3 (4 ∷ []) 5 three-IsRing (omega arith) (omega arith)

list_take-remove_example : IsRing (list_take links 3) 1 (2 ∷ 4 ∷ [])
list_take-remove_example = list_take-remove links 1 (2 ∷ []) 3 (4 ∷ []) three-IsRing

abbrev deleter : Option ℕ
deleter = some 7

list_clear-all_example :
    ((deleter ≡ none)
      × (list_clear 4 links 1 deleter ≡ ok ([], list_init links 1))
      × IsRing (list_init links 1) 1 [])
    ⊎ ((list_clear 4 links 1 deleter ≡ ok (2 ∷ 3 ∷ 4 ∷ [], links)) × (deleter ≢ none))
list_clear-all_example =
    list_clear-all 4 links 1 (2 ∷ 3 ∷ 4 ∷ []) deleter three-IsRing (omega arith)

list_merge-loses_example :
    Forward (list_merge links 1 11).next 1 (12 ∷ 13 ∷ []) 1
    × (list_back (list_merge links 1 11) 1 ≡ list_back links 1)
list_merge-loses_example =
    list_merge-loses links 1 11 12 (13 ∷ []) two-IsRing (omega arith) (omega arith) 2 (3 ∷ 4 ∷ [])
      three-IsRing
