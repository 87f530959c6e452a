-- ===== src/Vector/Tests.antt =====
-- Runs of the vector, and its theorems at concrete vectors.
use libvci.Base.{
  ℕ, zero, suc, ◌-◌, ◌<◌, ◌≡◌, refl, ◌⊎◌, arith, compare, true, false, none, some, [], ◌∷◌, get_or,
  length, ok, fault, Allocator, Returns, load, move,
}
use libvci.Vector.{
  Vector, matches, vector_insert_at, vector_take_at, vector_take_all, vector_insert_sorted,
  vector_index_of_sorted, take_all_loop,
}
use libvci.Vector.Slots.{remove_slot}
use libvci.Vector.Valid.{IsValid, items}
use libvci.Vector.Change.{Inserted, Refused, vector_insert_at-Inserted, vector_take_at-remove}
use libvci.Vector.Thin.{thin, vector_take_all-thin}
use libvci.Vector.Sorted.{IsSorted}
use libvci.Vector.InsertSorted.{InsertedSorted, vector_insert_sorted-IsSorted}
use libvci.Vector.SortedSearch.{Found, vector_index_of_sorted-Found, vector_index_of_sorted-fault}

abbrev generous : Allocator
generous = record { grants = λ n. true; junk = λ i. 99 }

-- Eight slots, of which four are live, with the pointers themselves compared.
abbrev four : Vector
four = record {
  data_compare = none;
  data_delete = none;
  data_words = 5 ∷ 6 ∷ 6 ∷ 9 ∷ 0 ∷ 0 ∷ 0 ∷ 0 ∷ [];
  size = 4;
  capacity = 8;
}

four-IsValid : IsValid four
four-IsValid = record {
  bounded = omega arith;
  block = refl;
  least_capacity = omega arith;
  most_capacity = omega arith;
}

-- The same slots under a comparison.
abbrev ordered : Vector
ordered = record four { data_compare = some compare }

ordered-IsValid : IsValid ordered
ordered-IsValid = record {
  bounded = omega arith;
  block = refl;
  least_capacity = omega arith;
  most_capacity = omega arith;
}

ordered-IsSorted : IsSorted (λ n. n) (length (items ordered)) (items ordered)
ordered-IsSorted zero zero h k = omega arith
ordered-IsSorted zero (suc zero) h k = omega arith
ordered-IsSorted zero (suc (suc zero)) h k = omega arith
ordered-IsSorted zero (suc (suc (suc zero))) h k = omega arith
ordered-IsSorted (suc zero) (suc zero) h k = omega arith
ordered-IsSorted (suc zero) (suc (suc zero)) h k = omega arith
ordered-IsSorted (suc zero) (suc (suc (suc zero))) h k = omega arith
ordered-IsSorted (suc (suc zero)) (suc (suc zero)) h k = omega arith
ordered-IsSorted (suc (suc zero)) (suc (suc (suc zero))) h k = omega arith
ordered-IsSorted (suc (suc (suc zero))) (suc (suc (suc zero))) h k = omega arith
ordered-IsSorted i (suc (suc (suc (suc j)))) h k = absurd (omega arith)
ordered-IsSorted (suc i) zero h k = absurd (omega arith)
ordered-IsSorted (suc (suc i)) (suc zero) h k = absurd (omega arith)
ordered-IsSorted (suc (suc (suc i))) (suc (suc zero)) h k = absurd (omega arith)
ordered-IsSorted (suc (suc (suc (suc i)))) (suc (suc (suc zero))) h k = absurd (omega arith)

-- The second 6 of the four stays.
take_all_result :
    vector_take_all four 6
    ≡ ok (record four { data_words = 5 ∷ 6 ∷ 9 ∷ 9 ∷ 0 ∷ 0 ∷ 0 ∷ 0 ∷ []; size = 3 })
unfolding vector_take_all take_all_loop vector_take_at load move matches
take_all_result = refl

vector_insert_at-Inserted_example :
    Returns
      (λ r. Inserted four 1 7 r ⊎ Refused generous four r)
      (vector_insert_at generous four 1 7)
vector_insert_at-Inserted_example =
    vector_insert_at-Inserted generous four 1 7 four-IsValid (omega arith) (λ h. omega arith)

vector_take_at-remove_example :
    Returns
      (λ r.
        (r.0 ≡ get_or (items four) 1 0)
        × IsValid r.1
        × (items r.1 ≡ remove_slot (items four) 1)
        × (r.1.data_compare ≡ four.data_compare)
        × (r.1.size ≡ four.size - 1))
      (vector_take_at four 1)
vector_take_at-remove_example = vector_take_at-remove four 1 four-IsValid (omega arith)

vector_take_all-thin_example :
    Returns
      (λ r. IsValid r × (items r ≡ thin (λ x. matches four.data_compare x 6) false (items four)))
      (vector_take_all four 6)
vector_take_all-thin_example = vector_take_all-thin four 6 four-IsValid

vector_insert_sorted-IsSorted_example :
    Returns
      (λ r. InsertedSorted (λ n. n) ordered 7 r ⊎ Refused generous ordered r)
      (vector_insert_sorted generous ordered 7)
vector_insert_sorted-IsSorted_example =
    vector_insert_sorted-IsSorted (λ n. n) compare (λ a b. refl) generous ordered 7 ordered-IsValid
      refl ordered-IsSorted (λ h. omega arith)

vector_index_of_sorted-Found_example :
    Returns (Found (λ n. n) 4 (items ordered) 9) (vector_index_of_sorted ordered 9)
vector_index_of_sorted-Found_example =
    vector_index_of_sorted-Found (λ n. n) compare (λ a b. refl) ordered 9 ordered-IsValid refl
      ordered-IsSorted (omega arith)

above : (j : ℕ) → j < 4 → 3 < get_or (items ordered) j 0
above j h = omega (arith, ordered-IsSorted 0 j (omega arith) h)

vector_index_of_sorted-fault_example : vector_index_of_sorted ordered 3 ≡ fault
vector_index_of_sorted-fault_example =
    vector_index_of_sorted-fault (λ n. n) compare (λ a b. refl) ordered 3 ordered-IsValid refl
      (omega arith) (omega arith) above
