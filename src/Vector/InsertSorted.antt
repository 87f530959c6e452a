-- ===== src/Vector/InsertSorted.antt =====
-- vector_insert_sorted on a sorted vector.
use native.Mathlib.Nat.{pow-suc}
use native.Mathlib.Decide.{dec_lt}
use libvci.Base.{
  ℕ, zero, suc, ◌-◌, ◌*◌, ◌^◌, ◌≤◌, ◌<◌, ◌≡◌, refl, sym, ap, subst, ◌⊎◌, inl, inr, arith,
  Comparison, Ranks, true, false, not, ◌&&◌, some, List, [], ◌∷◌, length, get_or, get_or-take, leb,
  ltb, ◌==◌, Bool-cases, if◌then◌else◌, u32, ok, Code, Allocator, Returns, returns, Returns-mono,
  Returns-bind,
}
use libvci.Vector.{
  Vector, Round, narrow, hit, insert_search, vector_empty, vector_insert_back, vector_insert_at,
  vector_insert_sorted,
}
use libvci.Vector.Slots.{insert_slot}
use libvci.Vector.Valid.{IsValid, items, length-items}
use libvci.Vector.Change.{Inserted, Refused, vector_insert_at-Inserted}
use libvci.Vector.Sorted.{
  IsSorted, Between, below, Probed, halved, equal, probe-Probed, live-IsSorted,
}

-- Where an element of the key's rank may be inserted.
pub record IsPlace (rank : ℕ → ℕ) (size : ℕ) (xs : List ℕ) (key i : ℕ) : Type 0 where
  pub inside : i ≤ size
  pub front : (j : ℕ) → j < i → rank (get_or xs j 0) ≤ rank key
  pub back : (j : ℕ) → i ≤ j → j < size → rank key ≤ rank (get_or xs j 0)

-- The test of the loop of vector_insert_sorted.
search_goes :
    (l hi : ℕ) → l < hi → hi ≤ 2 ^ 31 → (leb l (below hi) && not (below hi == u32 - 1)) ≡ true
search_goes l hi h k = let e : below hi ≡ hi - 1 = omega arith in rw e (ground arith)

search_ends :
    (l hi : ℕ) → hi ≤ l → hi ≤ 2 ^ 31 → (leb l (below hi) && not (below hi == u32 - 1)) ≡ false
search_ends l zero h k = ground arith
search_ends l (suc hi) h k = let e : below (suc hi) ≡ hi = omega arith in rw e (ground arith)

module _ (rank : ℕ → ℕ) (cmp : Comparison) (ranks : Ranks rank cmp) (size : ℕ) (xs : List ℕ)
    (fits : size ≤ length xs) (small : size ≤ 2 ^ 31) (sorted : IsSorted rank size xs) where
  insert_step :
      (fuel key l hi : ℕ) (o : Round)
      → Probed rank size xs key l hi o
      → ((l' hi' : ℕ)
          → Between rank size xs key l' hi'
          → (hi' - l') * 2 ≤ hi - l
          → Returns
              (IsPlace rank size xs key)
              (insert_search fuel (some cmp) xs key l' (below hi')))
      → Returns
          (IsPlace rank size xs key)
          (elim o [ narrow l' r' ↦ insert_search fuel (some cmp) xs key l' r' | hit m ↦ ok m ])
  insert_step fuel key l hi (narrow l' r') (halved hi' e b half pos) rest =
      subst (λ r. Returns (IsPlace rank size xs key) (insert_search fuel (some cmp) xs key l' r))
        (sym e) (rest l' hi' b half)
  insert_step fuel key l hi (hit m) (equal inside e) rest = returns (record {
    inside = omega arith;
    front = λ j p. omega (arith, sorted j m (omega arith) inside);
    back = λ j p q. omega (arith, sorted m j p q);
  })

  insert_search-IsPlace :
      (fuel key l hi : ℕ)
      → Between rank size xs key l hi
      → hi - l < 2 ^ fuel
      → Returns (IsPlace rank size xs key) (insert_search (suc fuel) (some cmp) xs key l (below hi))
  unfolding insert_search
  insert_search-IsPlace zero key l hi b f =
      let low = b.low in
      let high = b.high in
      let same : l ≡ hi = omega arith in
      rw (search_ends l hi (omega arith) (omega arith)) (
        returns (record {
          inside = omega arith;
          front = λ j p. omega (arith, b.smaller j p);
          back = λ j p q. omega (arith, b.larger j (omega arith) q);
        }))
  insert_search-IsPlace (suc fuel) key l hi b f =
      let low = b.low in
      let high = b.high in
      elim (dec_lt l hi) [
        | no over ↦ rw (search_ends l hi (omega arith) (omega arith)) (
            returns (record {
              inside = omega arith;
              front = λ j p. omega (arith, b.smaller j p);
              back = λ j p q. omega (arith, b.larger j (omega arith) q);
            }))
        | yes lt ↦ rw (search_goes l hi lt (omega arith)) (
            Returns-bind (probe-Probed rank cmp ranks size xs fits small sorted key l hi b lt)
              λ o p. insert_step (suc fuel) key l hi o p λ l' hi' b' half.
                insert_search-IsPlace fuel key l' hi' b' (omega (arith, pow-suc 2 fuel)))
      ]

get_or-insert_slot :
    (xs : List ℕ) (i j x : ℕ)
    → i ≤ length xs
    → get_or (insert_slot xs i x) j 0
      ≡ (if ltb j i then get_or xs j 0 else if j == i then x else get_or xs (j - 1) 0)
get_or-insert_slot xs zero zero x h = refl
get_or-insert_slot xs zero (suc j) x h = let e : suc j - 1 ≡ j = omega arith in rw e (ground arith)
get_or-insert_slot [] (suc i) j x h = absurd (omega arith)
get_or-insert_slot (y ∷ xs) (suc i) zero x h = ground arith
get_or-insert_slot (y ∷ xs) (suc i) (suc j) x h =
    ground (arith, get_or-insert_slot xs i j x (omega arith), shifted j)
  where
    shifted : (j : ℕ) → 0 < j → get_or (y ∷ xs) j 0 ≡ get_or xs (j - 1) 0
    shifted zero h = absurd (omega arith)
    shifted (suc j) h = let e : suc j - 1 ≡ j = omega arith in rw e refl

length-insert_slot :
    (xs : List ℕ) (i x : ℕ) → i ≤ length xs → length (insert_slot xs i x) ≡ suc (length xs)
length-insert_slot xs zero x h = refl
length-insert_slot [] (suc i) x h = absurd (omega arith)
length-insert_slot (y ∷ xs) (suc i) x h = ap suc (length-insert_slot xs i x (omega arith))

insert_slot-IsSorted :
    (rank : ℕ → ℕ) (xs : List ℕ) (i x : ℕ)
    → IsSorted rank (length xs) xs
    → i ≤ length xs
    → ((j : ℕ) → j < i → rank (get_or xs j 0) ≤ rank x)
    → ((j : ℕ) → i ≤ j → j < length xs → rank x ≤ rank (get_or xs j 0))
    → IsSorted rank (suc (length xs)) (insert_slot xs i x)
insert_slot-IsSorted rank xs i x sorted h front back a b le lt = ground (
  arith,
  get_or-insert_slot xs i a x h,
  get_or-insert_slot xs i b x h,
  sorted a b,
  sorted a (b - 1),
  sorted (a - 1) (b - 1),
  front a,
  back (b - 1),
)

-- What vector_insert_sorted leaves.
abbrev pub InsertedSorted : (ℕ → ℕ) → Vector → ℕ → Code × Vector → Type 0
InsertedSorted rank vec x r =
    (i : ℕ) × Inserted vec i x r × IsSorted rank (length (items r.1)) (items r.1)

module _ (rank : ℕ → ℕ) (cmp : Comparison) (ranks : Ranks rank cmp) (mem : Allocator) (vec : Vector)
    (x : ℕ) (v : IsValid vec) (e : vec.data_compare ≡ some cmp)
    (sorted : IsSorted rank (length (items vec)) (items vec))
    (room : vec.capacity ≤ vec.size → vec.capacity ≤ 2 ^ 30) where
  insert_at_place :
      (i : ℕ)
      → i ≤ vec.size
      → ((j : ℕ) → j < i → rank (get_or (items vec) j 0) ≤ rank x)
      → ((j : ℕ) → i ≤ j → j < vec.size → rank x ≤ rank (get_or (items vec) j 0))
      → Returns
          (λ r. InsertedSorted rank vec x r ⊎ Refused mem vec r)
          (vector_insert_at mem vec i x)
  insert_at_place i h front back =
      let size = length-items v in
      let inside : i ≤ length (items vec) = omega arith in
      Returns-mono (vector_insert_at-Inserted mem vec i x v h room) λ r q. elim q [
        | inr refused ↦ inr refused
        | inl p ↦
            let result =
              insert_slot-IsSorted rank (items vec) i x sorted inside front
                (λ j a b. back j a (omega arith)) in
            inl (
              i,
              p,
              subst (λ ys. IsSorted rank (length ys) ys) (sym p.inserted)
                  (subst (λ n. IsSorted rank n (insert_slot (items vec) i x))
                    (sym (length-insert_slot (items vec) i x inside)) result),
            )
      ]

  -- vector_insert_sorted on a valid sorted vector with a comparison that follows a rank, whose
  -- capacity is at most 2^30 if it is full, inserts the element so that the vector is sorted; or
  -- the vector is full, the allocator does not grant the size that twice the capacity is rounded
  -- to, and the vector stays as it is.
  pub vector_insert_sorted-IsSorted :
      Returns
        (λ r. InsertedSorted rank vec x r ⊎ Refused mem vec r)
        (vector_insert_sorted mem vec x)
  unfolding vector_insert_sorted vector_empty vector_insert_back
  vector_insert_sorted-IsSorted =
      let fits = v.bounded in
      let block = v.block in
      let top = v.most_capacity in
      let live =
        λ (j : ℕ) (h : j < vec.size). ap rank (get_or-take vec.size vec.data_words j 0 h) in
      elim (Bool-cases (vec.size == 0)) [
        | inl none_yet ↦ rw none_yet (
            insert_at_place vec.size (omega arith) (λ j p. absurd (ground arith))
              λ j p q. absurd (omega arith))
        | inr some_there ↦
            let last : vec.size - 1 ≡ below vec.size = ground arith in
            let start : Between rank vec.size vec.data_words x 0 vec.size = record {
              low = omega arith;
              high = omega arith;
              smaller = λ j p. absurd (omega arith);
              larger = λ j p q. absurd (omega arith);
            } in
            let search =
              insert_search-IsPlace rank cmp ranks vec.size vec.data_words (omega arith)
                (omega arith) (live-IsSorted rank vec v sorted) 32 x 0 vec.size start
                (omega arith) in
            rw (some_there, last)
              (Returns-bind
                (subst
                  (λ c.
                    Returns (IsPlace rank vec.size vec.data_words x)
                      (insert_search 33 c vec.data_words x 0 (below vec.size)))
                  (sym e) search)
                λ i p.
                  insert_at_place i p.inside
                    (λ j h. omega (arith, live j (omega (arith, p.inside)), p.front j h))
                    (λ j h k. omega (arith, live j k, p.back j h k)))
      ]
