-- ===== src/Vector/SortedSearch.antt =====
-- vector_index_of_sorted: what it finds, and that it leaves the block for a key before all elements.
use native.Mathlib.Nat.{pow-suc}
use native.Mathlib.Decide.{dec_lt}
use libvci.Base.{
  ℕ, zero, suc, ◌+◌, ◌-◌, ◌*◌, ◌/◌, ◌%◌, ◌^◌, ◌≤◌, ◌<◌, ◌≡◌, refl, sym, ap, subst, ◌∙◌, ◌≢◌, ◌⊎◌,
  inl, inr, arith, Ordering, Comparison, Ranks, true, false, some, List, length, get_or,
  get_or-take, leb, ◌==◌, Bool-cases, u32, ok, fault, load-ok, load-fault, Returns, returns,
  Returns-mono, Returns-bind,
}
use libvci.Vector.{
  Vector, Round, narrow, hit, round_of, probe, sorted_search, not_found, vector_empty,
  vector_index_of_sorted,
}
use libvci.Vector.Valid.{IsValid, items}
use libvci.Vector.Sorted.{
  IsSorted, Between, below, Probed, halved, equal, probe-Probed, live-IsSorted,
}

-- `r` is a slot of the key's rank, or there is none and `r` says so.
abbrev pub Found : (ℕ → ℕ) → ℕ → List ℕ → ℕ → ℕ → Type 0
Found rank size xs key r =
    ((r < size) × (rank (get_or xs r 0) ≡ rank key))
    ⊎ ((r ≡ not_found) × ((j : ℕ) → j < size → rank (get_or xs j 0) ≢ rank key))

-- The test of the loop, while `r` has not wrapped.
ends : (l hi : ℕ) → hi ≤ l → 0 < hi → hi ≤ 2 ^ 31 → leb l (below hi) ≡ false
ends l hi h p k = let e : below hi ≡ hi - 1 = omega arith in rw e (ground arith)

goes : (l hi : ℕ) → l < hi → hi ≤ 2 ^ 31 → leb l (below hi) ≡ true
goes l hi h k = let e : below hi ≡ hi - 1 = omega arith in rw e (ground arith)

module _ (rank : ℕ → ℕ) (cmp : Comparison) (ranks : Ranks rank cmp) (size : ℕ) (xs : List ℕ)
    (fits : size ≤ length xs) (small : size ≤ 2 ^ 31) (sorted : IsSorted rank size xs) (key : ℕ)
    (first : rank (get_or xs 0 0) ≤ rank key) where
  search_step :
      (fuel l hi : ℕ) (o : Round)
      → Probed rank size xs key l hi o
      → ((l' hi' : ℕ)
          → Between rank size xs key l' hi'
          → (hi' - l') * 2 ≤ hi - l
          → 0 < hi'
          → Returns (Found rank size xs key) (sorted_search fuel (some cmp) xs key l' (below hi')))
      → Returns
          (Found rank size xs key)
          (elim o [ narrow l' r' ↦ sorted_search fuel (some cmp) xs key l' r' | hit m ↦ ok m ])
  search_step fuel l hi (narrow l' r') (halved hi' e b half pos) rest =
      subst (λ r. Returns (Found rank size xs key) (sorted_search fuel (some cmp) xs key l' r))
        (sym e) (rest l' hi' b half (pos first))
  search_step fuel l hi (hit m) (equal inside e) rest = returns (inl (inside, e))

  nowhere : (l hi : ℕ) → Between rank size xs key l hi → hi ≤ l → Found rank size xs key not_found
  nowhere l hi b over = inr (
    refl,
    λ j h e. elim (dec_lt j l) [
      | yes before ↦ absurd (omega (arith, b.smaller j before))
      | no after ↦ absurd (omega (arith, b.larger j (omega arith) h))
    ],
  )

  sorted_search-Found :
      (fuel l hi : ℕ)
      → Between rank size xs key l hi
      → 0 < hi
      → hi - l < 2 ^ fuel
      → Returns (Found rank size xs key) (sorted_search (suc fuel) (some cmp) xs key l (below hi))
  unfolding sorted_search
  sorted_search-Found zero l hi b pos f =
      let low = b.low in
      let high = b.high in
      let stops : leb l (below hi) ≡ false = ends l hi (omega arith) pos (omega arith) in
      rw stops (returns (nowhere l hi b (omega arith)))
  sorted_search-Found (suc fuel) l hi b pos f =
      let low = b.low in
      let high = b.high in
      elim (dec_lt l hi) [
        | no over ↦
            rw (ends l hi (omega arith) pos (omega arith)) (returns (nowhere l hi b (omega arith)))
        | yes lt ↦ rw (goes l hi lt (omega arith)) (
            Returns-bind (probe-Probed rank cmp ranks size xs fits small sorted key l hi b lt)
              λ o p. search_step (suc fuel) l hi o p λ l' hi' b' half pos'.
                sorted_search-Found fuel l' hi' b' pos' (omega (arith, pow-suc 2 fuel)))
      ]

module _ (rank : ℕ → ℕ) (cmp : Comparison) (ranks : Ranks rank cmp) (vec : Vector) (key : ℕ)
    (v : IsValid vec) (e : vec.data_compare ≡ some cmp)
    (sorted : IsSorted rank (length (items vec)) (items vec)) where
  -- vector_index_of_sorted on a valid sorted vector, for a key that is not smaller than the first
  -- element, gives a slot of the key's rank, or UINT_MAX if there is none.
  pub vector_index_of_sorted-Found :
      rank (get_or (items vec) 0 0) ≤ rank key
      → Returns (Found rank vec.size (items vec) key) (vector_index_of_sorted vec key)
  unfolding vector_index_of_sorted vector_empty
  vector_index_of_sorted-Found first =
      let fits = v.bounded in
      let block = v.block in
      let top = v.most_capacity in
      let live =
        λ (j : ℕ) (h : j < vec.size). ap rank (get_or-take vec.size vec.data_words j 0 h) in
      elim (Bool-cases (vec.size == 0)) [
        | inl none_yet ↦ rw none_yet (returns (inr (refl, λ j h. absurd (ground arith))))
        | inr some_there ↦
            let last : vec.size - 1 ≡ below vec.size = ground arith in
            let start : Between rank vec.size vec.data_words key 0 vec.size = record {
              low = omega arith;
              high = omega arith;
              smaller = λ j p. absurd (omega arith);
              larger = λ j p q. absurd (omega arith);
            } in
            let pos : 0 < vec.size = ground arith in
            let sorted' = live-IsSorted rank vec v sorted in
            let search =
              sorted_search-Found rank cmp ranks vec.size vec.data_words (omega arith) (omega arith)
                sorted' key (omega (arith, live 0 pos)) 33 0 vec.size start pos (omega arith) in
            rw (some_there, last)
              (Returns-mono
                (subst
                  (λ c.
                    Returns (Found rank vec.size vec.data_words key)
                      (sorted_search 34 c vec.data_words key 0 (below vec.size)))
                  (sym e) search)
                λ r q. elim q [
                  | inl (inside, same) ↦ inl (inside, live r inside ∙ same)
                  | inr (missing, nowhere') ↦
                      inr (missing, λ j h k. nowhere' j h (sym (live j h) ∙ k))
                ])
      ]

-- Below all elements `r` comes down to 0 and wraps, and the next round reads far behind the block.
sorted_search-fault :
    (rank : ℕ → ℕ) (cmp : Comparison)
    → Ranks rank cmp
    → (xs : List ℕ) (key fuel hi : ℕ) → length xs < u32 / 2
    → hi ≤ length xs
    → ((j : ℕ) → j < hi → rank key < rank (get_or xs j 0))
    → hi < 2 ^ fuel
    → sorted_search (suc fuel) (some cmp) xs key 0 (below hi) ≡ fault
unfolding sorted_search probe round_of
sorted_search-fault rank cmp ranks xs key fuel zero block h before f =
    rw (load-fault xs ((u32 - 1) / 2) (omega arith)) refl
sorted_search-fault rank cmp ranks xs key zero (suc k) block h before f = absurd (omega arith)
sorted_search-fault rank cmp ranks xs key (suc fuel) (suc k) block h before f =
    let m = k / 2 in
    let mid : ((0 + below (suc k)) % u32) / 2 ≡ m = omega arith in
    let inside : m < suc k = omega arith in
    let less : cmp key (get_or xs m 0) ≡ Ordering.lt =
      ranks key (get_or xs m 0) ∙ ground (arith, before m inside) in
    rw (goes 0 (suc k) (omega arith) (omega arith), mid, load-ok xs m (omega arith), less)
      (sorted_search-fault rank cmp ranks xs key fuel m block (omega arith)
        (λ j p. before j (omega arith)) (omega (arith, pow-suc 2 fuel)))

-- vector_index_of_sorted on a valid vector of fewer than 2^31 slots reads behind its block for a key
-- that is smaller than every element, if there is one.
pub vector_index_of_sorted-fault :
    (rank : ℕ → ℕ) (cmp : Comparison)
    → Ranks rank cmp
    → (vec : Vector) (key : ℕ) → IsValid vec
    → vec.data_compare ≡ some cmp
    → 0 < vec.size
    → vec.capacity < 2 ^ 31
    → ((j : ℕ) → j < vec.size → rank key < rank (get_or (items vec) j 0))
    → vector_index_of_sorted vec key ≡ fault
unfolding vector_index_of_sorted vector_empty
vector_index_of_sorted-fault rank cmp ranks vec key v e some_there small before =
    let fits = v.bounded in
    let block = v.block in
    let nonempty : (vec.size == 0) ≡ false = ground arith in
    let last : vec.size - 1 ≡ below vec.size = omega arith in
    rw (nonempty, e, last)
      (sorted_search-fault rank cmp ranks vec.data_words key 33 vec.size (omega arith) (omega arith)
        (λ j h. omega (arith, before j h, ap rank (get_or-take vec.size vec.data_words j 0 h)))
        (omega arith))
