-- ===== src/Vector/Search.antt =====
-- vector_index_of and vector_take find the first element that matches.
use libvci.Base.{
  ℕ, zero, suc, ◌+◌, ◌≤◌, ◌<◌, ◌≡◌, refl, ap, subst, ◌∙◌, ◌⊎◌, inl, inr, arith, Bool, true, false,
  Option, Comparison, List, length, get_or, get_or-take, ◌==◌, Bool-cases, load-ok, Returns,
  returns, Returns-mono, Returns-bind,
}
use libvci.Vector.{Vector, matches, not_found, index_loop, vector_index_of, vector_take}
use libvci.Vector.Slots.{remove_slot}
use libvci.Vector.Valid.{IsValid, items}
use libvci.Vector.Change.{vector_take_at-remove}

-- `r` is the first slot between `i` and `end` that passes, or none does and `r` says so.
abbrev pub IsFirst : (ℕ → Bool) → List ℕ → ℕ → ℕ → ℕ → Type 0
IsFirst p xs i end r =
    ((i ≤ r)
      × (r < end)
      × (p (get_or xs r 0) ≡ true)
      × ((j : ℕ) → i ≤ j → j < r → p (get_or xs j 0) ≡ false))
    ⊎ ((r ≡ not_found) × ((j : ℕ) → i ≤ j → j < end → p (get_or xs j 0) ≡ false))

index_loop-IsFirst :
    (cmp : Option Comparison) (block : List ℕ) (key n i end : ℕ)
    → i + n ≡ end
    → end ≤ length block
    → Returns (IsFirst (λ x. matches cmp x key) block i end) (index_loop cmp block key n i)
unfolding index_loop
index_loop-IsFirst cmp block key zero i end e fits =
    returns (inr (refl, λ j p q. absurd (omega arith)))
index_loop-IsFirst cmp block key (suc n) i end e fits =
    rw (load-ok block i (omega arith)) (elim (Bool-cases (matches cmp (get_or block i 0) key)) [
      | inl found ↦
          rw found (returns (inl (omega arith, omega arith, found, λ j p q. absurd (omega arith))))
      | inr missed ↦ rw missed (
          Returns-mono (index_loop-IsFirst cmp block key n (suc i) end (omega arith) fits) λ r q.
            elim q [
              | inl (after, below, hit, none) ↦
                  inl (omega arith, below, hit, λ j p q. at i missed j p (none j) q)
              | inr (nowhere, none) ↦ inr (nowhere, λ j p q. at i missed j p (none j) q)
            ])
    ])
  where
    at :
        (i : ℕ)
        → matches cmp (get_or block i 0) key ≡ false
        → {b : ℕ} (j : ℕ) → i ≤ j
        → (suc i ≤ j → j < b → matches cmp (get_or block j 0) key ≡ false)
        → j < b
        → matches cmp (get_or block j 0) key ≡ false
    at i missed j p later q = elim (Bool-cases (i == j)) [
      | inl same ↦
          let e : i ≡ j = ground arith in
          subst (λ k. matches cmp (get_or block k 0) key ≡ false) e missed
      | inr other ↦ later (ground arith) q
    ]

-- vector_index_of on a valid vector gives the first slot whose element matches the key, by the
-- comparison function if there is one and as a pointer otherwise, or UINT_MAX if none does.
pub vector_index_of-IsFirst :
    (vec : Vector) (key : ℕ)
    → IsValid vec
    → Returns
        (IsFirst (λ x. matches vec.data_compare x key) (items vec) 0 vec.size)
        (vector_index_of vec key)
unfolding vector_index_of
vector_index_of-IsFirst vec key v =
    let fits = v.bounded in
    let size = v.block in
    let p = λ (x : ℕ). matches vec.data_compare x key in
    let live = λ (j : ℕ) (h : j < vec.size). get_or-take vec.size vec.data_words j 0 h in
    Returns-mono
      (index_loop-IsFirst vec.data_compare vec.data_words key vec.size 0 vec.size (omega arith)
        (omega arith))
      λ r q. elim q [
        | inl (after, below, hit, none) ↦ inl (
          after,
          below,
          ap p (live r below) ∙ hit,
          λ j a b. ap p (live j (omega arith)) ∙ none j a b,
        )
        | inr (nowhere, none) ↦ inr (nowhere, λ j a b. ap p (live j b) ∙ none j a b)
      ]

-- vector_take removes that first match and returns it, or returns NULL and changes nothing.
pub vector_take_first :
    (vec : Vector) (key : ℕ)
    → IsValid vec
    → Returns
        (λ r.
          ((i : ℕ) × (i < vec.size)
            × (matches vec.data_compare (get_or (items vec) i 0) key ≡ true)
            × ((j : ℕ) → j < i → matches vec.data_compare (get_or (items vec) j 0) key ≡ false)
            × (r.0 ≡ get_or (items vec) i 0)
            × (items r.1 ≡ remove_slot (items vec) i)
            × IsValid r.1)
          ⊎ ((r.0 ≡ 0)
              × (r.1 ≡ vec)
              × ((j : ℕ)
                  → j < vec.size
                  → matches vec.data_compare (get_or (items vec) j 0) key ≡ false)))
        (vector_take vec key)
unfolding vector_take
vector_take_first vec key v =
    let fits = v.bounded in
    let top = v.most_capacity in
    Returns-bind (vector_index_of-IsFirst vec key v) λ i q. elim q [
      | inl (after, below, hit, none) ↦
          let found : (i == not_found) ≡ false = ground arith in
          rw found (
            Returns-mono (vector_take_at-remove vec i v below)
              λ r t. inl (i, below, hit, (λ j h. none j (omega arith) h), t.0, t.2, t.1))
      | inr (nowhere, none) ↦
          let missing : (i == not_found) ≡ true = ground arith in
          rw missing (returns (inr (refl, refl, λ j h. none j (omega arith) h)))
    ]
