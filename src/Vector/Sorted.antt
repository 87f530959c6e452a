-- ===== src/Vector/Sorted.antt =====
-- Sorted vectors, and one round of the binary search.
use libvci.Base.{
  ℕ, ◌+◌, ◌-◌, ◌*◌, ◌/◌, ◌%◌, ◌^◌, ◌≤◌, ◌<◌, ◌≡◌, refl, sym, ap, subst, inl, inr, arith, Ordering,
  compare, Comparison, Ranks, some, List, length, get_or, get_or-take, ltb, Bool-cases, u32,
  load-ok, Returns, returns,
}
use libvci.Vector.{Vector, Round, narrow, hit, round_of, probe}
use libvci.Vector.Valid.{IsValid, items, length-items}

-- The ranks do not fall from slot to slot, below `size`.
abbrev pub IsSorted : (ℕ → ℕ) → ℕ → List ℕ → Type 0
IsSorted rank size xs = (i j : ℕ) → i ≤ j → j < size → rank (get_or xs i 0) ≤ rank (get_or xs j 0)

-- A search for `key` has come down to the slots from `l` up to, not including, `hi`: the elements
-- in front of them are smaller, those behind them larger.
pub record Between (rank : ℕ → ℕ) (size : ℕ) (xs : List ℕ) (key l hi : ℕ) : Type 0 where
  pub low : l ≤ hi
  pub high : hi ≤ size
  pub smaller : (j : ℕ) → j < l → rank (get_or xs j 0) < rank key
  pub larger : (j : ℕ) → hi ≤ j → j < size → rank key < rank (get_or xs j 0)

-- `hi - 1`, as the code writes it: UINT_MAX for 0.
abbrev pub below : ℕ → ℕ
below hi = (hi + u32 - 1) % u32

-- One round halves the slots, or hits an element of the key's rank.
pub data Probed (rank : ℕ → ℕ) (size : ℕ) (xs : List ℕ) (key l hi : ℕ) : Round → Type 0 where
  halved :
      {l' r' : ℕ} (hi' : ℕ)
      → r' ≡ below hi'
      → Between rank size xs key l' hi'
      → (hi' - l') * 2 ≤ hi - l
      → (rank (get_or xs 0 0) ≤ rank key → 0 < hi')
      → Probed rank size xs key l hi (narrow l' r')
  equal :
      {m : ℕ} → m < size → rank (get_or xs m 0) ≡ rank key → Probed rank size xs key l hi (hit m)

pub live-IsSorted :
    (rank : ℕ → ℕ) (vec : Vector)
    → IsValid vec
    → IsSorted rank (length (items vec)) (items vec)
    → IsSorted rank vec.size vec.data_words
live-IsSorted rank vec v sorted i j h k = omega (
  arith,
  ap rank (get_or-take vec.size vec.data_words i 0 (omega arith)),
  ap rank (get_or-take vec.size vec.data_words j 0 k),
  sorted i j h (omega (arith, length-items v)),
)

module _ (rank : ℕ → ℕ) (cmp : Comparison) (ranks : Ranks rank cmp) (size : ℕ) (xs : List ℕ)
    (fits : size ≤ length xs) (small : size ≤ 2 ^ 31) (sorted : IsSorted rank size xs) where
  pub probe-Probed :
      (key l hi : ℕ)
      → Between rank size xs key l hi
      → l < hi
      → Returns (Probed rank size xs key l hi) (probe (some cmp) xs key l (below hi))
  unfolding probe round_of
  probe-Probed key l hi b lt =
      let low = b.low in
      let high = b.high in
      let m = (l + (hi - 1)) / 2 in
      let mid : ((l + below hi) % u32) / 2 ≡ m = omega arith in
      let x = get_or xs m 0 in
      rw (mid, load-ok xs m (omega arith))
        (returns (split m (omega arith) (omega arith) refl (cmp key x) (sym (ranks key x))))
    where
      split :
          (m : ℕ)
          → l ≤ m
          → m < hi
          → m ≡ (l + (hi - 1)) / 2
          → (c : Ordering) → compare (rank key) (rank (get_or xs m 0)) ≡ c
          → Probed rank size xs key l hi (round_of c l (below hi) m)
      split m lm mh e Ordering.lt c =
          let high = b.high in
          let less : rank key < rank (get_or xs m 0) = ground arith in
          halved m refl
            (record {
              low = lm;
              high = omega arith;
              smaller = b.smaller;
              larger = λ j p q. omega (arith, sorted m j p q);
            })
            (omega arith)
            (λ first. elim (Bool-cases (ltb 0 m)) [
              | inl pos ↦ ground arith
              | inr root ↦
                  let z : m ≡ 0 = ground arith in
                  absurd (omega (arith, subst (λ k. rank key < rank (get_or xs k 0)) z less))
            ])
      split m lm mh e Ordering.gt c =
          let high = b.high in
          let more : rank (get_or xs m 0) < rank key = ground arith in
          let up : (m + 1) % u32 ≡ m + 1 = omega arith in
          rw up (
            halved hi refl
              (record {
                low = omega arith;
                high = high;
                smaller = λ j p. omega (arith, sorted j m (omega arith) (omega arith));
                larger = b.larger;
              })
              (omega arith) (λ _. omega arith))
      split m lm mh e Ordering.eq c = let high = b.high in equal (omega arith) (ground arith)
