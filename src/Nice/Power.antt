-- ===== src/Nice/Power.antt =====
-- get_nice_size rounds up to a power of two, and where it does not end.
use native.Mathlib.Nat.{pow-suc, pow-le-pow_right}
use native.Mathlib.Decide.{dec_lt}
use libvci.Base.{
  ℕ, zero, suc, ◌+◌, ◌*◌, ◌%◌, ◌^◌, ◌≤◌, ◌<◌, ◌≡◌, refl, ap, ◌∙◌, ◌⊎◌, inl, inr, arith, ltb, u32,
  out_of_fuel, Returns, returns, Bool-cases, Returns-mono,
}
use libvci.Nice.{nice_loop, get_nice_size}

pub pow_mono : (j k : ℕ) → j ≤ k → 2 ^ j ≤ 2 ^ k
pow_mono j k h = pow-le-pow_right (omega arith) h

pow_strict : (j k : ℕ) → 2 ^ j < 2 ^ k → 2 ^ suc j ≤ 2 ^ k
pow_strict j k h = elim (dec_lt j k) [
  | yes l ↦ pow_mono (suc j) k l
  | no g ↦ absurd (omega (arith, pow_mono k j (omega arith)))
]

-- `r` is a power of two, at least `m`, and no larger than any other such.
pub record IsLeastPower (m r : ℕ) : Type 0 where
  pub exponent : ℕ
  pub power : r ≡ 2 ^ exponent
  pub large : m ≤ r
  pub least : (j : ℕ) → m ≤ 2 ^ j → r ≤ 2 ^ j

nice_loop-IsLeastPower :
    (fuel m n k : ℕ)
    → m ≤ 2 ^ 31
    → n ≡ 2 ^ k
    → k ≤ 31
    → 31 < fuel + k
    → ((j : ℕ) → m ≤ 2 ^ j → n ≤ 2 ^ j)
    → Returns (IsLeastPower m) (nice_loop fuel m n)
unfolding nice_loop
nice_loop-IsLeastPower zero m n k hm hn hk f least = absurd (omega arith)
nice_loop-IsLeastPower (suc fuel) m n k hm hn hk f least = elim (Bool-cases (ltb n m)) [
  | inl more ↦
      let below : n < m = ground arith in
      let room : 2 ^ suc k ≤ 2 ^ 31 = pow_strict k 31 (omega arith) in
      let fits : (n * 2) % u32 ≡ 2 ^ suc k = omega (arith, pow-suc 2 k) in
      rw more (
        nice_loop-IsLeastPower fuel m ((n * 2) % u32) (suc k) hm fits (exponent_le k room)
          (omega arith) λ j hj. omega (arith, pow_strict k j (omega (arith, least j hj))))
  | inr done ↦
      rw done (returns (record { exponent = k; power = hn; large = ground arith; least = least }))
]
  where
    exponent_le : (k : ℕ) → 2 ^ suc k ≤ 2 ^ 31 → suc k ≤ 31
    exponent_le k room = elim (dec_lt k 31) [
      | yes l ↦ l
      | no g ↦ absurd (omega (arith, pow_mono 31 k (omega arith), pow-suc 2 k))
    ]

-- A capacity of at most 2^31 is granted: the loop ends, with `min` below the minimum, and with the
-- least power of two that is large enough from there on.
pub get_nice_size-IsLeastPower :
    (m min : ℕ)
    → m ≤ 2 ^ 31
    → Returns (λ r. ((m < min) × (r ≡ min)) ⊎ ((min ≤ m) × IsLeastPower m r)) (get_nice_size m min)
unfolding get_nice_size
get_nice_size-IsLeastPower m min h = elim (Bool-cases (ltb m min)) [
  | inl small ↦ rw small (returns (inl (ground arith, refl)))
  | inr large ↦ rw large (
      Returns-mono
        (nice_loop-IsLeastPower 33 m 1 0 h refl (omega arith) (omega arith)
          (λ j _. pow_mono 0 j (omega arith)))
        λ r p. inr (ground arith, p))
]

nice_loop-endless :
    (fuel m n k : ℕ)
    → 2 ^ 31 < m
    → (n ≡ 0) ⊎ ((n ≡ 2 ^ k) × (k ≤ 31))
    → nice_loop fuel m n ≡ out_of_fuel
unfolding nice_loop
nice_loop-endless zero m n k hm h = refl
nice_loop-endless (suc fuel) m n k hm (inl e) =
    ground (arith, nice_loop-endless fuel m ((n * 2) % u32) k hm (inl (omega arith)))
nice_loop-endless (suc fuel) m n k hm (inr (e, le)) = elim (dec_lt k 31) [
  | yes l ↦
      let room : 2 ^ suc k ≤ 2 ^ 31 = pow_mono (suc k) 31 l in
      let fits : (n * 2) % u32 ≡ 2 ^ suc k = omega (arith, pow-suc 2 k) in
      let rest = nice_loop-endless fuel m ((n * 2) % u32) (suc k) hm (inr (fits, l)) in
      ground (arith, rest, pow_mono k 31 (omega arith))
  | no g ↦
      let last : k ≡ 31 = omega arith in
      let top : n ≡ 2 ^ 31 = e ∙ ap (λ t. 2 ^ t) last in
      ground (arith, nice_loop-endless fuel m ((n * 2) % u32) k hm (inl (omega arith)))
]

-- Above 2^31 the loop runs for ever: the shift drops the only bit, and 0 stays below `m`.
pub nice_loop-diverges : (fuel m : ℕ) → 2 ^ 31 < m → nice_loop fuel m 1 ≡ out_of_fuel
nice_loop-diverges fuel m h = nice_loop-endless fuel m 1 0 h (inr (refl, omega arith))

-- The bounds that the containers use.
pub get_nice_size_bounds :
    (m min : ℕ)
    → m ≤ 2 ^ 31
    → min ≤ 2 ^ 31
    → Returns (λ r. (m ≤ r) × (min ≤ r) × (r ≤ 2 ^ 31)) (get_nice_size m min)
get_nice_size_bounds m min h k = Returns-mono (get_nice_size-IsLeastPower m min h) λ r p. elim p [
  | inl (small, e) ↦ (omega arith, omega arith, omega arith)
  | inr (large, q) ↦
      let top = q.least 31 h in let enough = q.large in (omega arith, omega arith, omega arith)
]
