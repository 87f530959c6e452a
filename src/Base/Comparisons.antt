-- ===== src/Base/Comparisons.antt =====
-- Comparison functions that a container is given, and what it asks of them.
use Prim.Native.Nat.{ℕ, compare, Ordering}
use mathlib.Core.Path.{◌≡◌}
use mathlib.Core.Bool.{Bool, true, false}

-- `int (*)(const void *, const void *)`: the sign of the result, for two words.
abbrev pub Comparison : Type 0
Comparison = ℕ → ℕ → Ordering

abbrev pub is_gt : Ordering → Bool
is_gt Ordering.gt = true
is_gt _ = false

abbrev pub is_eq : Ordering → Bool
is_eq Ordering.eq = true
is_eq _ = false

-- The comparison is consistent: it orders the words by some rank.
abbrev pub Ranks : (ℕ → ℕ) → Comparison → Type 0
Ranks rank cmp = (a b : ℕ) → cmp a b ≡ compare (rank a) (rank b)
