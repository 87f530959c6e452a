-- ===== src/Compare/Order.antt =====
-- Each comparison orders the words by their values in its type.
use native.Mathlib.Decide.{dec_lt}
use libvci.Base.{
  ℕ, ◌+◌, ◌-◌, ◌^◌, ◌%◌, ◌<◌, ◌≡◌, ◌≤◌, ◌⊎◌, ◌∙◌, ap₂, arith, compare, Ranks, true, false, ltb, leb,
  if◌then◌else◌, inl, inr,
}
use libvci.Compare.{
  cast, negative, signed_less, difference, compare_signed, compare_unsigned, compare_char,
  compare_uchar, compare_short, compare_ushort, compare_int, compare_uint, compare_long,
  compare_ulong,
}

-- The place of a word's value among all values of the type: signed values are moved up by half the
-- range.
abbrev pub unsigned_rank : ℕ → ℕ → ℕ
unsigned_rank w x = x % 2 ^ w

abbrev pub signed_rank : ℕ → ℕ → ℕ
signed_rank w x = (x + 2 ^ (w - 1)) % 2 ^ w

difference-compare : (p q : ℕ) → difference (ltb q p) (ltb p q) ≡ compare p q
unfolding difference
difference-compare p q = ground arith

-- A word below `half` moves up, another one down.
abbrev Moved : ℕ → ℕ → ℕ → Type 0
Moved half a r = ((a < half) × (r ≡ a + half)) ⊎ ((half ≤ a) × (r + half ≡ a) × (r < half))

-- Two's complement: the moved words keep the signed order.
less-Moved :
    (half a b r s : ℕ)
    → Moved half a r
    → Moved half b s
    → (if leb half a
        then (if leb half b then ltb a b else true)
        else (if leb half b then false else ltb a b))
      ≡ ltb r s
less-Moved half a b r s (inl (ha, ea)) (inl (hb, eb)) = ground arith
less-Moved half a b r s (inl (ha, ea)) (inr (hb, eb, rb)) = ground arith
less-Moved half a b r s (inr (ha, ea, ra)) (inl (hb, eb)) = ground arith
less-Moved half a b r s (inr (ha, ea, ra)) (inr (hb, eb, rb)) = ground arith

-- So the two tests of a signed comparison are those of the ranks.
signed-Moved :
    (w x y : ℕ)
    → Moved (2 ^ (w - 1)) (x % 2 ^ w) (signed_rank w x)
    → Moved (2 ^ (w - 1)) (y % 2 ^ w) (signed_rank w y)
    → compare_signed w x y ≡ compare (signed_rank w x) (signed_rank w y)
unfolding compare_signed cast negative signed_less
signed-Moved w x y m n =
    ap₂ difference
      (less-Moved (2 ^ (w - 1)) (y % 2 ^ w) (x % 2 ^ w) (signed_rank w y) (signed_rank w x) n m)
      (less-Moved (2 ^ (w - 1)) (x % 2 ^ w) (y % 2 ^ w) (signed_rank w x) (signed_rank w y) m n)
    ∙ difference-compare (signed_rank w x) (signed_rank w y)

Moved-byte : (x : ℕ) → Moved (2 ^ (8 - 1)) (x % 2 ^ 8) (signed_rank 8 x)
Moved-byte x = elim (dec_lt (x % 2 ^ 8) (2 ^ 7)) [
  | yes low ↦ inl (low, omega arith)
  | no high ↦ inr (omega arith, omega arith, omega arith)
]

Moved-short : (x : ℕ) → Moved (2 ^ (16 - 1)) (x % 2 ^ 16) (signed_rank 16 x)
Moved-short x = elim (dec_lt (x % 2 ^ 16) (2 ^ 15)) [
  | yes low ↦ inl (low, omega arith)
  | no high ↦ inr (omega arith, omega arith, omega arith)
]

Moved-int : (x : ℕ) → Moved (2 ^ (32 - 1)) (x % 2 ^ 32) (signed_rank 32 x)
Moved-int x = elim (dec_lt (x % 2 ^ 32) (2 ^ 31)) [
  | yes low ↦ inl (low, omega arith)
  | no high ↦ inr (omega arith, omega arith, omega arith)
]

Moved-long : (x : ℕ) → Moved (2 ^ (64 - 1)) (x % 2 ^ 64) (signed_rank 64 x)
Moved-long x = elim (dec_lt (x % 2 ^ 64) (2 ^ 63)) [
  | yes low ↦ inl (low, omega arith)
  | no high ↦ inr (omega arith, omega arith, omega arith)
]

-- compare_char to compare_ulong: each is the order of the values that the words have in its type.
pub compare-Ranks :
    Ranks (signed_rank 8) compare_char
    × Ranks (unsigned_rank 8) compare_uchar
    × Ranks (signed_rank 16) compare_short
    × Ranks (unsigned_rank 16) compare_ushort
    × Ranks (signed_rank 32) compare_int
    × Ranks (unsigned_rank 32) compare_uint
    × Ranks (signed_rank 64) compare_long
    × Ranks (unsigned_rank 64) compare_ulong
unfolding compare_char compare_uchar compare_short compare_ushort compare_int compare_uint
    compare_long compare_ulong compare_unsigned cast
compare-Ranks = (
  (λ x y. signed-Moved 8 x y (Moved-byte x) (Moved-byte y)),
  (λ x y. difference-compare (x % 2 ^ 8) (y % 2 ^ 8)),
  (λ x y. signed-Moved 16 x y (Moved-short x) (Moved-short y)),
  (λ x y. difference-compare (x % 2 ^ 16) (y % 2 ^ 16)),
  (λ x y. signed-Moved 32 x y (Moved-int x) (Moved-int y)),
  (λ x y. difference-compare (x % 2 ^ 32) (y % 2 ^ 32)),
  (λ x y. signed-Moved 64 x y (Moved-long x) (Moved-long y)),
  (λ x y. difference-compare (x % 2 ^ 64) (y % 2 ^ 64)),
)
