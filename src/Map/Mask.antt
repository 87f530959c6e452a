-- ===== src/Map/Mask.antt =====
-- `index & (capacity - 1)` is a slot of the table.
use Prim.Native.Nat.{bit_and, bit_and-bitwise, digits}
use libvci.Base.{ℕ, zero, suc, ◌+◌, ◌-◌, ◌/◌, ◌%◌, ◌^◌, ◌≤◌, ◌<◌, min, subst, sym, arith, u32}
use libvci.Map.{mask}

digits-least : (n a b : ℕ) → digits (λ _. zero) min n a b ≤ b
digits-least zero a b = omega arith
digits-least (suc n) zero b = omega arith
digits-least (suc n) (suc a) b = omega (arith, digits-least n (suc a / 2) (b / 2))

pub bit_and-least : (a b : ℕ) → bit_and a b ≤ b
bit_and-least a b = subst (λ n. n ≤ b) (sym (bit_and-bitwise a b)) (digits-least a a b)

pub mask-less :
    (capacity index : ℕ) → 0 < capacity → capacity ≤ 2 ^ 31 → mask capacity index < capacity
unfolding mask
mask-less capacity index pos most = omega (arith, bit_and-least index ((capacity + u32 - 1) % u32))
