-- ===== src/Hash/Collide.antt =====
-- hash_string does not see the order of the bytes.
use native.Mathlib.Nat.{ℕ_set}
use mathlib.Core.Logic.{∥∥₁_elim}
use mathlib.Core.List.{Permᴰ}
use libvci.Base.{ℕ, ◌+◌, ◌%◌, ◌≡◌, refl, ap, ap₂, ◌∙◌, arith, List, Perm, u32}
use libvci.Hash.{widened, sum_loop, hash_string, finish, low_bits, mix_shifted, add_shifted}

swapped : (hval a b : ℕ) → ((hval + a) % u32 + b) % u32 ≡ ((hval + b) % u32 + a) % u32
swapped hval a b = omega arith

sum_loop-perm : {xs ys : List ℕ} → Permᴰ xs ys → (hval : ℕ) → sum_loop hval xs ≡ sum_loop hval ys
unfolding sum_loop
sum_loop-perm Permᴰ.nil hval = refl
sum_loop-perm (Permᴰ.cons {l₂} e same) hval =
    sum_loop-perm same ((hval + widened _) % u32)
    ∙ ap (λ k. sum_loop ((hval + widened k) % u32) l₂) e
sum_loop-perm (Permᴰ.swap {a} {b} {l} e f) hval =
    ap (λ h. sum_loop h l)
      (swapped hval (widened a) (widened b)
        ∙ ap₂ (λ k m. ((hval + widened k) % u32 + widened m) % u32) f e)
sum_loop-perm (Permᴰ.trans first second) hval = sum_loop-perm first hval ∙ sum_loop-perm second hval

-- Strings of the same bytes in any order have the same hash.
pub hash_string-perm : (xs ys : List ℕ) → Perm xs ys → hash_string xs ≡ hash_string ys
unfolding hash_string
hash_string-perm xs ys same =
    ∥∥₁_elim same (ℕ_set _ _) λ steps.
      ap (λ h. finish (low_bits (mix_shifted 6 (add_shifted 10 h)))) (sum_loop-perm steps 1)
