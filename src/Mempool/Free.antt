-- ===== src/Mempool/Free.antt =====
-- The free chunks of a pool.
use libvci.Base.{
  ℕ, zero, suc, ◌+◌, ◌≤◌, ◌<◌, ◌≡◌, ◌≢◌, refl, sym, ap, subst, arith, List, [], ◌∷◌, ◌++◌, length,
  ◌==◌, if◌then◌else◌, u32,
}
use libvci.Mempool.{Mempool, Words}

-- The chunks that were never given out, from `init` on.
abbrev pub unused : ℕ → ℕ → ℕ → List ℕ
unused init chunk_size zero = []
unused init chunk_size (suc n) = init ∷ unused (init + chunk_size) chunk_size n

-- The address behind them.
abbrev pub end_of : ℕ → ℕ → ℕ → ℕ
end_of init chunk_size zero = init
end_of init chunk_size (suc n) = end_of (init + chunk_size) chunk_size n

-- The words lead from `p` through `xs` to `q`.
abbrev pub Leads : Words → ℕ → List ℕ → ℕ → Type 0
Leads words p [] q = p ≡ q
Leads words p (a ∷ xs) q = (p ≡ a) × Leads words (words a) xs q

-- All chunks of the list lie between `mem` and `init`.
abbrev pub Inside : (mem chunk_size init : ℕ) → List ℕ → Type 0
Inside mem chunk_size init [] = Unit
Inside mem chunk_size init (a ∷ xs) =
    (mem ≤ a) × (a + chunk_size ≤ init) × Inside mem chunk_size init xs

abbrev pub Missing : ℕ → List ℕ → Type 0
Missing a [] = Unit
Missing a (b ∷ xs) = (a ≢ b) × Missing a xs

abbrev pub Distinct : List ℕ → Type 0
Distinct [] = Unit
Distinct (a ∷ xs) = Missing a xs × Distinct xs

-- `free` are the free chunks, in the order in which they are given out: those that came back, then
-- `rest` ones that were never given out. The memory is a whole number of chunks.
pub record Holds (words : Words) (pool : Mempool) (free back : List ℕ) (rest : ℕ) : Type 0 where
  pub split : free ≡ back ++ unused pool.init pool.chunk_size rest
  pub leads : Leads words pool.next back pool.init
  pub inside : Inside pool.mem pool.chunk_size pool.init back
  pub distinct : Distinct back
  pub counted : pool.chunks ≡ length back + rest
  pub room : end_of pool.init pool.chunk_size rest ≡ pool.mem + pool.size
  pub after : pool.mem ≤ pool.init
  pub wide : 8 ≤ pool.chunk_size
  pub small : length back + rest < u32

abbrev pub IsPool : Words → Mempool → List ℕ → Type 0
IsPool words pool free = (back : List ℕ) × (rest : ℕ) × Holds words pool free back rest

abbrev pub write : Words → ℕ → ℕ → Words
write words a v p = if p == a then v else words p

pub end_of-least : (init cs n : ℕ) → init ≤ end_of init cs n
end_of-least init cs zero = omega arith
end_of-least init cs (suc n) = omega (arith, end_of-least (init + cs) cs n)

pub write-Leads :
    (words : Words) (a v p q : ℕ) (xs : List ℕ)
    → Missing a xs
    → Leads words p xs q
    → Leads (write words a v) p xs q
write-Leads words a v p q [] m l = l
write-Leads words a v p q (b ∷ xs) (other, m) (e, l) =
    let same : write words a v b ≡ words b = ground (arith, other) in
    (
      e,
      subst (λ r. Leads (write words a v) r xs q) (sym same)
          (write-Leads words a v (words b) q xs m l),
    )

pub Inside-Missing :
    (mem cs init : ℕ) (xs : List ℕ) → 8 ≤ cs → Inside mem cs init xs → Missing init xs
Inside-Missing mem cs init [] wide i = tt
Inside-Missing mem cs init (a ∷ xs) wide (low, high, i) =
    ((λ e. absurd (omega arith)), Inside-Missing mem cs init xs wide i)

pub Inside-snoc :
    (mem cs init : ℕ) (xs : List ℕ)
    → mem ≤ init
    → Inside mem cs init xs
    → Inside mem cs (init + cs) (xs ++ init ∷ [])
Inside-snoc mem cs init [] h i = (h, omega arith, tt)
Inside-snoc mem cs init (a ∷ xs) h (low, high, i) =
    (low, omega arith, Inside-snoc mem cs init xs h i)

pub Missing-snoc : (a b : ℕ) (xs : List ℕ) → a ≢ b → Missing a xs → Missing a (xs ++ b ∷ [])
Missing-snoc a b [] h m = (h, tt)
Missing-snoc a b (c ∷ xs) h (other, m) = (other, Missing-snoc a b xs h m)

pub Distinct-snoc : (a : ℕ) (xs : List ℕ) → Missing a xs → Distinct xs → Distinct (xs ++ a ∷ [])
Distinct-snoc a [] m d = (tt, tt)
Distinct-snoc a (b ∷ xs) (other, m) (here, d) =
    (Missing-snoc b a xs (λ e. other (sym e)) here, Distinct-snoc a xs m d)

pub Leads-snoc :
    (words : Words) (p q r : ℕ) (xs : List ℕ)
    → Leads words p xs q
    → words q ≡ r
    → Leads words p (xs ++ q ∷ []) r
Leads-snoc words p q r [] l e = (l, e)
Leads-snoc words p q r (a ∷ xs) (h, l) e = (h, Leads-snoc words (words a) q r xs l e)

pub append-shift : (xs : List ℕ) (a : ℕ) (ys : List ℕ) → xs ++ a ∷ ys ≡ (xs ++ a ∷ []) ++ ys
append-shift [] a ys = refl
append-shift (x ∷ xs) a ys = ap (λ l. x ∷ l) (append-shift xs a ys)
