-- ===== src/Options/Operands.antt =====
-- src/lib/util/options.c: how many words after a flag are its arguments, and the code that follows from it.
use libvci.Base.{
  ℕ, zero, suc, ◌≤◌, ◌<◌, ◌≡◌, refl, min, true, false, Option, none, some, Bool-cases, inl, inr,
  List, [], ◌∷◌, ltb, if◌then◌else◌, length, get_or, take, drop, Code, success, failure, einval,
  enodata, enotsup, arith,
}
use libvci.Options.{
  ℤ, pos, negsuc, ProgramOption, is_flag, operands, operands_upto, accept, Options, handle_option,
  handle_argument,
}

-- No word of the list begins with a dash.
abbrev pub Plain : List (List ℕ) → Type 0
Plain [] = Unit
Plain (x ∷ xs) = (is_flag x ≡ false) × Plain xs

pub operands-le : (xs : List (List ℕ)) → operands xs ≤ length xs
unfolding operands
operands-le [] = omega arith
operands-le (x ∷ xs) = ground (arith, operands-le xs)

pub operands-Plain : (xs : List (List ℕ)) → Plain (take (operands xs) xs)
unfolding operands
operands-Plain [] = tt
operands-Plain (x ∷ xs) = elim (Bool-cases (is_flag x)) [
  | inl flag ↦ rw flag tt
  | inr word ↦ rw word (word, operands-Plain xs)
]

pub operands_upto-operands : (n : ℕ) (xs : List (List ℕ)) → operands_upto n xs ≡ min n (operands xs)
unfolding operands operands_upto
operands_upto-operands zero xs = omega arith
operands_upto-operands (suc n) [] = omega arith
operands_upto-operands (suc n) (x ∷ xs) = ground (arith, operands_upto-operands n xs)

pub operands_upto-Plain : (n : ℕ) (xs : List (List ℕ)) → Plain (take (operands_upto n xs) xs)
unfolding operands_upto
operands_upto-Plain zero xs = tt
operands_upto-Plain (suc n) [] = tt
operands_upto-Plain (suc n) (x ∷ xs) = elim (Bool-cases (is_flag x)) [
  | inl flag ↦ rw flag tt
  | inr word ↦ rw word (word, operands_upto-Plain n xs)
]

-- How many arguments an option wants at least.
pub needed : ℤ → ℕ
needed (negsuc n) = 1
needed (pos n) = n

-- The word behind the last argument begins with a dash, or there is none.
pub operands-flag :
    (xs : List (List ℕ)) → operands xs < length xs → is_flag (get_or xs (operands xs) []) ≡ true
unfolding operands
operands-flag [] h = absurd (omega arith)
operands-flag (x ∷ xs) h = elim (Bool-cases (is_flag x)) [
  | inl flag ↦ rw flag flag
  | inr word ↦ rw word (operands-flag xs (ground arith))
]

-- What a flag at the index `i` comes to: unknown, passed before, short of arguments, or accepted.
pub verdict : List (List ℕ) → Options → ℕ → Option ℕ → Code
verdict args options i none = failure einval
verdict args options i (some p) =
    if (options p).passed
    then failure enotsup
    else if ltb (operands (drop (suc i) args)) (needed (options p).accepts)
    then failure enodata
    else success

accept-Code :
    (args : List (List ℕ)) (i : ℕ) (po : ProgramOption) (accepts : ℤ)
    → (accept args i po accepts).0
      ≡ (if ltb (operands (drop (suc i) args)) (needed accepts) then failure enodata else success)
unfolding accept needed
accept-Code args i po (negsuc n) = ground arith
accept-Code args i po (pos zero) = ground arith
accept-Code args i po (pos (suc n)) =
    ground (arith, operands_upto-operands (suc n) (drop (suc i) args))

handle_option-verdict :
    (args : List (List ℕ)) (options : Options) (i : ℕ) (found : Option ℕ)
    → (handle_option args options i found).0 ≡ verdict args options i found
unfolding handle_option verdict
handle_option-verdict args options i none = refl
handle_option-verdict args options i (some p) = elim (Bool-cases (options p).passed) [
  | inl twice ↦ rw twice refl
  | inr once ↦
      rw once (accept-Code args i (record (options p) { passed = true }) (options p).accepts)
]

-- handle_argument returns -EINVAL for an unknown flag, -ENOTSUP for one that was passed, -ENODATA
-- where fewer words without a dash follow than the option needs, and 0 otherwise.
pub handle_argument-verdict :
    (flags : List ℕ → Option ℕ) (args : List (List ℕ)) (arg : List ℕ) (options : Options) (i : ℕ)
    → (handle_argument flags args arg options i).0 ≡ verdict args options i (flags arg)
unfolding handle_argument
handle_argument-verdict flags args arg options i = handle_option-verdict args options i (flags arg)
