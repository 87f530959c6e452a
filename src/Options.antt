-- ===== src/Options.antt =====
-- src/lib/util/options.c, include/options.h: the flags of a command line and their arguments.
use libvci.Base.{
  ℕ, zero, suc, ◌+◌, Bool, true, false, not, ◌&&◌, ◌||◌, Option, none, some, List, [], ◌∷◌, ltb,
  ◌==◌, if◌then◌else◌, length, get_or, drop, Run, ok, out_of_fuel, Code, success, failure, einval,
  enodata, enotsup,
}
mod Operands
mod Fits
mod Tests

-- An `int`; `negsuc n` is -(n + 1).
pub data ℤ : Type 0 where
  pos : ℕ → ℤ
  negsuc : ℕ → ℤ

-- `struct program_option`. The arguments are those from the index `argv` of the command line on.
pub record ProgramOption : Type 0 where
  pub cmd_flag_long : List ℕ
  pub cmd_flag_short : List ℕ
  pub argv : Option ℕ
  pub argc : ℕ
  pub accepts : ℤ
  pub passed : Bool

-- `arg[0] == '-'`, where the empty text begins with its NUL.
abbrev pub is_flag : List ℕ → Bool
is_flag [] = false
is_flag (c ∷ cs) = c == b'-'

-- `while (j < argc && argv[j][0] != '-') ++j`
pub operands : List (List ℕ) → ℕ
operands [] = 0
operands (x ∷ xs) = if is_flag x then 0 else suc (operands xs)

-- The same, for so many rounds at most.
pub operands_upto : ℕ → List (List ℕ) → ℕ
operands_upto zero xs = 0
operands_upto (suc n) [] = 0
operands_upto (suc n) (x ∷ xs) = if is_flag x then 0 else suc (operands_upto n xs)

-- The result of a call, the option afterwards, and the new `*i`.
abbrev pub Accepted : Type 0
Accepted = Code × ProgramOption × ℕ

-- The three cases of handle_argument for an option that is passed at the index `i`.
pub accept : List (List ℕ) → ℕ → ProgramOption → ℤ → Accepted
accept args i po (negsuc n) =
    let k = operands (drop (suc i) args) in
    if k == 0
    then (failure enodata, record po { argc = 0 }, i)
    else (success, record po { argc = k; argv = some (suc i) }, i + k)
accept args i po (pos zero) = (success, record po { argc = 0; argv = none }, i)
accept args i po (pos (suc n)) =
    let k = operands_upto (suc n) (drop (suc i) args) in
    if k == suc n
    then (success, record po { argc = k; argv = some (suc i) }, i + k)
    else (failure enodata, record po { argc = k }, i)

abbrev pub Options : Type 0
Options = ℕ → ProgramOption

abbrev pub Handled : Type 0
Handled = Code × Options × ℕ

abbrev pub put : Options → ℕ → ProgramOption → Options
put options p po q = if p == q then po else options q

-- handle_argument, when the map has this option for the flag, or none.
pub handle_option : List (List ℕ) → Options → ℕ → Option ℕ → Handled
handle_option args options i none = (failure einval, options, i)
handle_option args options i (some p) =
    let po = options p in
    let (code, po', j) = accept args i (record po { passed = true }) po.accepts in
    if po.passed then (failure enotsup, options, i) else (code, put options p po', j)

-- handle_argument, where the map of flags gives the option of a flag.
pub handle_argument : (List ℕ → Option ℕ) → List (List ℕ) → List ℕ → Options → ℕ → Handled
handle_argument flags args arg options i = handle_option args options i (flags arg)

-- The letters of `-abc`, each as a flag of its own.
pub handle_letters : (List ℕ → Option ℕ) → List (List ℕ) → List ℕ → Options → ℕ → Handled
handle_letters flags args [] options i = (success, options, i)
handle_letters flags args (c ∷ cs) options i =
    let (code, options', j) = handle_argument flags args (b'-' ∷ c ∷ []) options i in
    let rest = handle_letters flags args cs options' j in
    elim code [ success ↦ rest | failure e ↦ (failure e, options', j) ]

-- One round of the loop of options_parse.
pub handle_word : (List ℕ → Option ℕ) → List (List ℕ) → Options → ℕ → Handled
handle_word flags args options i =
    let arg = get_or args i [] in
    if ltb (length arg) 2 || not (is_flag arg)
    then (failure einval, options, i)
    else if get_or arg 1 0 == b'-'
    then handle_argument flags args arg options i
    else handle_letters flags args (drop 1 arg) options i

-- The loop of options_parse.
pub parse_from : ℕ → (List ℕ → Option ℕ) → List (List ℕ) → Options → ℕ → Run (Code × Options)
parse_from zero flags args options i = out_of_fuel
parse_from (suc fuel) flags args options i =
    let (code, options', j) = handle_word flags args options i in
    let rest = parse_from fuel flags args options' (suc j) in
    if ltb i (length args)
    then elim code [ success ↦ rest | failure e ↦ ok (failure e, options') ]
    else ok (success, options)
