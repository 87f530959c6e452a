-- ===== src/Options/Tests.antt =====
-- src/lib/util/options.c: command lines with a switch, an option of one argument, and one of many.
use libvci.Base.{
  ℕ, zero, suc, ◌≡◌, refl, false, Option, none, some, List, [], ◌∷◌, ◌==◌, if◌then◌else◌, Run, ok,
  ◌>>=◌, Returns, Code, success, failure, einval, enodata, enotsup, arith,
}
use libvci.Options.{
  ℤ, pos, negsuc, Options, operands, operands_upto, accept, handle_option, handle_argument,
  handle_letters, handle_word, parse_from,
}
use libvci.Options.Operands.{verdict, handle_argument-verdict}
use libvci.Options.Fits.{IsFit, parse_from-IsFit}

-- Option 0 is `-v`, a switch; 1 is `-o`, with one argument; any other is `-l`, with some.
abbrev wants : ℕ → ℤ
wants zero = pos 0
wants (suc zero) = pos 1
wants (suc (suc n)) = negsuc 0

abbrev options : Options
options p = record {
  cmd_flag_long = [];
  cmd_flag_short = [];
  argv = none;
  argc = 0;
  accepts = wants p;
  passed = false;
}

abbrev letter : ℕ → Option ℕ
letter c =
    if c == b'v' then some 0 else if c == b'o' then some 1 else if c == b'l' then some 2 else none

abbrev flags : List ℕ → Option ℕ
flags (d ∷ c ∷ []) = letter c
flags _ = none

abbrev word : ℕ → List ℕ
word c = c ∷ []

abbrev dashed : List ℕ → List ℕ
dashed cs = b'-' ∷ cs

abbrev code_of : List (List ℕ) → Run Code
code_of args = parse_from 9 flags args options 0 >>= (λ out. ok out.0)

both : code_of (dashed (b'v' ∷ b'o' ∷ []) ∷ word b'x' ∷ []) ≡ ok success
unfolding parse_from handle_word handle_letters handle_argument handle_option accept operands
    operands_upto
both = refl

too_few : code_of (dashed (word b'v') ∷ dashed (word b'o') ∷ []) ≡ ok (failure enodata)
unfolding parse_from handle_word handle_letters handle_argument handle_option accept operands
    operands_upto
too_few = refl

passed_twice : code_of (dashed (b'v' ∷ b'v' ∷ []) ∷ []) ≡ ok (failure enotsup)
unfolding parse_from handle_word handle_letters handle_argument handle_option accept operands
    operands_upto
passed_twice = refl

not_known : code_of (dashed (word b'z') ∷ []) ≡ ok (failure einval)
unfolding parse_from handle_word handle_letters handle_argument handle_option accept operands
    operands_upto
not_known = refl

many :
    (parse_from 9 flags (dashed (word b'l') ∷ word b'x' ∷ word b'y' ∷ []) options 0
      >>= (λ out. ok (out.1 2).argc))
    ≡ ok 2
unfolding parse_from handle_word handle_letters handle_argument handle_option accept operands
    operands_upto
many = refl

options-IsFit : (p : ℕ) → IsFit (dashed (word b'o') ∷ word b'x' ∷ []) (options p)
options-IsFit p = record { fits = tt; not_yet = λ e. refl }

parse_from-IsFit_example :
    Returns
      (λ out. (p : ℕ) → IsFit (dashed (word b'o') ∷ word b'x' ∷ []) (out.1 p))
      (parse_from 3 flags (dashed (word b'o') ∷ word b'x' ∷ []) options 0)
parse_from-IsFit_example =
    parse_from-IsFit flags (dashed (word b'o') ∷ word b'x' ∷ []) 3 options 0 options-IsFit
      (omega arith)

handle_argument-verdict_example :
    (handle_argument flags (dashed (word b'o') ∷ word b'x' ∷ []) (dashed (word b'o')) options 0).0
    ≡ verdict (dashed (word b'o') ∷ word b'x' ∷ []) options 0 (some 1)
handle_argument-verdict_example =
    handle_argument-verdict flags (dashed (word b'o') ∷ word b'x' ∷ []) (dashed (word b'o')) options
      0
