-- ===== src/Options/Fits.antt =====
-- src/lib/util/options.c: options_parse ends, and the arguments that it gives out are words of the command line.
use libvci.Base.{
  ℕ, zero, suc, ◌+◌, ◌-◌, ◌≤◌, ◌<◌, ◌≡◌, refl, true, false, not, ◌||◌, Bool-cases, Option, none,
  some, inl, inr, List, [], ◌∷◌, ltb, ◌==◌, length, length-drop, get_or, take, drop, Returns,
  returns, Code, Errno, ◌⊎◌, success, failure, arith,
}
use libvci.Options.{
  ℤ, pos, negsuc, ProgramOption, is_flag, operands, operands_upto, accept, Accepted, Options,
  Handled, handle_option, handle_argument, handle_letters, handle_word, parse_from,
}
use libvci.Options.Operands.{
  Plain, operands-le, operands-Plain, operands_upto-operands, operands_upto-Plain,
}

-- `argc` words from `argv` on are in the command line, and none of them begins with a dash.
abbrev pub FitsFrom : List (List ℕ) → ℕ → Option ℕ → Type 0
FitsFrom args argc none = Unit
FitsFrom args argc (some a) = (a + argc ≤ length args) × Plain (take argc (drop a args))

-- And an option that is not passed has no arguments.
pub record IsFit (args : List (List ℕ)) (po : ProgramOption) : Type 0 where
  pub fits : FitsFrom args po.argc po.argv
  pub not_yet : po.passed ≡ false → po.argv ≡ none

-- The result of one flag at the index `i`.
record Proceeds (args : List (List ℕ)) (i : ℕ) (out : Accepted) : Type 0 where
  fit : IsFit args out.1
  onward : i ≤ out.2
  inside : out.2 < length args

module _ (args : List (List ℕ)) (i : ℕ) (po : ProgramOption) (passed : po.passed ≡ true) where
  passed_first : {P : Type 0} → po.passed ≡ false → P
  passed_first e = cc (passed)

  accept-Proceeds :
      (accepts : ℤ) → i < length args → po.argv ≡ none → Proceeds args i (accept args i po accepts)
  unfolding accept
  accept-Proceeds (negsuc n) inside empty =
      let rest = drop (suc i) args in
      elim (Bool-cases (operands rest == 0)) [
        | inl none_left ↦ rw none_left (record {
          fit = record { fits = rw empty tt; not_yet = λ e. empty };
          onward = omega arith;
          inside = inside;
        })
        | inr some_left ↦ rw some_left (record {
          fit = record {
            fits = (
              omega (arith, operands-le rest, length-drop {0} (suc i) args),
              operands-Plain rest,
            );
            not_yet = λ e. passed_first e;
          };
          onward = omega arith;
          inside = omega (arith, operands-le rest, length-drop {0} (suc i) args);
        })
      ]
  accept-Proceeds (pos zero) inside empty = record {
    fit = record { fits = tt; not_yet = λ e. refl };
    onward = omega arith;
    inside = inside;
  }
  accept-Proceeds (pos (suc n)) inside empty =
      let rest = drop (suc i) args in
      let limit = operands_upto-operands (suc n) rest in
      elim (Bool-cases (operands_upto (suc n) rest == suc n)) [
        | inl all_there ↦ rw all_there (record {
          fit = record {
            fits = (
              omega (arith, operands-le rest, limit, length-drop {0} (suc i) args),
              operands_upto-Plain (suc n) rest,
            );
            not_yet = λ e. passed_first e;
          };
          onward = omega arith;
          inside = omega (arith, operands-le rest, limit, length-drop {0} (suc i) args);
        })
        | inr few ↦ rw few (record {
          fit = record { fits = rw empty tt; not_yet = λ e. empty };
          onward = omega arith;
          inside = inside;
        })
      ]

-- The options, each with arguments that fit, after a call at the index `i`.
record AllFit (args : List (List ℕ)) (i : ℕ) (out : Handled) : Type 0 where
  every : (p : ℕ) → IsFit args (out.1 p)
  onward : i ≤ out.2
  inside : out.2 < length args

module _ (flags : List ℕ → Option ℕ) (args : List (List ℕ)) where
  handle_option-AllFit :
      (options : Options) (i : ℕ) (found : Option ℕ)
      → ((p : ℕ) → IsFit args (options p))
      → i < length args
      → AllFit args i (handle_option args options i found)
  unfolding handle_option
  handle_option-AllFit options i none fit inside = record {
    every = fit;
    onward = omega arith;
    inside = inside;
  }
  handle_option-AllFit options i (some p) fit inside = elim (Bool-cases (options p).passed) [
    | inl twice ↦ rw twice (record { every = fit; onward = omega arith; inside = inside })
    | inr once ↦
        let done =
          accept-Proceeds args i (record (options p) { passed = true }) refl (options p).accepts
            inside ((fit p).not_yet once) in
        rw once (record {
          every = λ q. elim (Bool-cases (p == q)) [
            | inl same ↦ rw same done.fit
            | inr other ↦ rw other (fit q)
          ];
          onward = done.onward;
          inside = done.inside;
        })
  ]

  Code-cases : (code : Code) → (code ≡ success) ⊎ ((e : Errno) × (code ≡ failure e))
  Code-cases success = inl refl
  Code-cases (failure e) = inr (e, refl)

  handle_letters-AllFit :
      (letters : List ℕ) (options : Options) (i : ℕ)
      → ((p : ℕ) → IsFit args (options p))
      → i < length args
      → AllFit args i (handle_letters flags args letters options i)
  unfolding handle_letters handle_argument
  handle_letters-AllFit [] options i fit inside = record {
    every = fit;
    onward = omega arith;
    inside = inside;
  }
  handle_letters-AllFit (c ∷ cs) options i fit inside =
      let out = handle_option args options i (flags (b'-' ∷ c ∷ [])) in
      let first = handle_option-AllFit options i (flags (b'-' ∷ c ∷ [])) fit inside in
      elim (Code-cases out.0) [
        | inl fine ↦
            let rest = handle_letters-AllFit cs out.1 out.2 first.every first.inside in
            rw (fine, handle_letters)
              (record {
                every = rest.every;
                onward = omega (arith, rest.onward, first.onward);
                inside = rest.inside;
              })
        | inr (e, wrong) ↦
            rw (wrong, handle_letters)
              (record { every = first.every; onward = first.onward; inside = first.inside })
      ]

  handle_word-AllFit :
      (options : Options) (i : ℕ)
      → ((p : ℕ) → IsFit args (options p))
      → i < length args
      → AllFit args i (handle_word flags args options i)
  unfolding handle_word handle_argument
  handle_word-AllFit options i fit inside =
      let arg : List ℕ = get_or args i [] in
      elim (Bool-cases (ltb (length arg) 2 || not (is_flag arg))) [
        | inl no_flag ↦ rw no_flag (record { every = fit; onward = omega arith; inside = inside })
        | inr flag ↦ rw flag (elim (Bool-cases (get_or arg 1 0 == b'-')) [
          | inl long ↦ rw long (handle_option-AllFit options i (flags arg) fit inside)
          | inr short ↦ rw short (handle_letters-AllFit (drop 1 arg) options i fit inside)
        ])
      ]

  -- The loop of options_parse, with a round for each word that is left and one more, ends;
  -- whatever it returns, the arguments of each option are words of the command line, and none of
  -- them begins with a dash, if that is so before and no option that is not passed has arguments.
  pub parse_from-IsFit :
      (fuel : ℕ) (options : Options) (i : ℕ)
      → ((p : ℕ) → IsFit args (options p))
      → length args - i < fuel
      → Returns (λ out. (p : ℕ) → IsFit args (out.1 p)) (parse_from fuel flags args options i)
  unfolding parse_from
  parse_from-IsFit zero options i fit enough = absurd (omega arith)
  parse_from-IsFit (suc fuel) options i fit enough =
      let out = handle_word flags args options i in
      elim (Bool-cases (ltb i (length args))) [
        | inl more ↦
            let inside : i < length args = ground arith in
            let word = handle_word-AllFit options i fit inside in
            rw more (elim (Code-cases out.0) [
              | inl fine ↦
                  rw fine (
                    parse_from-IsFit fuel out.1 (suc out.2) word.every (omega (arith, word.onward)))
              | inr (e, wrong) ↦ rw wrong (returns word.every)
            ])
        | inr done ↦ rw done (returns fit)
      ]
