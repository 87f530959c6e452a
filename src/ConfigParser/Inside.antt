-- ===== src/ConfigParser/Inside.antt =====
-- src/lib/util/config_parser.c: the loops end, and keep to the block of the file.
use libvci.Base.{
  ℕ, zero, suc, ◌+◌, ◌-◌, ◌≤◌, ◌<◌, ◌≡◌, inl, inr, refl, ◌∙◌, true, Bool-cases, ◌||◌, Option, none,
  some, List, [], ◌∷◌, ◌++◌, ltb, ◌==◌, length, length-set, get_or, set, get_or-set, load, load-ok,
  store-ok, Run, Returns, returns, Returns-mono, Returns-bind, Returns-of_eq, arith,
}
use libvci.ConfigParser.{parser_skip_line, is_blank, ReadTo, read_byte, read_to, Pairs}

-- A text that begins at `k` ends with a NUL in the block.
pub record IsText (mem : List ℕ) (k : ℕ) : Type 0 where
  pub last : ℕ
  pub from_start : k ≤ last
  pub inside : last < length mem
  pub null : get_or mem last 0 ≡ 0

-- The new block is as long as the old one, and has a NUL wherever that had one.
pub record Overwrites (old new : List ℕ) : Type 0 where
  pub same_length : length new ≡ length old
  pub keeps_null : (q : ℕ) → get_or old q 0 ≡ 0 → get_or new q 0 ≡ 0

Overwrites-same : (mem : List ℕ) → Overwrites mem mem
Overwrites-same mem = record { same_length = refl; keeps_null = λ q h. h }

Overwrites-trans : {a b c : List ℕ} → Overwrites a b → Overwrites b c → Overwrites a c
Overwrites-trans f g = record {
  same_length = g.same_length ∙ f.same_length;
  keeps_null = λ q h. g.keeps_null q (f.keeps_null q h);
}

Overwrites-set : (mem : List ℕ) (p : ℕ) → p < length mem → Overwrites mem (set mem p 0)
Overwrites-set mem p h = record {
  same_length = length-set mem p 0;
  keeps_null = λ q e. ground (arith, get_or-set mem p q 0 0);
}

IsText-Overwrites : {old new : List ℕ} (k : ℕ) → Overwrites old new → IsText old k → IsText new k
IsText-Overwrites k f t = record {
  last = t.last;
  from_start = t.from_start;
  inside = omega (arith, t.inside, f.same_length);
  null = f.keeps_null t.last t.null;
}

pub skip_line-Returns :
    (fuel : ℕ) (mem : List ℕ) (p : ℕ)
    → length mem - p < fuel
    → Returns (λ q. p ≤ q) (parser_skip_line fuel mem p)
unfolding parser_skip_line
skip_line-Returns zero mem p enough = absurd (omega arith)
skip_line-Returns (suc fuel) mem p enough = elim (Bool-cases (ltb p (length mem))) [
  | inl more ↦
      let inside : p < length mem = ground arith in
      rw (more, load-ok mem p inside)
        (elim (Bool-cases (get_or mem p 0 == 10 || get_or mem p 0 == 255)) [
          | inl ends ↦ rw ends (returns (omega arith))
          | inr on ↦
              rw on (
                Returns-mono (skip_line-Returns fuel mem (p + 1) (omega arith))
                  (λ q h. omega arith))
        ])
  | inr done ↦ rw done (returns (omega arith))
]

-- What read_to returns: if the byte was there, a NUL stands in its place.
pub record Reads (mem : List ℕ) (p : ℕ) (out : ReadTo) : Type 0 where
  pub over : Overwrites mem out.0
  pub onward : p ≤ out.1
  pub ended : out.2 ≡ true → (out.1 < length mem) × (get_or out.0 out.1 0 ≡ 0)

Reads-next :
    {old new : List ℕ} {p : ℕ} {out : ReadTo}
    → Overwrites old new
    → Reads new (p + 1) out
    → Reads old p out
Reads-next over r = record {
  over = Overwrites-trans over r.over;
  onward = omega (arith, r.onward);
  ended = λ e. (omega (arith, (r.ended e).0, over.same_length), (r.ended e).1);
}

pub load-Returns :
    (mem : List ℕ) (p : ℕ) → p < length mem → Returns (λ c. c ≡ get_or mem p 0) (load mem p)
load-Returns mem p h = Returns-of_eq (load-ok mem p h) refl

read_byte-Reads :
    (stop : ℕ) (mem : List ℕ) (p : ℕ) (rest : List ℕ → Run ReadTo) (c : ℕ)
    → p < length mem
    → ((m : List ℕ) → length m ≡ length mem → Returns (Reads m (p + 1)) (rest m))
    → Returns (Reads mem p) (read_byte stop mem p rest c)
unfolding read_byte
read_byte-Reads stop mem p rest c inside more =
    let written = Overwrites-set mem p inside in
    elim (Bool-cases (is_blank c)) [
      | inl blank ↦
          rw (blank, store-ok mem p 0 inside)
            (Returns-mono (more (set mem p 0) written.same_length) (λ out r. Reads-next written r))
      | inr other ↦ rw other (elim (Bool-cases (c == stop)) [
        | inl found ↦
            rw (found, store-ok mem p 0 inside)
              (returns (record {
                over = written;
                onward = omega arith;
                ended = λ e. (inside, ground (arith, get_or-set mem p p 0 0));
              }))
        | inr on ↦
            rw on (Returns-mono (more mem refl) (λ out r. Reads-next (Overwrites-same mem) r))
      ])
    ]

pub read_to-Reads :
    (fuel stop : ℕ) (mem : List ℕ) (p : ℕ)
    → length mem - p < fuel
    → Returns (Reads mem p) (read_to fuel stop mem p)
unfolding read_to
read_to-Reads zero stop mem p enough = absurd (omega arith)
read_to-Reads (suc fuel) stop mem p enough = elim (Bool-cases (ltb p (length mem))) [
  | inl more ↦
      let inside : p < length mem = ground arith in
      rw more (
        Returns-bind (load-Returns mem p inside) (λ c is.
          read_byte-Reads stop mem p (λ m. read_to fuel stop m (p + 1)) c inside
            (λ m same. read_to-Reads fuel stop m (p + 1) (omega arith))))
  | inr done ↦
      rw done
        (returns (record { over = Overwrites-same mem; onward = omega arith; ended = λ e. cc (e) }))
]

abbrev pub AllTexts : List ℕ → Pairs → Type 0
AllTexts mem [] = Unit
AllTexts mem ((k, v) ∷ pairs) = IsText mem k × IsText mem v × AllTexts mem pairs

pub AllTexts-Overwrites :
    {old new : List ℕ} (pairs : Pairs)
    → Overwrites old new
    → AllTexts old pairs
    → AllTexts new pairs
AllTexts-Overwrites [] over h = tt
AllTexts-Overwrites ((k, v) ∷ pairs) over h =
    (IsText-Overwrites k over h.0, IsText-Overwrites v over h.1, AllTexts-Overwrites pairs over h.2)

pub AllTexts-snoc :
    (mem : List ℕ) (pairs : Pairs) (k v : ℕ)
    → AllTexts mem pairs
    → IsText mem k
    → IsText mem v
    → AllTexts mem (pairs ++ (k, v) ∷ [])
AllTexts-snoc mem [] k v h key value = (key, value, tt)
AllTexts-snoc mem ((j, w) ∷ pairs) k v h key value =
    (h.0, h.1, AllTexts-snoc mem pairs k v h.2 key value)

abbrev pub KeyText : List ℕ → Option ℕ → Type 0
KeyText mem none = Unit
KeyText mem (some k) = IsText mem k

pub KeyText-Overwrites :
    {old new : List ℕ} (key : Option ℕ) → Overwrites old new → KeyText old key → KeyText new key
KeyText-Overwrites none over h = tt
KeyText-Overwrites (some k) over h = IsText-Overwrites k over h
