-- ===== src/ConfigParser/Texts.antt =====
-- src/lib/util/config_parser.c: the keys and values that config_parser_parse gives to the map are texts.
use libvci.Base.{
  ℕ, zero, suc, ◌+◌, ◌-◌, ◌≤◌, ◌<◌, ◌≡◌, inl, inr, refl, ◌∙◌, true, false, Bool-cases, ◌||◌, Option,
  none, some, List, [], ◌∷◌, ◌++◌, ltb, ◌==◌, length, Code, success, failure, Returns, returns,
  Returns-bind, arith,
}
use libvci.ConfigParser.{
  ReadTo, parser_read_key, parser_read_value, is_space, Pairs, Parsed, Rest, after_key, insert_pair,
  after_value, read_item, parse_byte, parse_from,
}
use libvci.ConfigParser.Inside.{
  IsText, skip_line-Returns, Reads, load-Returns, read_to-Reads, AllTexts, AllTexts-Overwrites,
  AllTexts-snoc, KeyText, KeyText-Overwrites,
}

-- The block has kept its length, and each key and value ends with a NUL in it.
abbrev pub GivesTexts : ℕ → Parsed → Type 0
GivesTexts size out = (length out.1 ≡ size) × AllTexts out.1 out.2

module _ (size : ℕ) (map_insert : Pairs → Code) (p : ℕ) (rest : Rest) where
  -- The rounds that follow behind `p` give texts.
  abbrev GoesOn : Type 0
  GoesOn =
      (m : List ℕ) (q : ℕ) (key : Option ℕ) (pairs : Pairs)
      → length m ≡ size
      → p < q
      → KeyText m key
      → AllTexts m pairs
      → Returns (GivesTexts size) (rest m q key pairs)

  module _ (mem : List ℕ) (pairs : Pairs) (same : length mem ≡ size) (texts : AllTexts mem pairs)
      (goes_on : GoesOn) where
    after_key-Texts :
        (out : ReadTo) → Reads mem p out → Returns (GivesTexts size) (after_key p pairs rest out)
    unfolding after_key
    after_key-Texts (m, q, true) r =
        let kept = AllTexts-Overwrites pairs r.over texts in
        let end = r.ended refl in
        goes_on m (q + 1) (some p) pairs (r.over.same_length ∙ same) (omega (arith, r.onward))
          (record {
            last = q;
            from_start = r.onward;
            inside = omega (arith, end.0, r.over.same_length);
            null = end.1;
          })
          kept
    after_key-Texts (m, q, false) r =
        returns (r.over.same_length ∙ same, AllTexts-Overwrites pairs r.over texts)

    insert_pair-Texts :
        (code : Code) (m : List ℕ) (q : ℕ) (all : Pairs)
        → length m ≡ size
        → p ≤ q
        → AllTexts m all
        → Returns (GivesTexts size) (insert_pair code m q all rest)
    unfolding insert_pair
    insert_pair-Texts success m q all long later h =
        goes_on m (q + 1) none all long (omega arith) tt h
    insert_pair-Texts (failure e) m q all long later h = returns (long, h)

    after_value-Texts :
        (key : ℕ)
        → IsText mem key
        → (out : ReadTo) → Reads mem p out
        → Returns (GivesTexts size) (after_value map_insert key p pairs rest out)
    unfolding after_value
    after_value-Texts key k (m, q, true) r =
        let end = r.ended refl in
        let value : IsText m p = record {
          last = q;
          from_start = r.onward;
          inside = omega (arith, end.0, r.over.same_length);
          null = end.1;
        } in
        let all =
          AllTexts-snoc m pairs key p (AllTexts-Overwrites pairs r.over texts)
            (KeyText-Overwrites (some key) r.over k) value in
        insert_pair-Texts (map_insert (pairs ++ (key, p) ∷ [])) m q (pairs ++ (key, p) ∷ [])
          (r.over.same_length ∙ same) r.onward all
    after_value-Texts key k (m, q, false) r =
        returns (r.over.same_length ∙ same, AllTexts-Overwrites pairs r.over texts)

    module _ (fuel : ℕ) (enough : size - p < fuel) where
      read_item-Texts :
          (key : Option ℕ)
          → KeyText mem key
          → Returns (GivesTexts size) (read_item fuel map_insert mem p key pairs rest)
      unfolding read_item parser_read_key parser_read_value
      read_item-Texts none k =
          Returns-bind (read_to-Reads fuel b'=' mem p (omega arith)) after_key-Texts
      read_item-Texts (some key) k =
          Returns-bind (read_to-Reads fuel 10 mem p (omega arith)) (after_value-Texts key k)

      parse_byte-Texts :
          (key : Option ℕ) (c : ℕ)
          → KeyText mem key
          → Returns (GivesTexts size) (parse_byte fuel map_insert mem p key pairs rest c)
      unfolding parse_byte
      parse_byte-Texts key c k = elim (Bool-cases (is_space c)) [
        | inl space ↦ rw space (goes_on mem (p + 1) key pairs same (omega arith) k texts)
        | inr other ↦ rw other (elim (Bool-cases (c == b'#' || c == b';')) [
          | inl comment ↦ rw comment (
              Returns-bind (skip_line-Returns fuel mem p (omega arith))
                (λ q later. goes_on mem (q + 1) key pairs same (omega arith) k texts))
          | inr item ↦ rw item (read_item-Texts key k)
        ])
      ]

module _ (size : ℕ) (map_insert : Pairs → Code) where
  parse_loop-Texts :
      (fuel : ℕ) (mem : List ℕ) (p : ℕ) (key : Option ℕ) (pairs : Pairs)
      → suc (size - p) < fuel
      → length mem ≡ size
      → KeyText mem key
      → AllTexts mem pairs
      → Returns (GivesTexts size) (parse_from fuel map_insert mem p key pairs)
  unfolding parse_from
  parse_loop-Texts zero mem p key pairs enough same k texts = absurd (omega arith)
  parse_loop-Texts (suc fuel) mem p key pairs enough same k texts =
      elim (Bool-cases (ltb p (length mem))) [
        | inl more ↦
            let inside : p < length mem = ground arith in
            rw more (
              Returns-bind (load-Returns mem p inside) (λ c is.
                parse_byte-Texts size map_insert p (parse_from fuel map_insert) mem pairs same texts
                  (λ m q j ps long later kt ts.
                    parse_loop-Texts fuel m q j ps (omega arith) long kt ts)
                  fuel (omega arith) key c k))
        | inr done ↦ rw done (returns (same, texts))
      ]

-- Whatever the bytes of the file, config_parser_parse ends, with two rounds more than there are
-- bytes; no access is outside the block, and each key and each value that it gives to map_insert
-- ends with a NUL in the block.
pub parse_from-GivesTexts :
    (fuel : ℕ) (map_insert : Pairs → Code) (mem : List ℕ)
    → suc (length mem) < fuel
    → Returns (GivesTexts (length mem)) (parse_from fuel map_insert mem 0 none [])
parse_from-GivesTexts fuel map_insert mem enough =
    parse_loop-Texts (length mem) map_insert fuel mem 0 none [] (omega arith) refl tt tt
