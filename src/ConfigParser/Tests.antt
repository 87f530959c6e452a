-- ===== src/ConfigParser/Tests.antt =====
-- src/lib/util/config_parser.c: small files, and what the map is given for them.
use libvci.Base.{
  ℕ, ◌≡◌, refl, ◌==◌, if◌then◌else◌, none, List, [], ◌∷◌, drop, load, store, Run, ok, ◌>>=◌, Code,
  success, failure, einval, Returns, arith,
}
use libvci.ConfigParser.{
  parser_skip_line, read_byte, read_to, parser_read_key, parser_read_value, after_key, insert_pair,
  after_value, read_item, parse_byte, Pairs, parse_from,
}
use libvci.ConfigParser.Texts.{GivesTexts, parse_from-GivesTexts}

abbrev accepts_all : Pairs → Code
accepts_all pairs = success

-- The bytes up to the first NUL.
abbrev text : List ℕ → List ℕ
text [] = []
text (c ∷ cs) = if c == 0 then [] else c ∷ text cs

abbrev texts : List ℕ → Pairs → List (List ℕ)
texts mem [] = []
texts mem ((k, v) ∷ pairs) = text (drop k mem) ∷ text (drop v mem) ∷ texts mem pairs

abbrev parsed : List ℕ → Run (List (List ℕ))
parsed mem = parse_from 40 accepts_all mem 0 none [] >>= (λ out. ok (texts out.1 out.2))

abbrev code_of : List ℕ → Run Code
code_of mem = parse_from 40 accepts_all mem 0 none [] >>= (λ out. ok out.0)

-- "a =bc\n"
one_pair :
    parsed (b'a' ∷ 32 ∷ b'=' ∷ b'b' ∷ b'c' ∷ 10 ∷ []) ≡ ok ((b'a' ∷ []) ∷ (b'b' ∷ b'c' ∷ []) ∷ [])
unfolding parse_from parse_byte read_item after_key after_value insert_pair parser_read_key
    parser_read_value read_to read_byte parser_skip_line load store
one_pair = refl

-- "a=b c\n": the value ends at its first blank.
cut_value : parsed (b'a' ∷ b'=' ∷ b'b' ∷ 32 ∷ b'c' ∷ 10 ∷ []) ≡ ok ((b'a' ∷ []) ∷ (b'b' ∷ []) ∷ [])
unfolding parse_from parse_byte read_item after_key after_value insert_pair parser_read_key
    parser_read_value read_to read_byte parser_skip_line load store
cut_value = refl

-- "a=\nb=c\n": the line behind an empty value is the value.
next_line :
    parsed (b'a' ∷ b'=' ∷ 10 ∷ b'b' ∷ b'=' ∷ b'c' ∷ 10 ∷ [])
    ≡ ok ((b'a' ∷ []) ∷ (b'b' ∷ b'=' ∷ b'c' ∷ []) ∷ [])
unfolding parse_from parse_byte read_item after_key after_value insert_pair parser_read_key
    parser_read_value read_to read_byte parser_skip_line load store
next_line = refl

-- "a=b" with no newline.
no_newline : code_of (b'a' ∷ b'=' ∷ b'b' ∷ []) ≡ ok (failure einval)
unfolding parse_from parse_byte read_item after_key after_value insert_pair parser_read_key
    parser_read_value read_to read_byte parser_skip_line load store
no_newline = refl

parse_from-GivesTexts_example :
    Returns (GivesTexts 4) (parse_from 6 accepts_all (b'a' ∷ b'=' ∷ b'b' ∷ 10 ∷ []) 0 none [])
parse_from-GivesTexts_example =
    parse_from-GivesTexts 6 accepts_all (b'a' ∷ b'=' ∷ b'b' ∷ 10 ∷ []) (omega arith)
