-- ===== src/ConfigParser.antt =====
-- src/lib/util/config_parser.c: the loop over the bytes of a configuration file.
use libvci.Base.{
  ℕ, zero, suc, ◌+◌, Bool, true, false, ◌&&◌, ◌||◌, Option, none, some, List, [], ◌∷◌, ◌++◌, ltb,
  leb, ◌==◌, if◌then◌else◌, length, load, store, Run, ok, out_of_fuel, ◌>>=◌, Code, success,
  failure, einval,
}
mod Inside
mod Texts
mod Tests

-- parser_skip_line: `p` at the end of the line, or at a byte 255, which is EOF as a `char`.
pub parser_skip_line : ℕ → List ℕ → ℕ → Run ℕ
parser_skip_line zero mem p = out_of_fuel
parser_skip_line (suc fuel) mem p =
    let rest = parser_skip_line fuel mem (p + 1) in
    if ltb p (length mem)
    then load mem p >>= (λ c. if c == 10 || c == 255 then ok p else rest)
    else ok p

-- ' ', '\t' and '\0'
abbrev pub is_blank : ℕ → Bool
is_blank c = c == 32 || c == 9 || c == 0

-- The block, `p`, and whether the byte looked for was there.
abbrev pub ReadTo : Type 0
ReadTo = List ℕ × ℕ × Bool

-- One round for the byte `c` at `p`, where `rest` makes the rounds that follow.
pub read_byte : ℕ → List ℕ → ℕ → (List ℕ → Run ReadTo) → ℕ → Run ReadTo
read_byte stop mem p rest c =
    if is_blank c
    then store mem p 0 >>= rest
    else if c == stop
    then store mem p 0 >>= (λ m. ok (m, p, true))
    else rest mem

-- The loop that parser_read_key and parser_read_value share, to the byte `stop`.
pub read_to : ℕ → ℕ → List ℕ → ℕ → Run ReadTo
read_to zero stop mem p = out_of_fuel
read_to (suc fuel) stop mem p =
    if ltb p (length mem)
    then load mem p >>= read_byte stop mem p (λ m. read_to fuel stop m (p + 1))
    else ok (mem, p, false)

pub parser_read_key : ℕ → List ℕ → ℕ → Run ReadTo
parser_read_key fuel mem p = read_to fuel b'=' mem p

pub parser_read_value : ℕ → List ℕ → ℕ → Run ReadTo
parser_read_value fuel mem p = read_to fuel 10 mem p

-- isspace, in the C locale.
abbrev pub is_space : ℕ → Bool
is_space c = c == 32 || leb 9 c && leb c 13

-- The pairs of key and value that map_insert was called with, as pointers into the block.
abbrev pub Pairs : Type 0
Pairs = List (ℕ × ℕ)

abbrev pub Parsed : Type 0
Parsed = Code × List ℕ × Pairs

-- The rounds that follow, for the block, `p`, the key that waits for its value, and the pairs.
abbrev pub Rest : Type 0
Rest = List ℕ → ℕ → Option ℕ → Pairs → Run Parsed

-- What follows parser_read_key, and parser_read_value. `map_insert` gives its result for the pairs
-- up to the newest.
pub after_key : ℕ → Pairs → Rest → ReadTo → Run Parsed
after_key p pairs rest (mem, q, true) = rest mem (q + 1) (some p) pairs
after_key p pairs rest (mem, q, false) = ok (failure einval, mem, pairs)

pub insert_pair : Code → List ℕ → ℕ → Pairs → Rest → Run Parsed
insert_pair success mem q pairs rest = rest mem (q + 1) none pairs
insert_pair (failure e) mem q pairs rest = ok (failure e, mem, pairs)

pub after_value : (Pairs → Code) → ℕ → ℕ → Pairs → Rest → ReadTo → Run Parsed
after_value map_insert key p pairs rest (mem, q, true) =
    let all = pairs ++ (key, p) ∷ [] in insert_pair (map_insert all) mem q all rest
after_value map_insert key p pairs rest (mem, q, false) = ok (failure einval, mem, pairs)

pub read_item : ℕ → (Pairs → Code) → List ℕ → ℕ → Option ℕ → Pairs → Rest → Run Parsed
read_item fuel map_insert mem p none pairs rest =
    parser_read_key fuel mem p >>= after_key p pairs rest
read_item fuel map_insert mem p (some key) pairs rest =
    parser_read_value fuel mem p >>= after_value map_insert key p pairs rest

-- One round for the byte `c` at `p`.
pub parse_byte : ℕ → (Pairs → Code) → List ℕ → ℕ → Option ℕ → Pairs → Rest → ℕ → Run Parsed
parse_byte fuel map_insert mem p key pairs rest c =
    if is_space c
    then rest mem (p + 1) key pairs
    else if c == b'#' || c == b';'
    then parser_skip_line fuel mem p >>= (λ q. rest mem (q + 1) key pairs)
    else read_item fuel map_insert mem p key pairs rest

-- The loop of config_parser_parse.
pub parse_from : ℕ → (Pairs → Code) → Rest
parse_from zero map_insert mem p key pairs = out_of_fuel
parse_from (suc fuel) map_insert mem p key pairs =
    if ltb p (length mem)
    then load mem p >>= parse_byte fuel map_insert mem p key pairs (parse_from fuel map_insert)
    else ok (success, mem, pairs)
