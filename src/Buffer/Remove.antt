-- ===== src/Buffer/Remove.antt =====
-- _buffer_remove moves one byte too many: buffer_clear_accessed and buffer_clear_unaccessed.
use libvci.Base.{
  ℕ, zero, suc, ◌+◌, ◌-◌, ◌%◌, ◌<◌, ◌≡◌, refl, sym, ap, ◌∙◌, arith, true, List, [], ◌∷◌, ◌++◌,
  length, take, drop, leb, length-append, length-take, length-drop, take-append, take-take, u64,
  fault, move, move-fault, Returns, returns,
}
use libvci.Buffer.{Buffer, buffer_remove, buffer_clear_accessed, buffer_clear_unaccessed}
use libvci.Buffer.Contents.{IsValid, contents, unread, take-drop}

-- buffer_clear_accessed on a valid buffer whose block is not full drops the bytes that were read and
-- keeps the others.
pub buffer_clear_accessed-drops :
    (buf : Buffer)
    → IsValid buf
    → buf.used < buf.size
    → Returns
        (λ r. IsValid r × (r.accessed ≡ 0) × (contents r ≡ unread buf) × (r.size ≡ buf.size))
        (buffer_clear_accessed buf)
unfolding buffer_clear_accessed buffer_remove move
buffer_clear_accessed-drops buf v room =
    let read = v.read in
    let block = v.block in
    let small = v.small in
    let a = buf.accessed in
    let m = buf.used - a + 1 in
    let count : (buf.used + u64 - 0 + u64 - a + 1) % u64 ≡ m = omega arith in
    let left : (buf.used + u64 - a) % u64 ≡ buf.used - a = omega arith in
    let from : 0 + a ≡ a = omega arith in
    let to : 0 + m ≡ m = omega arith in
    let fits : leb m (length buf.data_bytes) ≡ true = ground arith in
    let inside : leb (a + m) (length buf.data_bytes) ≡ true = ground arith in
    let moved = take m (drop a buf.data_bytes) in
    let size : length moved ≡ m =
      omega (arith, length-take {0} m (drop a buf.data_bytes), length-drop {0} a buf.data_bytes) in
    rw (count, left, from, to, fits, inside)
      (returns (
        (record {
          read = omega arith;
          bounded = omega arith;
          block = omega (
            arith,
            length-append {0} moved (drop m buf.data_bytes),
            length-drop {0} m buf.data_bytes,
          );
          small = small;
        }),
        refl,
        take-append (buf.used - a) moved (drop m buf.data_bytes) (omega arith)
            ∙ take-take (buf.used - a) m (drop a buf.data_bytes) (omega arith)
            ∙ take-drop buf.data_bytes a (buf.used - a)
            ∙ ap (λ n. drop a (take n buf.data_bytes)) (omega arith),
        refl,
      ))

-- buffer_clear_unaccessed on a valid buffer whose block is not full keeps just the bytes that were
-- read.
pub buffer_clear_unaccessed-keeps_read :
    (buf : Buffer)
    → IsValid buf
    → buf.used < buf.size
    → Returns
        (λ r. IsValid r × (contents r ≡ take buf.accessed (contents buf)) × (unread r ≡ []))
        (buffer_clear_unaccessed buf)
unfolding buffer_clear_unaccessed buffer_remove move
buffer_clear_unaccessed-keeps_read buf v room =
    let read = v.read in
    let block = v.block in
    let small = v.small in
    let a = buf.accessed in
    let n = buf.used - a in
    let cut : (buf.used + u64 - a) % u64 ≡ n = omega arith in
    let count : (buf.used + u64 - a + u64 - n + 1) % u64 ≡ 1 = omega arith in
    let left : (buf.used + u64 - n) % u64 ≡ a = omega arith in
    let fits : leb (a + 1) (length buf.data_bytes) ≡ true = ground arith in
    let inside : leb (a + n + 1) (length buf.data_bytes) ≡ true = ground arith in
    let moved = take 1 (drop (a + n) buf.data_bytes) in
    let size : length moved ≡ 1 = omega (
      arith,
      length-take {0} 1 (drop (a + n) buf.data_bytes),
      length-drop {0} (a + n) buf.data_bytes,
    ) in
    let front : length (take a buf.data_bytes) ≡ a =
      omega (arith, length-take {0} a buf.data_bytes) in
    let rest = drop (a + 1) buf.data_bytes in
    let held : take a (take a buf.data_bytes ++ (moved ++ rest)) ≡ take a buf.data_bytes =
      take-append a (take a buf.data_bytes) (moved ++ rest) (omega arith)
      ∙ take-take a a buf.data_bytes (omega arith) in
    rw (cut, count, left, fits, inside)
      (returns (
        (record {
          read = omega arith;
          bounded = omega arith;
          block = omega (
            arith,
            length-append {0} (take a buf.data_bytes) (moved ++ rest),
            length-append {0} moved rest,
            length-drop {0} (a + 1) buf.data_bytes,
          );
          small = small;
        }),
        held ∙ sym (take-take a buf.used buf.data_bytes (omega arith)),
        ap (drop a) held ∙ none_left (take a buf.data_bytes) a front,
      ))
  where
    none_left : (xs : List ℕ) (n : ℕ) → length xs ≡ n → drop n xs ≡ []
    none_left [] zero h = refl
    none_left [] (suc n) h = refl
    none_left (x ∷ xs) zero h = absurd (omega arith)
    none_left (x ∷ xs) (suc n) h = none_left xs n (omega arith)

-- On a valid buffer whose block is full, buffer_clear_accessed and buffer_clear_unaccessed both read
-- the byte behind the block.
pub buffer_remove-fault_when_full :
    (buf : Buffer)
    → IsValid buf
    → buf.used ≡ buf.size
    → (buffer_clear_accessed buf ≡ fault) × (buffer_clear_unaccessed buf ≡ fault)
unfolding buffer_clear_accessed buffer_clear_unaccessed buffer_remove
buffer_remove-fault_when_full buf v full =
    let read = v.read in
    let block = v.block in
    let small = v.small in
    let a = buf.accessed in
    let n = buf.used - a in
    let cut : (buf.used + u64 - a) % u64 ≡ n = omega arith in
    let count : (buf.used + u64 - 0 + u64 - a + 1) % u64 ≡ n + 1 = omega arith in
    let count' : (buf.used + u64 - a + u64 - n + 1) % u64 ≡ 1 = omega arith in
    let outside = move-fault buf.data_bytes 0 (0 + a) (n + 1) (omega arith) in
    let outside' = move-fault buf.data_bytes a (a + n) 1 (omega arith) in
    (rw (count, outside) refl, rw (cut, count', outside') refl)
