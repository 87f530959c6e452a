-- ===== src/Buffer/Contents.antt =====
-- The invariant of a buffer, its bytes, and what reads and writes do to them.
use native.Mathlib.Nat.{pow-suc}
use libvci.Base.{
  ℕ, zero, suc, ◌+◌, ◌-◌, ◌/◌, ◌%◌, ◌^◌, ◌≤◌, ◌<◌, ◌≡◌, refl, sym, ap, ◌∙◌, arith, true, List, [],
  ◌∷◌, ◌++◌, length, take, drop, leb, length-append, length-take, length-drop, take-append,
  take_all, take-take, u64, ◌>>=◌, Returns, returns, Returns-bind,
}
use libvci.Buffer.{
  Buffer, copy_in, copy_out, buffer_write, buffer_read, encode, decode, buffer_write_value,
  buffer_read_value,
}

-- Both positions are in the block, and a block has fewer than 2^63 bytes.
pub record IsValid (buf : Buffer) : Type 0 where
  pub read : buf.accessed ≤ buf.used
  pub bounded : buf.used ≤ buf.size
  pub block : length buf.data_bytes ≡ buf.size
  pub small : buf.size < 2 ^ 63

-- The bytes that were written, and those of them that were not read yet.
abbrev pub contents : Buffer → List ℕ
contents buf = take buf.used buf.data_bytes

abbrev pub unread : Buffer → List ℕ
unread buf = drop buf.accessed (contents buf)

pub drop-append : (xs ys : List ℕ) (n : ℕ) → n ≤ length xs → drop n (xs ++ ys) ≡ drop n xs ++ ys
drop-append xs ys zero h = refl
drop-append [] ys (suc n) h = absurd (omega arith)
drop-append (x ∷ xs) ys (suc n) h = drop-append xs ys n (omega arith)

pub take-drop : (xs : List ℕ) (m n : ℕ) → take n (drop m xs) ≡ drop m (take (m + n) xs)
take-drop xs zero n = ap (λ k. take k xs) (omega arith)
take-drop [] (suc m) zero = let e : suc m + 0 ≡ suc m = omega arith in rw e refl
take-drop [] (suc m) (suc n) = let e : suc m + suc n ≡ suc (m + suc n) = omega arith in rw e refl
take-drop (x ∷ xs) (suc m) n =
    let e : suc m + n ≡ suc (m + n) = omega arith in rw e (take-drop xs m n)

pub drop-drop : (xs : List ℕ) (m n : ℕ) → drop n (drop m xs) ≡ drop (m + n) xs
drop-drop xs zero n = ap (λ k. drop k xs) (omega arith)
drop-drop [] (suc m) zero = let e : suc m + 0 ≡ suc m = omega arith in rw e refl
drop-drop [] (suc m) (suc n) = let e : suc m + suc n ≡ suc (m + suc n) = omega arith in rw e refl
drop-drop (x ∷ xs) (suc m) n =
    let e : suc m + n ≡ suc (m + n) = omega arith in rw e (drop-drop xs m n)

take_at_length : (xs ys : List ℕ) (n : ℕ) → n ≡ length xs → take n (xs ++ ys) ≡ xs
take_at_length xs ys n e = take-append n xs ys (omega arith) ∙ take_all n xs (omega arith)

append_assoc : (xs ys zs : List ℕ) → xs ++ (ys ++ zs) ≡ (xs ++ ys) ++ zs
append_assoc [] ys zs = refl
append_assoc (x ∷ xs) ys zs = ap (λ l. x ∷ l) (append_assoc xs ys zs)

-- What buffer_write leaves.
pub record Written (buf : Buffer) (bytes : List ℕ) (r : Buffer) : Type 0 where
  pub valid : IsValid r
  pub appended : contents r ≡ contents buf ++ bytes
  pub unread_appended : unread r ≡ unread buf ++ bytes
  pub size_kept : r.size ≡ buf.size

pub length-contents : {buf : Buffer} → IsValid buf → length (contents buf) ≡ buf.used
length-contents {buf} v = omega (arith, length-take {0} buf.used buf.data_bytes, v.bounded, v.block)

-- buffer_write on a valid buffer with enough room appends the bytes, also to those that are still
-- to be read.
pub buffer_write-append :
    (buf : Buffer) (bytes : List ℕ)
    → IsValid buf
    → buf.used + length bytes ≤ buf.size
    → Returns (Written buf bytes) (buffer_write buf bytes)
unfolding buffer_write copy_in
buffer_write-append buf bytes v room =
    let read = v.read in
    let block = v.block in
    let small = v.small in
    let n = length bytes in
    let fits : leb (buf.used + n) (length buf.data_bytes) ≡ true = ground arith in
    let used : (buf.used + n) % u64 ≡ buf.used + n = omega arith in
    let rest = drop (buf.used + n) buf.data_bytes in
    let size = length-contents v in
    let held : take (buf.used + n) (contents buf ++ (bytes ++ rest)) ≡ contents buf ++ bytes =
      ap (take (buf.used + n)) (append_assoc (contents buf) bytes rest)
      ∙ take_at_length (contents buf ++ bytes) rest (buf.used + n)
          (omega (arith, length-append {0} (contents buf) bytes)) in
    rw (fits, used)
      (returns (record {
        valid = record {
          read = omega arith;
          bounded = room;
          block = omega (
            arith,
            length-append {0} (contents buf) (bytes ++ rest),
            length-append {0} bytes rest,
            length-drop {0} (buf.used + n) buf.data_bytes,
          );
          small = small;
        };
        appended = held;
        unread_appended =
            ap (drop buf.accessed) held
            ∙ drop-append (contents buf) bytes buf.accessed (omega arith);
        size_kept = refl;
      }))

-- What buffer_read gives and leaves.
pub record Read (buf : Buffer) (n : ℕ) (r : List ℕ × Buffer) : Type 0 where
  pub bytes : r.0 ≡ take n (unread buf)
  pub valid : IsValid r.1
  pub kept : contents r.1 ≡ contents buf
  pub rest : unread r.1 ≡ drop n (unread buf)

-- buffer_read on a valid buffer that has as many bytes to read gives the next bytes, and only moves
-- the read position.
pub buffer_read-next :
    (buf : Buffer) (n : ℕ)
    → IsValid buf
    → buf.accessed + n ≤ buf.used
    → Returns (Read buf n) (buffer_read buf n)
unfolding buffer_read copy_out
buffer_read-next buf n v room =
    let bounded = v.bounded in
    let block = v.block in
    let small = v.small in
    let fits : leb (buf.accessed + n) (length buf.data_bytes) ≡ true = ground arith in
    let moved : (buf.accessed + n) % u64 ≡ buf.accessed + n = omega arith in
    rw (fits, moved)
      (returns (record {
        bytes =
            take-drop buf.data_bytes buf.accessed n
            ∙ ap (drop buf.accessed)
                (sym (take-take (buf.accessed + n) buf.used buf.data_bytes room))
            ∙ sym (take-drop (contents buf) buf.accessed n);
        valid = record { read = room; bounded = bounded; block = block; small = small };
        kept = refl;
        rest = sym (drop-drop (contents buf) buf.accessed n);
      }))

pub length-encode : (w v : ℕ) → length (encode w v) ≡ w
unfolding encode
length-encode zero v = refl
length-encode (suc w) v = ap suc (length-encode w (v / 256))

-- The bytes of a number that fits into `w` bytes give the number back.
pub decode-encode : (w v : ℕ) → v < 256 ^ w → decode (encode w v) ≡ v
unfolding decode encode
decode-encode zero v h = omega arith
decode-encode (suc w) v h =
    let smaller : v / 256 < 256 ^ w = omega (arith, pow-suc 256 w) in
    rw (decode-encode w (v / 256) smaller) (omega arith)

-- On a valid buffer with room and without unread bytes, the typed read that follows the typed write
-- of a number of `w` bytes returns the number, and leaves nothing to read.
pub buffer_read_value-buffer_write_value :
    (w : ℕ) (buf : Buffer) (v : ℕ)
    → IsValid buf
    → buf.accessed ≡ buf.used
    → buf.used + w ≤ buf.size
    → v < 256 ^ w
    → Returns
        (λ r. (r.0 ≡ v) × IsValid r.1 × (unread r.1 ≡ []))
        (buffer_write_value w buf v >>= buffer_read_value w)
unfolding buffer_write_value buffer_read_value
buffer_read_value-buffer_write_value w buf v valid all_read room h =
    let n = length-encode w v in
    let none_left : unread buf ≡ [] =
      drop_all (contents buf) buf.accessed (omega (arith, length-contents valid)) in
    Returns-bind (buffer_write-append buf (encode w v) valid (omega arith)) λ b p.
      let left : unread b ≡ encode w v =
        p.unread_appended ∙ ap (λ xs. xs ++ encode w v) none_left in
      let enough = unread_length b p.valid in
      let some_left = ap length left in
      Returns-bind (buffer_read-next b w p.valid (omega arith)) λ r q. returns (
        ap decode (q.bytes ∙ ap (take w) left ∙ take_all w (encode w v) (omega arith))
            ∙ decode-encode w v h,
        q.valid,
        q.rest ∙ ap (drop w) left ∙ drop_all (encode w v) w (omega arith),
      )
  where
    drop_all : (xs : List ℕ) (n : ℕ) → length xs ≤ n → drop n xs ≡ []
    drop_all [] zero h = refl
    drop_all [] (suc n) h = refl
    drop_all (x ∷ xs) zero h = absurd (omega arith)
    drop_all (x ∷ xs) (suc n) h = drop_all xs n (omega arith)

    unread_length : (b : Buffer) → IsValid b → length (unread b) ≡ b.used - b.accessed
    unread_length b v =
        length-drop b.accessed (contents b) ∙ ap (λ k. k - b.accessed) (length-contents v)
