-- ===== src/Buffer/Grow.antt =====
-- buffer_prepare_write, buffer_squeeze and buffer_init: the size of the block.
use native.Mathlib.Nat.{pow-suc, mul_assoc}
use libvci.Base.{
  ℕ, zero, suc, ◌+◌, ◌*◌, ◌%◌, ◌^◌, ◌≤◌, ◌<◌, ◌≡◌, refl, ap, ◌⊎◌, inl, inr, arith, true, some, List,
  leb, ◌==◌, Bool-cases, length-resized, take-resized, length-tabulate, tabulate, u32, u64, ok,
  Code, success, failure, enomem, Allocator, realloc, malloc, Run, ◌>>=◌, false, Returns, returns,
  Returns-keep, Returns-of_eq, Returns-mono, Returns-bind,
}
use libvci.Nice.{get_nice_size}
use libvci.Nice.Power.{get_nice_size_bounds}
use libvci.Buffer.{
  Buffer, nice_size, reallocate, buffer_init, buffer_resize, widen, buffer_prepare_write,
  buffer_squeeze,
}
use libvci.Buffer.Contents.{IsValid, contents}

-- The allocator does not grant the number of bytes that is asked for.
abbrev pub Denied : Allocator → Run ℕ → Type 0
Denied mem asked = (k : ℕ) × (asked ≡ ok k) × (mem.grants k ≡ false)

-- What a change of the block's size leaves: the bytes and the positions, and if it succeeds, `least`
-- bytes of room; if it fails, the allocator does not grant the bytes that are asked for.
pub record Sized (mem : Allocator) (buf : Buffer) (asked : Run ℕ) (least : ℕ) (r : Code × Buffer)
    : Type 0 where
  pub valid : IsValid r.1
  pub kept : contents r.1 ≡ contents buf
  pub read_kept : r.1.accessed ≡ buf.accessed
  pub used_kept : r.1.used ≡ buf.used
  pub outcome :
      ((r.0 ≡ success) × (least ≤ r.1.size))
      ⊎ ((r.0 ≡ failure enomem) × (r.1 ≡ buf) × Denied mem asked)

reallocate-Sized :
    (mem : Allocator) (buf : Buffer) (asked : Run ℕ) (least n : ℕ)
    → asked ≡ ok n
    → IsValid buf
    → buf.used ≤ n
    → least ≤ n
    → n ≤ 2 ^ 31
    → Sized mem buf asked least (reallocate mem buf n)
unfolding reallocate realloc
reallocate-Sized mem buf asked least n e v fits enough small =
    let bounded = v.bounded in
    let block = v.block in
    elim (Bool-cases (mem.grants n)) [
      | inl granted ↦
          rw (granted, reallocate, realloc)
            (record {
              valid = record {
                read = v.read;
                bounded = fits;
                block = length-resized mem buf.data_bytes n;
                small = omega arith;
              };
              kept = take-resized mem buf.data_bytes n buf.used fits (omega arith);
              read_kept = refl;
              used_kept = refl;
              outcome = inl (refl, enough);
            })
      | inr refused ↦
          rw (refused, reallocate, realloc)
            (record {
              valid = v;
              kept = refl;
              read_kept = refl;
              used_kept = refl;
              outcome = inr (refl, refl, (n, e, refused));
            })
    ]

buffer_resize-Sized :
    (mem : Allocator) (buf : Buffer) (n : ℕ)
    → IsValid buf
    → buf.used ≤ n
    → n ≤ 2 ^ 31
    → Returns (Sized mem buf (nice_size n) n) (buffer_resize mem buf n)
unfolding buffer_resize nice_size
buffer_resize-Sized mem buf n v fits small =
    let whole : n % u32 ≡ n = omega arith in
    rw whole (
      Returns-bind (Returns-keep (get_nice_size_bounds n 128 small (omega arith)))
        λ k (e, (enough, least, most)). elim (Bool-cases (k == buf.size)) [
          | inl same ↦ rw same (
              returns (record {
                valid = v;
                kept = refl;
                read_kept = refl;
                used_kept = refl;
                outcome = inl (refl, ground arith);
              }))
          | inr other ↦ rw other (
              returns
                (reallocate-Sized mem buf (get_nice_size n 128) n k e v (omega arith) enough most))
        ])

-- Each round doubles, so that the first size above `least` is at most twice as large.
widen-double :
    (fuel least n : ℕ)
    → least < 2 ^ 30
    → 0 < n
    → n ≤ 2 * least + 1
    → least < n * 2 ^ fuel
    → Returns (λ r. (least < r) × (n ≤ r) × (r ≤ 2 * least + 1)) (widen (suc fuel) least n)
unfolding widen
widen-double zero least n small pos most enough = elim (Bool-cases (leb n least)) [
  | inr above ↦ rw above (returns (ground arith, omega arith, most))
  | inl below ↦ absurd (ground arith)
]
widen-double (suc fuel) least n small pos most enough = elim (Bool-cases (leb n least)) [
  | inr above ↦ rw above (returns (ground arith, omega arith, most))
  | inl below ↦
      let le : n ≤ least = ground arith in
      let doubled : (n * 2) % u64 ≡ n * 2 = omega arith in
      let enough' : least < (n * 2) * 2 ^ fuel =
        omega (arith, ap (λ k. n * k) (pow-suc 2 fuel), mul_assoc n 2 (2 ^ fuel)) in
      rw (below, doubled)
        (Returns-mono (widen-double fuel least (n * 2) small (omega arith) (omega arith) enough')
          λ r (a, b, c). (a, omega arith, c))
]

-- The size that buffer_prepare_write asks for where the block is too small.
abbrev pub wide_size : Buffer → ℕ → Run ℕ
wide_size buf n = widen 65 (buf.size + n) buf.size >>= nice_size

-- buffer_prepare_write on a valid buffer whose block is not empty, where the size of the block and
-- the bytes asked for are less than 2^30 in all, makes room for as many further bytes as were
-- asked for and keeps what was written; or the allocator does not grant the size that the doubling
-- and the rounding give, and nothing changes.
pub buffer_prepare_write-Sized :
    (mem : Allocator) (buf : Buffer) (n : ℕ)
    → IsValid buf
    → 0 < buf.size
    → buf.size + n < 2 ^ 30
    → Returns (Sized mem buf (wide_size buf n) (buf.used + n)) (buffer_prepare_write mem buf n)
unfolding buffer_prepare_write
buffer_prepare_write-Sized mem buf n v pos small =
    let bounded = v.bounded in
    let need : (buf.used + n) % u64 ≡ buf.used + n = omega arith in
    let least : (buf.size + n) % u64 ≡ buf.size + n = omega arith in
    elim (Bool-cases (leb (buf.used + n) buf.size)) [
      | inl room ↦
          rw (need, room)
            (returns (record {
              valid = v;
              kept = refl;
              read_kept = refl;
              used_kept = refl;
              outcome = inl (refl, ground arith);
            }))
      | inr full ↦
          rw (need, full, least)
            (Returns-bind
              (Returns-keep
                (widen-double 64 (buf.size + n) buf.size small pos (omega arith) (omega arith)))
              λ k (e, (enough, grown, most)).
                Returns-mono (buffer_resize-Sized mem buf k v (omega arith) (omega arith)) λ r s.
                  record {
                    valid = s.valid;
                    kept = s.kept;
                    read_kept = s.read_kept;
                    used_kept = s.used_kept;
                    outcome = weaken r k e (omega arith) s.outcome;
                  })
    ]
  where
    weaken :
        (r : Code × Buffer) (k : ℕ)
        → widen 65 (buf.size + n) buf.size ≡ ok k
        → buf.used + n ≤ k
        → ((r.0 ≡ success) × (k ≤ r.1.size))
          ⊎ ((r.0 ≡ failure enomem) × (r.1 ≡ buf) × Denied mem (nice_size k))
        → ((r.0 ≡ success) × (buf.used + n ≤ r.1.size))
          ⊎ ((r.0 ≡ failure enomem) × (r.1 ≡ buf) × Denied mem (wide_size buf n))
    weaken r k e h (inl (done, room)) = inl (done, omega arith)
    weaken r k e h (inr (code, same, (m, asked, denied))) =
        inr (code, same, (m, rw e asked, denied))

-- buffer_squeeze on a valid buffer of at most 2^31 bytes keeps the bytes and the positions, whether
-- or not the block could be moved.
pub buffer_squeeze-kept :
    (mem : Allocator) (buf : Buffer)
    → IsValid buf
    → buf.used ≤ 2 ^ 31
    → Returns
        (λ r.
          IsValid r
          × (contents r ≡ contents buf)
          × (r.accessed ≡ buf.accessed)
          × (r.used ≡ buf.used))
        (buffer_squeeze mem buf)
unfolding buffer_squeeze
buffer_squeeze-kept mem buf v small =
    Returns-bind (buffer_resize-Sized mem buf buf.used v (omega arith) small)
      λ r s. returns (s.valid, s.kept, s.read_kept, s.used_kept)

nice_size-cut : (k : ℕ) → nice_size (u32 * k) ≡ ok 128
unfolding nice_size get_nice_size
nice_size-cut k = let cut : (u32 * k) % u32 ≡ 0 = omega arith in rw cut refl

malloc-granted :
    (mem : Allocator) (n : ℕ) → mem.grants n ≡ true → malloc mem n ≡ some (tabulate n 0 mem.junk)
unfolding malloc
malloc-granted mem n granted = rw granted refl

-- buffer_init for a multiple of 2^32 bytes succeeds with a block of 128 bytes, since the size is cut
-- to 32 bits before it is rounded.
pub buffer_init-truncates :
    (mem : Allocator) (k : ℕ)
    → mem.grants 128 ≡ true
    → Returns
        (λ r.
          (b : Buffer) × (r ≡ (success, some b))
          × IsValid b
          × (b.size ≡ 128)
          × (contents b ≡ List.[]))
        (buffer_init mem (u32 * k))
unfolding buffer_init
buffer_init-truncates mem k granted =
    Returns-bind (Returns-of_eq {Good = λ n. n ≡ 128} (nice_size-cut k) refl) λ n e.
      rw (e, malloc-granted mem 128 granted, e)
        (returns (
          (record { data_bytes = tabulate 128 0 mem.junk; accessed = 0; used = 0; size = 128 }),
          refl,
          (record {
            read = omega arith;
            bounded = omega arith;
            block = length-tabulate {0} 128 0 mem.junk;
            small = omega arith;
          }),
          refl,
          refl,
        ))
