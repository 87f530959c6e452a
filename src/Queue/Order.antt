-- ===== src/Queue/Order.antt =====
-- A queue hands out its links in the order in which they came.
use mathlib.Core.List.{reverse, reverse-append, append-nil, append_assoc}
use libvci.Base.{
  ℕ, zero, suc, ◌+◌, ◌<◌, ◌≡◌, refl, sym, subst, ap, ◌∙◌, ◌≢◌, arith, List, [], ◌∷◌, ◌++◌, length,
  length-append, u32,
}
use libvci.Links.{Links, list_insert_front}
use libvci.Links.Chain.{Fresh, IsRing}
use libvci.Links.Insert.{list_insert_front-cons}
use libvci.Links.Take.{list_take_back-snoc}
use libvci.Links.Walk.{list_init-nil, Fresh-reverse}
use libvci.Queue.{Queue, queue_init, queue_insert, queue_take}

-- `q` holds the links `xs`, the oldest first.
pub record IsQueue (s : Links) (q : Queue) (xs : List ℕ) : Type 0 where
  pub ring : IsRing s q.list (reverse xs)
  pub counted : q.size ≡ length xs
  pub small : length xs < u32

reverse_snoc : (xs : List ℕ) (x : ℕ) → reverse (xs ++ x ∷ []) ≡ x ∷ reverse xs
reverse_snoc xs x = reverse-append xs (x ∷ [])

reverse_cons : (x : ℕ) (xs : List ℕ) → reverse (x ∷ xs) ≡ reverse xs ++ x ∷ []
reverse_cons x xs = reverse-append (x ∷ []) xs

pub queue_init-nil : (s : Links) (q : Queue) → IsQueue (queue_init s q).0 (queue_init s q).1 []
unfolding queue_init
queue_init-nil s q = record { ring = list_init-nil s q.list; counted = refl; small = omega arith }

-- queue_insert puts a link that is not in the queue behind all others.
pub queue_insert-snoc :
    (s : Links) (q : Queue) (xs : List ℕ) (link : ℕ)
    → IsQueue s q xs
    → link ≢ q.list
    → Fresh link xs
    → length xs + 1 < u32
    → IsQueue (queue_insert s q link).0 (queue_insert s q link).1 (xs ++ link ∷ [])
unfolding queue_insert
queue_insert-snoc s q xs link v ne f room = record {
  ring =
      subst (IsRing (list_insert_front s q.list link) q.list) (sym (reverse_snoc xs link))
        (list_insert_front-cons s q.list (reverse xs) link v.ring ne (Fresh-reverse link xs f));
  counted = omega (arith, v.counted, length-append {0} xs (link ∷ []));
  small = omega (arith, length-append {0} xs (link ∷ []));
}

-- queue_take on a queue with links returns the oldest and keeps the others in order.
pub queue_take-cons :
    (s : Links) (q : Queue) (x : ℕ) (xs : List ℕ)
    → IsQueue s q (x ∷ xs)
    → ((queue_take s q).0 ≡ x) × IsQueue (queue_take s q).1 (queue_take s q).2 xs
unfolding queue_take
queue_take-cons s q x xs v =
    let (link, ring) =
      list_take_back-snoc s q.list (reverse xs) x
        (subst (IsRing s q.list) (reverse_cons x xs) v.ring) in
    (
      link,
      record {
        ring = ring;
        counted = omega (arith, v.counted, v.small);
        small = omega (arith, v.small);
      },
    )

-- Inserting several links, and taking several.
abbrev pub insert_all : Links → Queue → List ℕ → Links × Queue
insert_all s q [] = (s, q)
insert_all s q (x ∷ xs) = insert_all (queue_insert s q x).0 (queue_insert s q x).1 xs

abbrev pub take_all : ℕ → Links → Queue → List ℕ
take_all zero s q = []
take_all (suc n) s q = (queue_take s q).0 ∷ take_all n (queue_take s q).1 (queue_take s q).2

-- `xs` may be inserted one after the other into a queue with sentinel `l` that holds `held`.
abbrev pub Insertable : ℕ → List ℕ → List ℕ → Type 0
Insertable l held [] = Unit
Insertable l held (x ∷ xs) = (x ≢ l) × Fresh x held × Insertable l (held ++ x ∷ []) xs

insert_all-append :
    (s : Links) (q : Queue) (held xs : List ℕ)
    → IsQueue s q held
    → Insertable q.list held xs
    → length held + length xs < u32
    → IsQueue (insert_all s q xs).0 (insert_all s q xs).1 (held ++ xs)
unfolding queue_insert
insert_all-append s q held [] v i room = subst (IsQueue s q) (sym (append-nil held)) v
insert_all-append s q held (x ∷ xs) v i room =
    let next = queue_insert-snoc s q held x v i.0 i.1 (omega arith) in
    subst (λ ys. IsQueue (insert_all s q (x ∷ xs)).0 (insert_all s q (x ∷ xs)).1 ys)
      (append_assoc held (x ∷ []) xs)
      (insert_all-append (queue_insert s q x).0 (queue_insert s q x).1 (held ++ x ∷ []) xs next i.2
        (omega (arith, length-append {0} held (x ∷ []))))

take_all-all :
    (s : Links) (q : Queue) (xs : List ℕ) → IsQueue s q xs → take_all (length xs) s q ≡ xs
take_all-all s q [] v = refl
take_all-all s q (x ∷ xs) v =
    let (first, rest) = queue_take-cons s q x xs v in
    ap (λ y. y ∷ take_all (length xs) (queue_take s q).1 (queue_take s q).2) first
    ∙ ap (◌∷◌ x) (take_all-all (queue_take s q).1 (queue_take s q).2 xs rest)

-- Distinct links that are inserted into a new queue come out in the same order.
pub queue_fifo :
    (s : Links) (q : Queue) (xs : List ℕ)
    → Insertable q.list [] xs
    → length xs < u32
    → let (s', q') = queue_init s q in
      let (s'', q'') = insert_all s' q' xs in take_all (length xs) s'' q'' ≡ xs
unfolding queue_init
queue_fifo s q xs i room =
    take_all-all _ _ xs (insert_all-append _ _ [] xs (queue_init-nil s q) i (omega arith))
