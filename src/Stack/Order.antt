-- ===== src/Stack/Order.antt =====
-- A stack hands out its links in the reverse of the order in which they came.
use mathlib.Core.List.{reverse_aux, reverse}
use libvci.Base.{ℕ, zero, suc, ◌+◌, ◌<◌, ◌≡◌, refl, ap, ◌∙◌, ◌≢◌, arith, List, [], ◌∷◌, length, u32}
use libvci.Links.{Links, list_front}
use libvci.Links.Chain.{Fresh, IsRing}
use libvci.Links.Insert.{list_insert_front-cons}
use libvci.Links.Take.{list_take_front-cons}
use libvci.Links.Walk.{list_init-nil}
use libvci.Stack.{Stack, stack_init, stack_insert, stack_take, stack_top}

-- `st` holds the links `xs`, the newest first.
pub record IsStack (s : Links) (st : Stack) (xs : List ℕ) : Type 0 where
  pub ring : IsRing s st.list xs
  pub counted : st.size ≡ length xs
  pub small : length xs < u32

stack_init-nil : (s : Links) (st : Stack) → IsStack (stack_init s st).0 (stack_init s st).1 []
unfolding stack_init
stack_init-nil s st = record { ring = list_init-nil s st.list; counted = refl; small = omega arith }

-- stack_insert puts a link that is not in the stack on top of all others.
pub stack_insert-cons :
    (s : Links) (st : Stack) (xs : List ℕ) (link : ℕ)
    → IsStack s st xs
    → link ≢ st.list
    → Fresh link xs
    → length xs + 1 < u32
    → IsStack (stack_insert s st link).0 (stack_insert s st link).1 (link ∷ xs)
unfolding stack_insert
stack_insert-cons s st xs link v ne f room = record {
  ring = list_insert_front-cons s st.list xs link v.ring ne f;
  counted = omega (arith, v.counted);
  small = omega arith;
}

-- stack_take on a stack with links returns the newest, which stack_top shows, and keeps the others.
pub stack_take-cons :
    (s : Links) (st : Stack) (x : ℕ) (xs : List ℕ)
    → IsStack s st (x ∷ xs)
    → ((stack_take s st).0 ≡ x)
      × (stack_top s st ≡ x)
      × IsStack (stack_take s st).1 (stack_take s st).2 xs
unfolding stack_take stack_top list_front
stack_take-cons s st x xs v =
    let (link, ring) = list_take_front-cons s st.list x xs v.ring in
    (
      link,
      v.ring.chain.0,
      record {
        ring = ring;
        counted = omega (arith, v.counted, v.small);
        small = omega (arith, v.small);
      },
    )

-- Inserting several links, and taking several.
abbrev pub insert_all : Links → Stack → List ℕ → Links × Stack
insert_all s st [] = (s, st)
insert_all s st (x ∷ xs) = insert_all (stack_insert s st x).0 (stack_insert s st x).1 xs

abbrev pub take_all : ℕ → Links → Stack → List ℕ
take_all zero s st = []
take_all (suc n) s st = (stack_take s st).0 ∷ take_all n (stack_take s st).1 (stack_take s st).2

-- `xs` may be inserted one after the other into a stack with sentinel `l` that holds `held`.
abbrev pub Insertable : ℕ → List ℕ → List ℕ → Type 0
Insertable l held [] = Unit
Insertable l held (x ∷ xs) = (x ≢ l) × Fresh x held × Insertable l (x ∷ held) xs

insert_all-reverse :
    (s : Links) (st : Stack) (held xs : List ℕ)
    → IsStack s st held
    → Insertable st.list held xs
    → length held + length xs < u32
    → IsStack (insert_all s st xs).0 (insert_all s st xs).1 (reverse_aux xs held)
unfolding stack_insert
insert_all-reverse s st held [] v i room = v
insert_all-reverse s st held (x ∷ xs) v i room =
    insert_all-reverse (stack_insert s st x).0 (stack_insert s st x).1 (x ∷ held) xs
      (stack_insert-cons s st held x v i.0 i.1 (omega arith)) i.2 (omega arith)

take_all-all :
    (s : Links) (st : Stack) (xs : List ℕ) → IsStack s st xs → take_all (length xs) s st ≡ xs
take_all-all s st [] v = refl
take_all-all s st (x ∷ xs) v =
    let (first, _, rest) = stack_take-cons s st x xs v in
    ap (λ y. y ∷ take_all (length xs) (stack_take s st).1 (stack_take s st).2) first
    ∙ ap (◌∷◌ x) (take_all-all (stack_take s st).1 (stack_take s st).2 xs rest)

-- Distinct links that are inserted into a new stack come out in the reverse order.
pub stack_lifo :
    (s : Links) (st : Stack) (xs : List ℕ)
    → Insertable st.list [] xs
    → length xs < u32
    → let (s', st') = stack_init s st in
      let (s'', st'') = insert_all s' st' xs in take_all (length (reverse xs)) s'' st'' ≡ reverse xs
unfolding stack_init
stack_lifo s st xs i room =
    take_all-all _ _ (reverse xs)
      (insert_all-reverse _ _ [] xs (stack_init-nil s st) i (omega arith))
