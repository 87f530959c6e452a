-- ===== src/Stack/Tests.antt =====
-- The stack's theorem at three links.
use libvci.Base.{◌≡◌, arith, [], ◌∷◌}
use libvci.Links.{Links}
use libvci.Stack.{Stack, stack_init}
use libvci.Stack.Order.{insert_all, take_all, stack_lifo}

abbrev links : Links
links = record { prev = λ n. 0; next = λ n. 0 }

abbrev stack : Stack
stack = record { list = 1; size = 9 }

stack_lifo_example :
    let (s', st') = stack_init links stack in
    let (s'', st'') = insert_all s' st' (4 ∷ 2 ∷ 3 ∷ []) in take_all 3 s'' st'' ≡ 3 ∷ 2 ∷ 4 ∷ []
stack_lifo_example = stack_lifo links stack (4 ∷ 2 ∷ 3 ∷ []) (omega arith) (omega arith)
