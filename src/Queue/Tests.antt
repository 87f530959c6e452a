-- ===== src/Queue/Tests.antt =====
-- The queue's theorem at three links.
use libvci.Base.{◌≡◌, arith, [], ◌∷◌}
use libvci.Links.{Links}
use libvci.Queue.{Queue, queue_init}
use libvci.Queue.Order.{insert_all, take_all, queue_fifo}

abbrev links : Links
links = record { prev = λ n. 0; next = λ n. 0 }

abbrev queue : Queue
queue = record { list = 1; size = 9 }

queue_fifo_example :
    let (s', q') = queue_init links queue in
    let (s'', q'') = insert_all s' q' (4 ∷ 2 ∷ 3 ∷ []) in take_all 3 s'' q'' ≡ 4 ∷ 2 ∷ 3 ∷ []
queue_fifo_example = queue_fifo links queue (4 ∷ 2 ∷ 3 ∷ []) (omega arith) (omega arith)
