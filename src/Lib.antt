-- ===== src/Lib.antt =====
-- libvci, a C library of containers and utilities.
-- The program's parts. The containers (src/lib/container) stand on one helper that rounds
-- capacities: the heap, the vector, the byte buffer and the hash map take the size of their block
-- from it. The queue and the stack stand on the linked list, whose nodes the caller owns. The hash
-- map calls itself: an insertion may resize the table, and a resize inserts.
-- Which file models which part:
--   Nice       src/lib/container/container_p.c: get_nice_size
--   Heap       src/lib/container/heap.c: heap_insert, heap_take, heap_clear and the rest
--   Links      src/lib/container/list.c: list_insert, list_take, list_at, list_merge and the rest
--   Queue      src/lib/container/queue.c
--   Stack      src/lib/container/stack.c
--   Vector     src/lib/container/vector.c
--   Buffer     src/lib/container/buffer.c
--   Map        src/lib/container/map.c
--   Avltree    src/lib/container/avltree.c, with its loops in Insert, Take and Look
--   Threadpool src/lib/concurrent/threadpool.c: the workers, and the callers that add and take tasks
--   ConfigParser src/lib/util/config_parser.c: the loop over the bytes of a file
--   Options    src/lib/util/options.c: the loop over a command line
--   Compare    src/lib/util/compare.c: the comparisons that the containers may be given
--   Hash       src/lib/util/hash.c: the hash functions that the map may be given
--   Mempool    src/lib/util/mempool.c
--   Clock      src/lib/util/clock.c
--   Random     src/lib/util/random.c
--   Base       shared: tests, runs, blocks of memory, comparisons
-- A definition has the name of the C function that it models, without a leading underscore; a loop
-- is a definition of its own. A struct is a record. A function that may read or write outside its
-- block, or that loops, gives a `Run`: `ok` with its result, `fault` at an access outside the block,
-- `out_of_fuel` when the rounds run out.
-- Memory. A block is the list of its words or bytes. malloc, calloc and realloc are given by an
-- `Allocator`, which says for each size whether memory is granted and what new memory holds; it is a
-- parameter of every operation that allocates. A pointer to an element is a 64-bit word, a number.
-- The linked list has the prev and next pointers of all nodes as two functions on addresses.
-- The search tree has the fields of all nodes as a function on addresses; a `struct avlnode **` is
-- the root of the tree or a child field of a node. Its theorems speak of a tree of addresses in the
-- store, with the rank of each node's key; a `Context` is what is around a part of it. An access
-- through NULL is no fault in this store: it reads or writes a node at address 0, which is in no tree.
-- Threads. The thread pool is a list of threads, each before one statement, and what they share; a
-- step is one statement of one thread, in any order. Tasks are numbers, and a task is added once:
-- that adding it again breaks the links of a queue is not modelled. A locked mutex and a semaphore
-- of value 0 block.
-- Numbers. An `unsigned int` wraps at 2^32 and a `size_t` at 2^64, written out where the code can
-- reach that.
-- Callbacks. A comparison is a function to an ordering; the theorems that need an order take a rank
-- for each word that the comparison follows. Every consistent comparison of finitely many words
-- comes from such a rank. A delete function only shows in the list of what it was called on.
-- Fuel. get_nice_size has 33 rounds, enough for 32 bits; the sift loops of the heap and the search
-- loops of the vector have a round for each slot, or 33 and 34 rounds where they halve; the loops
-- of the map have a round for each slot. The loops of the search tree have a round for each level,
-- and two on the way up, where a rotation is followed by a visit of the new top. map_insert and
-- map_resize call each other to a depth that is fuel: a map that does not grow needs one level. A
-- theorem that says what one of these operations returns also says that its fuel is enough.
-- Not modelled: how the thread pool starts and ends its threads, how the table of flags is built
-- for the options, how the configuration parser opens its file, the configuration, and the tests.
-- The logging, the file system and the error functions are input and output. The time and the
-- words of /dev/urandom are arguments; that the system refuses them is modelled for clock_init
-- alone. The event descriptor of the thread pool never blocks or fails, sem_wait does not fail but
-- for an interruption, and no thread is cancelled.
pub mod Avltree
pub mod Base
pub mod Buffer
pub mod Clock
pub mod Compare
pub mod ConfigParser
pub mod Mempool
pub mod Nice
pub mod Hash
pub mod Heap
pub mod Links
pub mod Map
pub mod Options
pub mod Queue
pub mod Random
pub mod Stack
pub mod Threadpool
pub mod Vector
