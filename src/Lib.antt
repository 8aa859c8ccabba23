-- ===== src/Lib.antt =====
-- A model of the garbage collected allocator of mod2gc, and what holds of it.
--
-- The program has two allocators that a collection ties together. `NodeAllocator` hands out the nodes
-- of a graph from arenas of 5460 nodes: it searches for a node without a mark and takes the marks off
-- those that it passes, a sweep done lazily. `StorageAllocator` hands out raw memory from buckets, for
-- the vectors of children that nodes own. A collection ends the lazy sweep (`sweep_arenas`), drops the
-- list of buckets in use (`_prepare_to_mark`), marks all that the roots reach, which copies the vectors
-- to new buckets, and resets buckets (`_sweep_garbage`).
--
-- Which file models which part, with the paths from the repository's root:
--   Base             shared names, Boolean tests, lists, and `Outcome`, the outcome of a run
--   Bucket           src/dag_node/allocator/bucket.rs; Bucket/Bounds has its invariant
--   Storage          src/dag_node/allocator/storage_allocator.rs: `StorageAllocator` with `new`,
--                    `allocate_storage`, `slow_allocate_storage`, `prepare_to_mark` for
--                    `_prepare_to_mark` and `sweep_garbage` for `_sweep_garbage`; Storage/Links is the
--                    linked lists of buckets, Storage/Invariant the invariant, Storage/Allocate one
--                    request, Storage/Collect a collection, Storage/Copies the mark phase of a first
--                    one, Storage/Reissue what is handed out after one, Storage/History
--                    sequences of calls
--   Flags            src/dag_node/flags.rs
--   Node             src/dag_node/mod.rs and src/dag_node/node.rs: nodes and the queries of the collector
--   Arenas           src/dag_node/allocator/arena.rs and src/dag_node/allocator/node_allocator.rs:
--                    `NodeAllocator`, `new`, and the search for a free node; Arenas/Allocate is
--                    `allocate_dag_node` with `slow_new_dag_node` and `allocate_new_arena`,
--                    Arenas/Allocate/Reuse what it passes by,
--                    Arenas/Sweep is `sweep_arenas`, Arenas/Invariant the invariant
--   Arenas/Check     `check_invariant` and `check_arenas` of node_allocator.rs, as the lists of what they
--                    report; Arenas/Check/Report is their loops, Arenas/Check/Silent their calls
--   Roots            src/dag_node/root_container.rs: `new`, `link`, `unlink`, `drop`, `mark_roots`;
--                    Roots/Segments is parts of the doubly linked list, Roots/Laws and Roots/Unlink keep
--                    it well-formed, Roots/Refine is the list of nodes that it stands for
--   Vector           src/dag_node/allocator/node_vector.rs, with the memory of headers and slots;
--                    Vector/Owns says what it means that a vector stands in memory, Vector/Make and
--                    Vector/Fill are new vectors, Vector/Copy copies, Vector/Change `push`, `pop`, `iter`
--                    and the index, Vector/Round a round trip
--   Symbol           src/symbol.rs: `Symbol` with its hash and order; Symbol/Ranks is the order
--   Dag              src/dag_node/node.rs: the constructors, `iter_children`, `insert_child` and
--                    `mark`; Dag/Graph is the graph that a heap stands for, Dag/Count the number
--                    of unmarked nodes, Dag/Mark the children of a node, Dag/Visit, Dag/Rewrite
--                    and Dag/Search the search, Dag/Exact what is marked from the roots, Dag/Fresh
--                    `new` and `with_kind`, Dag/Make and Dag/Construct `with_args`, Dag/Insert
--                    `insert_child`, Dag/Mismatch vectors of the wrong capacity, Dag/Frame and
--                    Dag/Extend what `insert_child` leaves alone
--   Collect          `collect_garbage` and `ok_to_collect_garbage` of node_allocator.rs;
--                    Collect/Grow is its last part, Collect/Twice two collections in a row,
--                    Collect/Keeps and Collect/Whole the whole of it, Collect/Reuse what is
--                    given out after it
--   Tree             src/util.rs: `build_random_tree`; Tree/Forest is the trees in a heap,
--                    Tree/Sprout and Tree/Grow a turn of its loop, Tree/Build the whole, Tree/Nodes
--                    the tree as a graph; Tree/Plant is roots and trees made one after another,
--                    and a collection after them; Tree/Print is `print_tree`, Tree/Print/Lines its
--                    lines
-- The modules named Tests hold runs and the theorems at concrete states.
--
-- Pointers: a pointer to a bucket or to an arena is its number in the order of creation, a pointer
-- to a node an arena and an index, null is `none`; the boxes on the heap are a function from
-- numbers, and `boxes` counts them. The global allocators are explicit state. Bucket memory is two
-- maps from addresses, one of the headers of vectors and one of slots, which is sound as long as
-- blocks in use share no byte. Fallible code gives an `Outcome`: `ok`, `panic`, `undefined` where
-- Rust gives a read or a step of a pointer to outside its block no meaning, `exited` where the
-- process ends, `out_of_fuel`. `vec!` panics for more than `isize::MAX` bytes, and a new bucket is
-- eight times as large as the request, so requests are bounded by 2 ^ 60 bytes, vectors by 2 ^ 57
-- items; that the system has the memory is assumed.
--
-- Machine integers wrap as in a release build, `% 2 ^ 32` and `% 2 ^ 64` being written out. The
-- one exception is an index into an arena or a bucket, which the bounds keep small.
--
-- Fuel: a walk over buckets has a round for each bucket and one more, and the lists hold each
-- bucket at most once; a search in an arena has 5461 rounds for 5460 nodes; `slow_new_dag_node`
-- has two rounds for each arena, its move to it and its reserve, and two more; the growth of a
-- collection has a round for each arena of the ideal count and one more; a walk over the roots one
-- for each container and one more; the fuel of `mark` is the depth of its recursion, for which the
-- number of nodes in the arenas and one more is enough. The theorems on these functions state that
-- they return, so this fuel is enough.
--
-- Parameters: the address of a bucket's block (`base`; for the storage allocator it is given in
-- words, since the system's allocator is taken to put such blocks at multiples of eight, which a
-- slice of bytes alone does not ask of it), the set operations of `BitFlags` with their documented
-- laws (Flags/Bits meets them), and what uninitialised memory of an arena holds (`junk`); the
-- theorems on allocation ask that it holds no mark, which the source relies on. The symbols that
-- pointers lead to (`symbols`), and the hash that the crate ustr keeps with a string
-- (`precomputed_hash`), are functions. `collect_garbage` takes the floating point arithmetic that
-- gives the ideal count of arenas as an argument.
--
-- The vectors of live nodes lie below the cursors of their buckets until a first collection ends,
-- which resets these buckets. Statements that need this say so.
--
-- `build_random_tree` takes the slice of symbols (`table`) and the numbers that the generator draws
-- (`draw`), which lie in the range asked for. `print_tree` gives the list of its lines, each by its
-- code points; its fuel is the depth of its recursion, and a tree of so many levels needs as much.
-- The strings that names stand for (`text`) are a function.
--
-- Not modelled: the mutexes, other console output, the stack that the recursion of `mark` takes, the
-- macros of src/abstractions.
pub mod Base
pub mod Flags
pub mod Bucket
pub mod Storage
pub mod Node
pub mod Arenas
pub mod Roots
pub mod Vector
pub mod Symbol
pub mod Dag
pub mod Tree
pub mod Collect
