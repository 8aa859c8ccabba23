-- ===== src/Collect/Tests.antt =====
-- The theorems on `collect_garbage` of src/dag_node/allocator/node_allocator.rs at a concrete state.
use mathlib.Core.List.{Memᴰ}
use mod2gc.Base.{
  ℕ, ◌<◌, ◌≡◌, refl, true, false, ◌&&◌, none, some, ok, undefined, Returns, arith, leb, ltb,
  if◌then◌else◌, max, ◌⊎◌, inl, inr, sym, subst, List, [], ◌∷◌, All, ◌>>=◌,
}
use mod2gc.Bucket.{Bucket}
use mod2gc.Flags.Bits.{bits}
use mod2gc.Node.{NodePtr, DagNode, free, no_args}
use mod2gc.Storage
use mod2gc.Arenas.{arena_size, Arena, NodeAllocator}
use mod2gc.Arenas.Search.{ptr}
use mod2gc.Arenas.Invariant.{IsLinked}
use mod2gc.Arenas.Allocate.Safety.{Started}
use mod2gc.Roots.{Roots, mark_from, mark_roots}
use mod2gc.Arenas.Sweep.{sub_one, sweep_arenas}
use mod2gc.Arenas.Allocate.Sequence.{allocate_times}
use mod2gc.Arenas.Sweep.Steps.{Le}
use mod2gc.Vector.{Memory}
use mod2gc.Vector.Sample.{at, base}
use mod2gc.Dag.Graph.{Reach, marked_in}
use mod2gc.Dag.Exact.{Among}
use mod2gc.Dag.Sample.{
  symbols, junk, heap, nodes-Started, graph, Live, heap-IsGraph, graph-closed, roots, roots-Holds,
  roots_live,
}
use mod2gc.Collect.Keeps.{Collected}
use mod2gc.Collect.Reuse.{collect_then_reuse}
use mod2gc.Collect.Whole.{collect_garbage-Collected, collect_then_allocate}
use mod2gc.Collect.{
  Collector, grow, reset_cursor, finish, after_marks, after_sweep, collect_garbage,
}
use mod2gc.Collect.Grow.{Covered, finish-Started}
use mod2gc.Collect.Twice.{collect_garbage_twice}

abbrev idle : DagNode
idle = record { symbol = none; args = no_args; kind = free; flags = 0 }

abbrev live : DagNode
live = record { symbol = some 7; args = no_args; kind = free; flags = 1 }

-- One arena, of which the nodes 1 and 2 have marks.
abbrev arena : Arena
arena = record { next_arena = none; nodes = λ j. if leb 1 j && ltb j 3 then live else idle }

-- After the mark phase.
abbrev marked : NodeAllocator
marked = record {
  show_gc = true;
  early_quit = 0;
  need_to_collect_garbage = true;
  arena_count = 1;
  current_arena_past_active_arena = true;
  first_arena = some 0;
  last_arena = some 0;
  current_arena = some 0;
  next_node = some (ptr 0 5);
  end_pointer = some (ptr 0 5460);
  last_active_arena = some 0;
  last_active_node = some (ptr 0 4);
  active_node_count = 2;
  arenas = λ a. arena;
  boxes = 1;
}

marked-IsLinked : IsLinked marked
marked-IsLinked = record {
  first = refl;
  last = refl;
  links = λ a h. absurd (omega arith);
  ends = λ a h. refl;
  count = refl;
}

marked-Covered : Covered bits marked 0 4
marked-Covered = record {
  arena = refl;
  node = refl;
  exists = omega arith;
  in_array = omega arith;
  bound = λ a j lt h live. ground arith;
}

finish-Started_example :
    Returns (λ t. Started bits t 0 0 × (t.boxes ≡ max 1 3)) (finish (λ k j. idle) 3 marked)
finish-Started_example =
    finish-Started bits (λ k j. idle) (λ k j. refl) 3 0 4 marked marked-IsLinked marked-Covered
      (omega arith) (omega arith)

abbrev no_roots : Roots
no_roots = record {
  list_head = none;
  containers = λ x. record { next = none; prev = none; node = none };
  boxes = 0;
}

abbrev buckets : ℕ → Bucket
buckets k = record { capacity = 0; bytes_free = 0; next_free = 0; next_bucket = none }

abbrev empty : Memory
empty = record {
  storage = Storage.new buckets;
  vectors = λ a. record { length = 0; capacity = 0; slice = record { ptr = a; len = 0 } };
  slots = λ a. none;
}

-- Before a collection that has no roots.
abbrev before : Collector
before = record { heap = record { nodes = marked; memory = empty }; gc_count = 0 }

abbrev after : Collector
after = record {
  heap = record {
    nodes = record marked {
      need_to_collect_garbage = false;
      current_arena_past_active_arena = false;
      next_node = some (ptr 0 0);
      end_pointer = some (ptr 0 5204);
      active_node_count = 0;
    };
    memory = empty;
  };
  gc_count = 1;
}

first_collection : collect_garbage bits base junk symbols (λ n. 1) no_roots before ≡ ok after
unfolding collect_garbage after_sweep after_marks finish grow reset_cursor sub_one sweep_arenas
    mark_from mark_roots Storage.new Storage.prepare_to_mark Storage.reset_all Storage.sweep_garbage
first_collection = refl

collect_garbage_twice_example :
    collect_garbage bits base junk symbols (λ n. 1) no_roots after ≡ undefined
collect_garbage_twice_example =
    collect_garbage_twice bits base junk symbols (λ n. 1) no_roots before after refl
      first_collection

-- A first collection, with three nodes given out and one root.
abbrev ready : Collector
ready = record { heap = heap; gc_count = 0 }

live_given : (p : NodePtr) → Live p → Le p.arena p.index 0 2 ⊎ (marked_in bits heap p ≡ true)
live_given p (inl e) = inl (subst (λ p. Le p.arena p.index 0 2) (sym e) (inr (refl, omega arith)))
live_given p (inr e) = inl (subst (λ p. Le p.arena p.index 0 2) (sym e) (inr (refl, omega arith)))

collect_garbage-Collected_example :
    Returns
      (Collected bits base junk symbols (λ n. 1) roots graph Live (Among (at 0 ∷ [])) ready)
      (collect_garbage bits base junk symbols (λ n. 1) roots ready)
collect_garbage-Collected_example =
    collect_garbage-Collected bits base junk symbols (λ n. 1) roots (λ k j. refl) (λ n. omega arith)
      (0 ∷ []) (at 0 ∷ []) roots-Holds graph Live graph-closed roots_live ready 0 2 nodes-Started
      (omega arith) (omega arith) refl heap-IsGraph live_given

collect_then_allocate_example :
    Returns {A = List NodePtr × NodeAllocator}
      (λ r. All (λ p. ¬ (Reach graph (Among (at 0 ∷ [])) p)) r.0)
      (collect_garbage bits base junk symbols (λ n. 1) roots ready
        >>= (λ t. allocate_times bits junk 2 t.heap.nodes))
collect_then_allocate_example =
    collect_then_allocate bits base junk symbols (λ n. 1) roots (λ k j. refl) (λ n. omega arith)
      (0 ∷ []) (at 0 ∷ []) roots-Holds graph Live graph-closed roots_live ready 0 2 nodes-Started
      (omega arith) (omega arith) refl heap-IsGraph live_given 2

collect_then_reuse_example :
    Returns {A = List NodePtr × NodeAllocator}
      (λ r.
        ((q : NodePtr)
          → q.arena < 1
          → q.index < arena_size
          → ¬ (Reach graph (Among (at 0 ∷ [])) q)
          → Memᴰ q r.0)
        × All (λ p. ¬ (Reach graph (Among (at 0 ∷ [])) p)) r.0)
      (collect_garbage bits base junk symbols (λ n. 1) roots ready
        >>= (λ t. allocate_times bits junk 5460 t.heap.nodes))
collect_then_reuse_example =
    collect_then_reuse bits base junk symbols (λ n. 1) roots (λ k j. refl) (λ n. omega arith)
      (0 ∷ []) (at 0 ∷ []) roots-Holds graph Live graph-closed roots_live ready 0 2 nodes-Started
      (omega arith) (omega arith) refl heap-IsGraph live_given 5460 (omega arith)
