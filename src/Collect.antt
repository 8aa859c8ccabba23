-- ===== src/Collect.antt =====
-- src/dag_node/allocator/node_allocator.rs: `collect_garbage`, which ties the two allocators and the
-- roots together.
pub mod Grow
pub mod Twice
pub mod Keeps
pub mod Whole
pub mod Reuse
mod Tests
use mod2gc.Base.{
  ℕ, zero, suc, ◌+◌, ◌%◌, ◌^◌, Bool, true, false, ◌||◌, none, some, Outcome, ok, undefined,
  out_of_fuel, exited, ◌>>=◌, ltb, ◌==◌, if◌then◌else◌, is_null,
}
use mod2gc.Flags.{BitFlags}
use mod2gc.Node.{NodePtr, DagNode}
use mod2gc.Arenas.{NodeAllocator, first_node, end_of}
use mod2gc.Arenas.Allocate.{allocate_new_arena}
use mod2gc.Arenas.Sweep.{sweep_arenas}
use mod2gc.Storage.{prepare_to_mark, sweep_garbage, want_to_collect_garbage}
use mod2gc.Roots.{Roots, mark_roots}
use mod2gc.Symbol.{Symbol}
use mod2gc.Vector.{Memory}
use mod2gc.Dag.{Heap, mark_node}

-- The two global allocators with their memory, and the static `GC_COUNT`.
pub record Collector : Type 0 where
  pub heap : Heap
  pub gc_count : ℕ

-- The loop that makes arenas up to an ideal count.
pub grow :
    (junk : ℕ → ℕ → DagNode) (fuel ideal_arena_count : ℕ) → NodeAllocator → Outcome NodeAllocator
grow junk zero ideal s = out_of_fuel
grow junk (suc fuel) ideal s =
    let rest = grow junk fuel ideal (allocate_new_arena junk s) in
    if ltb s.arena_count ideal then rest else ok s

-- The reset of the state variables.
pub reset_cursor : NodeAllocator → Outcome NodeAllocator
reset_cursor s = elim s.first_arena [
  | none ↦ undefined
  | some a ↦ ok (record s {
    current_arena_past_active_arena = false;
    current_arena = some a;
    next_node = some (first_node a);
    end_pointer = some (end_of s.arenas a);
    need_to_collect_garbage = false;
  })
]

-- What follows the sweep of the buckets.
pub finish :
    (junk : ℕ → ℕ → DagNode) (ideal_arena_count : ℕ) → NodeAllocator → Outcome NodeAllocator
finish junk ideal s = grow junk (ideal + 1) ideal s >>= reset_cursor

-- `ideal_arena_count` stands for the floating point arithmetic of the machine, from the slop factor to
-- the ceiling, as a function of the count of active nodes.
module _ (ops : BitFlags) (base : ℕ → ℕ) (junk : ℕ → ℕ → DagNode) (symbols : ℕ → Symbol)
    (ideal_arena_count : ℕ → ℕ) (roots : Roots) where
  -- What follows the mark phase.
  pub after_marks : (gc_count : ℕ) → Heap → Outcome Collector
  after_marks gc_count h = do
    storage ← sweep_garbage h.memory.storage
    nodes ←
        (if gc_count == h.nodes.early_quit
          then exited
          else finish junk (ideal_arena_count h.nodes.active_node_count) h.nodes)
    ok (record {
      heap = record { nodes = nodes; memory = record h.memory { storage = storage } };
      gc_count = gc_count;
    })

  -- The heap that the mark phase starts from.
  abbrev pub before_marks : Heap → NodeAllocator → Heap
  before_marks h swept = record {
    nodes = record swept { active_node_count = 0 };
    memory = record h.memory { storage = prepare_to_mark h.memory.storage };
  }

  -- What follows the sweep of the arenas.
  pub after_sweep : Collector → NodeAllocator → Outcome Collector
  after_sweep s swept =
      mark_roots (mark_node ops base junk symbols) roots (before_marks s.heap swept)
      >>= after_marks ((s.gc_count + 1) % 2 ^ 64)

  pub collect_garbage : Collector → Outcome Collector
  collect_garbage s =
      if is_null s.heap.nodes.first_arena
      then ok s
      else sweep_arenas ops s.heap.nodes >>= after_sweep s

  pub ok_to_collect_garbage : Collector → Outcome Collector
  ok_to_collect_garbage s =
      if s.heap.nodes.need_to_collect_garbage || want_to_collect_garbage s.heap.memory.storage
      then collect_garbage s
      else ok s
