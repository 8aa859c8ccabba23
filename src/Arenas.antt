-- ===== src/Arenas.antt =====
-- src/dag_node/allocator/arena.rs and src/dag_node/allocator/node_allocator.rs: arenas of nodes, the
-- search for a free node, which sweeps as it goes, and the sweep before a collection.
pub mod Search
pub mod Invariant
pub mod Allocate
pub mod Sweep
pub mod Check
mod Tests
use mod2gc.Base.{
  ℕ, zero, suc, ◌+◌, ◌-◌, ◌*◌, ◌%◌, ◌^◌, Bool, true, false, not, ◌||◌, ◌&&◌, Option, none, some,
  Outcome, ok, undefined, out_of_fuel, ◌>>=◌, ltb, leb, ◌==◌, if◌then◌else◌, update, same_ptr,
  is_null,
}
use mod2gc.Flags.{BitFlags}
use mod2gc.Node.{
  NodePtr, DagNodePtr, DagNode, same_node, add, needs_destruction, is_marked, simple_reuse, unmark,
  clear_flags,
}

abbrev pub arena_size : ℕ
arena_size = 5460

abbrev pub reserve_size : ℕ
reserve_size = 256

-- A pointer to an `Arena` is its number in the order of creation, `none` for null.
abbrev pub ArenaPtr : Type 0
ArenaPtr = Option ℕ

-- The array `data` as a function of the index, of which `arena_size` values stand for nodes.
pub record Arena : Type 0 where
  pub next_arena : ArenaPtr
  pub nodes : ℕ → DagNode

-- `NodeAllocator`, with the static `ACTIVE_NODE_COUNT` and the arenas that `Box::into_raw` has put
-- on the heap: `boxes` of them.
pub record NodeAllocator : Type 0 where
  pub show_gc : Bool
  pub early_quit : ℕ
  pub need_to_collect_garbage : Bool
  pub arena_count : ℕ
  pub current_arena_past_active_arena : Bool
  pub first_arena : ArenaPtr
  pub last_arena : ArenaPtr
  pub current_arena : ArenaPtr
  pub next_node : DagNodePtr
  pub end_pointer : DagNodePtr
  pub last_active_arena : ArenaPtr
  pub last_active_node : DagNodePtr
  pub active_node_count : ℕ
  pub arenas : ℕ → Arena
  pub boxes : ℕ

-- `heap` is what the memory holds before an arena is put there.
unfoldable pub new : (heap : ℕ → Arena) → NodeAllocator
new heap = record {
  show_gc = true;
  early_quit = 0;
  need_to_collect_garbage = false;
  arena_count = 0;
  current_arena_past_active_arena = true;
  first_arena = none;
  last_arena = none;
  current_arena = none;
  next_node = none;
  end_pointer = none;
  last_active_arena = none;
  last_active_node = none;
  active_node_count = 0;
  arenas = heap;
  boxes = 0;
}

abbrev pub node_at : (ℕ → Arena) → NodePtr → DagNode
node_at heap p = (heap p.arena).nodes p.index

abbrev pub set_node : (ℕ → Arena) → NodePtr → DagNode → ℕ → Arena
set_node heap p d =
    update heap p.arena (record (heap p.arena) { nodes = update (heap p.arena).nodes p.index d })

-- No field of a node has a destructor, so dropping a node in place leaves it as it is.
abbrev pub drop_in_place : (ℕ → Arena) → NodePtr → ℕ → Arena
drop_in_place heap p = heap

abbrev pub first_node : ℕ → NodePtr
first_node a = record { arena = a; index = 0 }

abbrev pub end_node : ℕ → NodePtr
end_node a = record { arena = a; index = arena_size }

-- The end that a search in the arena `a` is given: the last arena keeps a reserve.
abbrev pub end_of : (ℕ → Arena) → ℕ → NodePtr
end_of heap a = record {
  arena = a;
  index = if is_null (heap a).next_arena then arena_size - reserve_size else arena_size;
}

module _ (ops : BitFlags) where
  -- The lazy sweep, from a cursor to `end`: `forget` takes the mark off a node that is in use. A
  -- read behind the array is undefined.
  unfoldable pub find_free :
      (forget : DagNode → DagNode) (fuel : ℕ)
      → (ℕ → Arena)
      → NodePtr
      → (end : DagNodePtr) → Outcome (Option NodePtr × (ℕ → Arena))
  find_free forget zero heap cursor end = out_of_fuel
  find_free forget (suc fuel) heap cursor end =
      let d = node_at heap cursor in
      let rest = find_free forget fuel (set_node heap cursor (forget d)) (add cursor 1) end in
      if same_node (some cursor) end
      then ok (none, heap)
      else if leb arena_size cursor.index
      then undefined
      else if simple_reuse ops d
      then ok (some cursor, heap)
      else if not (is_marked ops d)
      then ok (some cursor, drop_in_place heap cursor)
      else rest
