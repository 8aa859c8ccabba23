-- ===== src/Arenas/Allocate.antt =====
-- src/dag_node/allocator/node_allocator.rs: `allocate_dag_node`, its slow path and new arenas.
pub mod Steps
pub mod Moves
pub mod Extend
pub mod Obtained
pub mod Slow
pub mod Safety
pub mod Sequence
pub mod Reuse
use mod2gc.Base.{
  ℕ, zero, suc, ◌+◌, ◌-◌, ◌*◌, ◌%◌, ◌^◌, true, not, ◌||◌, ◌&&◌, Option, none, some, Outcome, ok,
  undefined, out_of_fuel, ◌>>=◌, if◌then◌else◌, update, same_ptr, is_null,
}
use mod2gc.Flags.{BitFlags}
use mod2gc.Node.{NodePtr, DagNode, same_node, add, unmark, clear_flags}
use mod2gc.Arenas.{
  arena_size, reserve_size, ArenaPtr, Arena, NodeAllocator, first_node, end_node, end_of, find_free,
}

-- `increment_active_node_count`.
abbrev pub increment_active_node_count : NodeAllocator → NodeAllocator
increment_active_node_count s = record s { active_node_count = (s.active_node_count + 1) % 2 ^ 64 }

-- `if current_arena == last_active_arena { current_arena_past_active_arena = true }`.
abbrev pub note_past_active : NodeAllocator → NodeAllocator
note_past_active s = record s {
  current_arena_past_active_arena =
      same_ptr s.current_arena s.last_active_arena || s.current_arena_past_active_arena;
}

-- The new arena's place in the linked list.
abbrev pub link_arena : (ℕ → Arena) → ArenaPtr → ℕ → ℕ → Arena
link_arena heap none a = heap
link_arena heap (some l) a = update heap l (record (heap l) { next_arena = some a })

-- `Arena::allocate_new_arena`, of memory that is left as it is.
abbrev pub new_arena : (memory : ℕ → DagNode) → Arena
new_arena memory = record { next_arena = none; nodes = memory }

-- `junk` is what the memory of the arenas holds when the system hands it out: the source writes
-- nothing there.
module _ (junk : ℕ → ℕ → DagNode) where
  -- `NodeAllocator::allocate_new_arena`; the new arena is number `s.boxes`.
  unfoldable pub allocate_new_arena : NodeAllocator → NodeAllocator
  allocate_new_arena s =
      let fresh = update s.arenas s.boxes (new_arena (junk s.boxes)) in
      record s {
        arenas = link_arena fresh s.last_arena s.boxes;
        boxes = s.boxes + 1;
        first_arena = if is_null s.last_arena then some s.boxes else s.first_arena;
        last_arena = some s.boxes;
        arena_count = (s.arena_count + 1) % 2 ^ 32;
      }

  -- `slow_new_dag_node` where there is no arena yet.
  pub first_allocation : NodeAllocator → NodePtr × NodeAllocator
  first_allocation s = (
    first_node s.boxes,
    record (allocate_new_arena s) {
      current_arena = some s.boxes;
      end_pointer = some (record { arena = s.boxes; index = arena_size - reserve_size });
    },
  )

  -- `slow_new_dag_node` where the last arena is used up, its reserve too.
  pub extend : NodeAllocator → NodePtr × NodeAllocator
  extend s = (
    first_node s.boxes,
    record (allocate_new_arena (note_past_active s)) {
      current_arena = some s.boxes;
      end_pointer = some (end_node s.boxes);
    },
  )

-- `slow_new_dag_node` where the reserve of the last arena is left.
pub use_reserve : NodeAllocator → ℕ → NodeAllocator
use_reserve s c = record s { next_node = s.end_pointer; end_pointer = some (end_node c) }

-- `slow_new_dag_node` where there is a next arena.
pub use_next_arena : NodeAllocator → ℕ → NodeAllocator
use_next_arena s a = record (note_past_active s) {
  current_arena = some a;
  next_node = some (first_node a);
  end_pointer = some (end_of s.arenas a);
}

module _ (junk : ℕ → ℕ → DagNode) where
  -- A round of the outer loop of `slow_new_dag_node`, up to the search: the node that it returns at
  -- once, or none.
  pub advance : NodeAllocator → Option NodePtr × NodeAllocator
  advance s = elim s.current_arena [
    | none ↦ let (p, s') = first_allocation junk s in (some p, s')
    | some c ↦ elim (s.arenas c).next_arena [
      | some a ↦ (none, use_next_arena s a)
      | none ↦
          let wanting = record s { need_to_collect_garbage = true } in
          if not (same_node s.end_pointer (some (end_node c)))
          then (none, use_reserve wanting c)
          else (let (p, s') = extend junk wanting in (some p, s'))
    ]
  ]

module _ (ops : BitFlags) where
  -- The search of `allocate_dag_node` and of `slow_new_dag_node`, from `next_node` to `end_pointer`.
  unfoldable pub search :
      (forget : DagNode → DagNode) → NodeAllocator → Outcome (Option NodePtr × NodeAllocator)
  search forget s = elim s.next_node [
    | none ↦ undefined
    | some p ↦ (do
      (found, heap) ← find_free ops forget (arena_size + 1) s.arenas p s.end_pointer
      ok (found, record s { arenas = heap }))
  ]

module _ (ops : BitFlags) (junk : ℕ → ℕ → DagNode) where
  -- What `slow_new_dag_node` does with the fuel of its outer loop.
  pub slow_loop : ℕ → NodeAllocator → Outcome (NodePtr × NodeAllocator)
  slow_loop zero s = out_of_fuel
  slow_loop (suc fuel) s =
      let (at_once, s₁) = advance junk s in
      elim at_once [
        | some p ↦ ok (p, s₁)
        | none ↦ search ops (unmark ops) s₁ >>= λ (found, s₂). elim found [
          | some p ↦ ok (p, s₂)
          | none ↦ slow_loop fuel s₂
        ]
      ]

  pub slow_new_dag_node : NodeAllocator → Outcome (NodePtr × NodeAllocator)
  slow_new_dag_node s = slow_loop (2 * s.boxes + 2) s

  -- The loop of `allocate_dag_node`: the fast search, and the slow path behind it.
  unfoldable pub next_free : NodeAllocator → Outcome (NodePtr × NodeAllocator)
  next_free s =
      if is_null s.next_node && is_null s.end_pointer
      then slow_new_dag_node s
      else search ops (clear_flags ops) s >>= λ (found, s'). elim found [
        | some p ↦ ok (p, s')
        | none ↦ slow_new_dag_node s'
      ]

  unfoldable pub allocate_dag_node : NodeAllocator → Outcome (NodePtr × NodeAllocator)
  allocate_dag_node s = do
    (p, s') ← next_free s
    ok (p, increment_active_node_count (record s' { next_node = some (add p 1) }))
