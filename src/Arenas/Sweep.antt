-- ===== src/Arenas/Sweep.antt =====
-- src/dag_node/allocator/node_allocator.rs: `sweep_arenas`, the sweep of what the search for free
-- nodes has not come to, before a collection.
pub mod Steps
pub mod Loops
pub mod Clears
pub mod Tidies
use mod2gc.Base.{
  ℕ, zero, suc, ◌+◌, ◌-◌, Bool, true, false, not, Option, none, some, Outcome, ok, undefined,
  out_of_fuel, ◌>>=◌, leb, ◌==◌, if◌then◌else◌, same_ptr,
}
use mod2gc.Flags.{BitFlags}
use mod2gc.Node.{
  NodePtr, DagNodePtr, DagNode, same_node, add, needs_destruction, is_marked, unmark, clear_flags,
}
use mod2gc.Arenas.{
  arena_size, ArenaPtr, Arena, NodeAllocator, node_at, set_node, drop_in_place, first_node,
  end_node,
}

-- The variables of the sweep: the node cursor, and the last node found in use, with its arena.
pub record Sweep : Type 0 where
  pub heap : ℕ → Arena
  pub cursor : NodePtr
  pub active_arena : ArenaPtr
  pub active_node : DagNodePtr

-- `ptr.sub(1)`: a step to before the array is undefined.
unfoldable pub sub_one : DagNodePtr → Outcome NodePtr
sub_one none = undefined
sub_one (some p) = if p.index == 0 then undefined else ok (record p { index = p.index - 1 })

module _ (ops : BitFlags) where
  -- The body of both node loops.
  pub sweep_node : Sweep → Sweep
  sweep_node w =
      let d = node_at w.heap w.cursor in
      if is_marked ops d
      then record {
        heap = set_node w.heap w.cursor (unmark ops d);
        cursor = add w.cursor 1;
        active_arena = some w.cursor.arena;
        active_node = some w.cursor;
      }
      else (let heap = if needs_destruction d then drop_in_place w.heap w.cursor else w.heap in
          record w { heap = set_node heap w.cursor (clear_flags ops d); cursor = add w.cursor 1 })

  -- A node loop; a read behind the array is undefined.
  pub sweep_nodes : (continues : NodePtr → Bool) (fuel : ℕ) → Sweep → Outcome Sweep
  sweep_nodes continues zero w = out_of_fuel
  sweep_nodes continues (suc fuel) w =
      let rest = sweep_nodes continues fuel (sweep_node w) in
      if not (continues w.cursor)
      then ok w
      else if leb arena_size w.cursor.index
      then undefined
      else rest

  -- The arena loop, up to the last active arena.
  pub sweep_to_active : (last_active : ArenaPtr) (fuel : ℕ) → ArenaPtr → Sweep → Outcome Sweep
  sweep_to_active last zero arena w = out_of_fuel
  sweep_to_active last (suc fuel) none w = if same_ptr none last then ok w else undefined
  sweep_to_active last (suc fuel) (some a) w =
      let rest : Sweep → Outcome Sweep = λ w'. elim (w'.heap a).next_arena [
        | none ↦ undefined
        | some b ↦ sweep_to_active last fuel (some b) (record w' { cursor = first_node b })
      ] in
      if same_ptr (some a) last
      then ok w
      else sweep_nodes (λ p. not (same_node (some p) (some (end_node a)))) (arena_size + 1) w
        >>= rest

  -- The loop up to and with the last active node, in the last active arena.
  pub sweep_last : (last_active_node : DagNodePtr) → Sweep → Outcome Sweep
  sweep_last none w = ok w
  sweep_last (some q) w =
      if w.cursor.arena == q.arena
      then sweep_nodes (λ p. leb p.index q.index) (arena_size + 1) w
      else undefined

  unfoldable pub sweep_arenas : NodeAllocator → Outcome NodeAllocator
  sweep_arenas s = do
    before ← sub_one s.next_node
    let start : Sweep = record {
      heap = s.arenas;
      cursor = add before 1;
      active_arena = s.current_arena;
      active_node = some before;
    }
    w ←
        (if s.current_arena_past_active_arena
          then ok start
          else (sweep_to_active s.last_active_arena (s.boxes + 1) s.current_arena start
              >>= sweep_last s.last_active_node))
    ok (record s {
      arenas = w.heap;
      last_active_arena = w.active_arena;
      last_active_node = w.active_node;
    })
