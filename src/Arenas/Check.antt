-- ===== src/Arenas/Check.antt =====
-- `check_invariant` and `check_arenas` of src/dag_node/allocator/node_allocator.rs: the nodes with a
-- mark that they report, each by the number of its arena and its own.
pub mod Report
pub mod Silent
use mod2gc.Base.{
  ℕ, zero, suc, ◌+◌, ◌-◌, ◌%◌, ◌^◌, ◌≤◌, ◌<◌, ◌≡◌, ◌∙◌, refl, ap, sym, subst, ◌⊎◌, inl, inr, Bool,
  true, false, Option, none, some, List, [], ◌∷◌, ◌++◌, Outcome, ok, undefined, out_of_fuel, ◌>>=◌,
  Returns, arith, ◌==◌, if◌then◌else◌, same_ptr, Bool-cases,
}
use mod2gc.Flags.{BitFlags}
use mod2gc.Node.{NodePtr, DagNodePtr, DagNode, is_marked}
use mod2gc.Arenas.{ArenaPtr, arena_size, Arena, NodeAllocator}
use mod2gc.Arenas.Search.{ptr}
use mod2gc.Arenas.Invariant.{IsLinked, marked_at}
use mod2gc.Arenas.Allocate.Safety.{Started}
use mod2gc.Arenas.Sweep.{sweep_arenas}
use mod2gc.Arenas.Sweep.Clears.{Tidy}
use mod2gc.Arenas.Sweep.Tidies.{sweep_arenas-Tidy}

module _ (ops : BitFlags) where
  -- The loop over the nodes of an arena.
  unfoldable pub check_nodes : (ℕ → DagNode) → (arena_idx i left : ℕ) → List (ℕ × ℕ)
  check_nodes nodes k i zero = []
  check_nodes nodes k i (suc left) =
      let rest = check_nodes nodes k (i + 1) left in
      if is_marked ops (nodes i) then (k, i) ∷ rest else rest

  -- The loop over the arenas, up to the current one.
  unfoldable pub check_from :
      (bound_of : ℕ → Outcome ℕ) (fuel : ℕ)
      → NodeAllocator
      → ArenaPtr
      → (arena_idx : ℕ) → Outcome (List (ℕ × ℕ))
  check_from bound_of zero s p k = out_of_fuel
  check_from bound_of (suc fuel) s none k = ok []
  check_from bound_of (suc fuel) s (some a) k = do
    n ← bound_of a
    let found = check_nodes (s.arenas a).nodes k 0 n
    let rest = check_from bound_of fuel s (s.arenas a).next_arena ((k + 1) % 2 ^ 32)
    if same_ptr (some a) s.current_arena then ok found else (rest >>= λ xs. ok (found ++ xs))

  -- The nodes of an arena to check: those before `next_node` in the current one.
  abbrev pub given_nodes : NodeAllocator → ℕ → Outcome ℕ
  given_nodes s a =
      if same_ptr (some a) s.current_arena
      then elim s.next_node [
        | none ↦ undefined
        | some p ↦ if p.arena == a then ok p.index else undefined
      ]
      else ok arena_size

  unfoldable pub check_invariant : NodeAllocator → Outcome (List (ℕ × ℕ))
  check_invariant s = check_from (given_nodes s) (s.boxes + 1) s s.first_arena 0

  unfoldable pub check_arenas : NodeAllocator → Outcome (List (ℕ × ℕ))
  check_arenas s = check_from (λ a. ok arena_size) (s.boxes + 1) s s.first_arena 0
