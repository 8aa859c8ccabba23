-- ===== src/Tree.antt =====
-- src/util.rs: random trees of nodes.
pub mod Forest
pub mod Sprout
pub mod Grow
pub mod Build
pub mod Nodes
pub mod Print
pub mod Plant
mod Tests
use mod2gc.Base.{
  ℕ, zero, suc, ◌+◌, min, max, Option, none, some, List, Outcome, ok, panic, ◌>>=◌, get_elem?, ◌==◌,
  if◌then◌else◌,
}
use mod2gc.Flags.{BitFlags}
use mod2gc.Node.{NodePtr, DagNode}
use mod2gc.Symbol.{Symbol, arity_of}
use mod2gc.Dag.{Heap, read_node, new, insert_child}

-- The heap, and the number of draws that the random number generator has made.
pub record Builder : Type 0 where
  pub heap : Heap
  pub draws : ℕ

-- `table` is the slice `symbols`, of pointers to symbols; `draw n lo hi` is what `gen_range(lo..=hi)`
-- gives as draw number `n`.
module _ (ops : BitFlags) (base : ℕ → ℕ) (junk : ℕ → ℕ → DagNode) (symbols : ℕ → Symbol)
    (table : List ℕ) (draw : (n lo hi : ℕ) → ℕ) where
  -- `&symbols[child_arity]`.
  unfoldable pub symbol_at : (child_arity : ℕ) → Outcome ℕ
  symbol_at child_arity = elim (get_elem? table child_arity) [ none ↦ panic | some k ↦ ok k ]

  -- The arity of a child, and the number of draws after it.
  abbrev pub child_arity : (max_height min_width max_width draws : ℕ) → ℕ × ℕ
  child_arity max_height min_width max_width draws =
      if max_height == 1 then (0, draws) else (draw draws min_width max_width, draws + 1)

  -- The loop over the children; `build` is the recursive call.
  unfoldable pub add_children :
      (build : NodePtr → Builder → Outcome Builder) (parent : NodePtr)
      (max_height min_width max_width left : ℕ)
      → Builder
      → Outcome Builder
  add_children build parent max_height min_width max_width zero s = ok s
  add_children build parent max_height min_width max_width (suc left) s = do
    let (arity, draws) = child_arity max_height min_width max_width s.draws
    symbol ← symbol_at arity
    (child, h₁) ← new ops base junk symbols (some symbol) s.heap
    h₂ ← insert_child ops base junk symbols parent (some child) h₁
    s' ← build child (record { heap = h₂; draws = draws })
    add_children build parent max_height min_width max_width left s'

  unfoldable pub build_random_tree :
      (parent : NodePtr) (max_height max_width min_width : ℕ) → Builder → Outcome Builder
  build_random_tree parent zero max_width min_width s = ok s
  build_random_tree parent (suc height) max_width min_width s =
      let lo = min max_width min_width in
      let hi = max max_width lo in
      let build : NodePtr → Builder → Outcome Builder =
        λ child s. build_random_tree child height hi lo s in
      (do
        d ← read_node s.heap parent
        arity ← arity_of symbols d.symbol
        add_children build parent (suc height) lo hi arity s)
