-- ===== src/Tree/Plant.antt =====
-- Random trees of src/util.rs at new roots of src/dag_node/root_container.rs, one after another.
pub mod Stock
pub mod All
pub mod Survive
use mod2gc.Base.{ℕ, List, [], ◌∷◌, some, Outcome, ok, ◌>>=◌}
use mod2gc.Flags.{BitFlags}
use mod2gc.Node.{NodePtr, DagNode}
use mod2gc.Symbol.{Symbol}
use mod2gc.Roots.{Roots}
use mod2gc.Roots as RootContainer
use mod2gc.Dag.{new}
use mod2gc.Tree.{Builder, build_random_tree}

-- The global state of a program that makes trees.
pub record Planter : Type 0 where
  pub builder : Builder
  pub roots : Roots

module _ (ops : BitFlags) (base : ℕ → ℕ) (junk : ℕ → ℕ → DagNode) (symbols : ℕ → Symbol)
    (table : List ℕ) (draw : (n lo hi : ℕ) → ℕ) (max_height max_width min_width : ℕ) where
  -- A new node with a symbol, a root for it, and a random tree.
  unfoldable pub plant : (k : ℕ) → Planter → Outcome (NodePtr × ℕ × Planter)
  plant k s = do
    (root, h) ← new ops base junk symbols (some k) s.builder.heap
    (container, roots) ← RootContainer.new s.roots (some root)
    b ←
        build_random_tree ops base junk symbols table draw root max_height max_width min_width
          (record s.builder { heap = h })
    ok (root, container, record { builder = b; roots = roots })

  -- The roots, the newest first.
  unfoldable pub plant_all : List ℕ → Planter → Outcome Planter
  plant_all [] s = ok s
  plant_all (k ∷ ks) s = plant k s >>= λ (root, container, s'). plant_all ks s'
