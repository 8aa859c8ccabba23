-- ===== src/Tree/Plant/Survive.antt =====
-- `collect_garbage` of src/dag_node/allocator/node_allocator.rs after roots and random trees of src/util.rs
-- have been made.
use mod2gc.Base.{ℕ, ◌+◌, ◌-◌, ◌%◌, ◌^◌, ◌<◌, ◌≡◌, subst, inl, false, List, Returns, arith, ◌==◌}
use mod2gc.Flags.{BitFlags}
use mod2gc.Node.{NodePtr, DagNode}
use mod2gc.Symbol.{Symbol}
use mod2gc.Arenas.Allocate.Extend.{NoMarks}
use mod2gc.Arenas.Allocate.Safety.{Started}
use mod2gc.Arenas.Sweep.Steps.{Le}
use mod2gc.Dag.{Heap}
use mod2gc.Dag.Graph.{Graph, Reach, here, step}
use mod2gc.Dag.Exact.{Among}
use mod2gc.Collect.{collect_garbage}
use mod2gc.Collect.Keeps.{Collected}
use mod2gc.Collect.Whole.{collect_garbage-Collected}
use mod2gc.Tree.Sprout.{Before}
use mod2gc.Tree.Nodes.{children_of}
use mod2gc.Tree.Plant.{Planter}
use mod2gc.Tree.Plant.All.{Stocked}

before_Le :
    (at q : NodePtr) → 0 < at.index → Before at q → Le q.arena q.index at.arena (at.index - 1)
before_Le at q positive b = ground arith

module _ (ops : BitFlags) (base : ℕ → ℕ) (junk : ℕ → ℕ → DagNode) (symbols : ℕ → Symbol)
    (ideal_arena_count : ℕ → ℕ) (clean : NoMarks ops junk)
    (small_ideal : (n : ℕ) → ideal_arena_count n < 2 ^ 32) (h : Heap) (N : NodePtr → Type 0)
    (ps : List NodePtr) (s : Planter) (t : Stocked ops base junk symbols h N ps s) (gc_count : ℕ)
    (small : s.builder.heap.nodes.boxes < 2 ^ 32)
    (goes_on : ((gc_count + 1) % 2 ^ 64 == s.builder.heap.nodes.early_quit) ≡ false) where
  abbrev g : Graph
  g = children_of ops base junk symbols s.builder.heap

  reached : (q : NodePtr) → Reach g (Among ps) q → t.M q
  reached q (here a) = t.stock.roots q a
  reached q (step {p = x} path edge) = t.stock.closed x q (reached x path) edge

  -- For a state as the making of roots and random trees leaves it, by the theorem on that: if
  -- there are fewer than 2 ^ 32 arenas and the ideal count always stays below that, the memory of
  -- new arenas shows no mark, and the collection is not the one to quit at, then `collect_garbage`
  -- returns; the invariant holds with the cursor at the first node, a node of an arena has a mark
  -- exactly if it can be reached from the roots by the lists that `iter_children` reads, and these
  -- nodes keep their symbols, their kinds and their lists of children.
  pub collect_garbage-Stocked :
      Returns
        (Collected ops base junk symbols ideal_arena_count s.roots g
          (Reach g (Among ps))
          (Among ps)
          (record { heap = s.builder.heap; gc_count = gc_count }))
        (collect_garbage ops base junk symbols ideal_arena_count s.roots
          (record { heap = s.builder.heap; gc_count = gc_count }))
  collect_garbage-Stocked =
      let at = t.at in
      let positive : 0 < at.index = t.begun in
      let back : at.index ≡ (at.index - 1) + 1 = omega (arith, positive) in
      let st = t.stock.started in
      collect_garbage-Collected ops base junk symbols ideal_arena_count s.roots clean small_ideal
        t.xs ps t.holds g (Reach g (Among ps)) (λ x y path edge. step path edge) (λ q a. here a)
        (record { heap = s.builder.heap; gc_count = gc_count }) at.arena (at.index - 1)
        (subst (Started ops s.builder.heap.nodes at.arena) back st)
        (let order = st.order in let end = st.place.in_array in omega (arith, positive, order, end))
        small goes_on
        (record { sound = t.stock.sound; shows = λ q path. t.stock.shows q (reached q path) })
        (λ q path. inl (before_Le at q positive (t.stock.before q (reached q path))))
