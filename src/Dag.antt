-- ===== src/Dag.antt =====
-- src/dag_node/node.rs: nodes of the graph in the memory of the two allocators: their constructors,
-- their children, and the mark phase.
pub mod Count
pub mod Graph
pub mod Mark
pub mod Visit
pub mod Rewrite
pub mod Search
pub mod Exact
pub mod Make
pub mod Construct
pub mod Frame
pub mod Fresh
pub mod Insert
pub mod Extend
pub mod Mismatch
pub mod Sample
mod Tests
use mod2gc.Base.{
  ℕ, zero, suc, ◌+◌, ◌*◌, max, Bool, true, false, not, ◌&&◌, ◌||◌, Option, none, some, List, [],
  ◌∷◌, Outcome, ok, panic, undefined, out_of_fuel, ◌>>=◌, length, ltb, leb, ◌==◌, if◌then◌else◌,
}
use mod2gc.Flags.{BitFlags, marked}
use mod2gc.Node.{
  NodePtr, DagNodePtr, SymbolPtr, DagNodeKind, free, DagNodeArgument, no_args, single, many,
  DagNode, is_marked,
}
use mod2gc.Symbol.{Symbol, arity_of}
use mod2gc.Storage.{Address}
use mod2gc.Arenas.{arena_size, NodeAllocator, node_at, set_node}
use mod2gc.Arenas.Allocate.{increment_active_node_count, allocate_dag_node}
use mod2gc.Vector.{
  Slice, NodeVector, Memory, slot, with_capacity, from_slice, shallow_copy, iter, push,
}
use mod2gc.Vector.Owns.{nth}

-- The two global allocators, with their memory.
pub record Heap : Type 0 where
  pub nodes : NodeAllocator
  pub memory : Memory

-- A pointer to a node of an arena.
abbrev pub exists : Heap → NodePtr → Bool
exists h p = ltb p.arena h.nodes.boxes && ltb p.index arena_size

-- A read through a pointer, which is undefined outside the arenas.
abbrev pub read_node : Heap → NodePtr → Outcome DagNode
read_node h p = if exists h p then ok (node_at h.nodes.arenas p) else undefined

abbrev pub put_node : Heap → NodePtr → DagNode → Heap
put_node h p d = record h { nodes = record h.nodes { arenas = set_node h.nodes.arenas p d } }

abbrev pub put_args : Heap → NodePtr → DagNodeArgument → Heap
put_args h p args = put_node h p (record (node_at h.nodes.arenas p) { args = args })

-- The pushes of `with_args`, whose results are dropped.
pub push_all : Address → List DagNodePtr → Memory → Outcome Memory
push_all v [] m = ok m
push_all v (x ∷ xs) m = push m v x >>= push_all v xs

-- `base` and `junk` are what `allocate_storage` and `allocate_dag_node` take; `symbols` are the symbols
-- that pointers lead to.
module _ (ops : BitFlags) (base : ℕ → ℕ) (junk : ℕ → ℕ → DagNode) (symbols : ℕ → Symbol) where
  unfoldable pub with_kind : SymbolPtr → DagNodeKind → Heap → Outcome (NodePtr × Heap)
  with_kind symbol kind h = do
    (p, s) ← allocate_dag_node ops junk h.nodes
    arity ← arity_of symbols symbol
    (args, m) ←
        (if ltb 1 arity
          then (with_capacity base arity h.memory >>= λ (v, m). ok (many v, m))
          else ok (no_args, h.memory))
    ok (
      p,
      put_node (record { nodes = s; memory = m }) p
          (record { symbol = symbol; args = args; kind = kind; flags = ops.empty }),
    )

  -- `DagNode::new`, with the default kind.
  unfoldable pub new : SymbolPtr → Heap → Outcome (NodePtr × Heap)
  new symbol h = with_kind symbol free h

  -- The arguments that `with_args` makes.
  pub make_args : (arity : ℕ) → List DagNodePtr → Memory → Outcome (DagNodeArgument × Memory)
  make_args arity args m =
      if ltb 1 arity || ltb 1 (length args)
      then (do
        (v, m₁) ← with_capacity base (max arity (length args)) m
        m₂ ← push_all v args m₁
        ok (many v, m₂))
      else elim args [ [] ↦ ok (no_args, m) | x ∷ xs ↦ ok (single x, m) ]

  unfoldable pub with_args :
      SymbolPtr → List DagNodePtr → DagNodeKind → Heap → Outcome (NodePtr × Heap)
  with_args none args kind h = panic
  with_args (some k) args kind h = do
    (p, s) ← allocate_dag_node ops junk h.nodes
    (args', m) ← make_args (symbols k).arity args h.memory
    ok (
      p,
      put_node (record { nodes = s; memory = m }) p
          (record { symbol = some k; args = args'; kind = kind; flags = ops.empty }),
    )

  -- `iter_children`, by the items that the iterator leads through.
  unfoldable pub iter_children : Heap → DagNode → Outcome (List DagNodePtr)
  iter_children h d = do
    arity ← arity_of symbols d.symbol
    elim d.args [
      | no_args ↦ if arity == 0 then ok [] else panic
      | single q ↦ if arity == 1 then ok (q ∷ []) else panic
      | many v ↦ if ltb 1 arity then iter h.memory v else panic
    ]

  unfoldable pub len : Heap → DagNode → ℕ
  len h d = elim d.args [ no_args ↦ 0 | single _ ↦ 1 | many v ↦ (h.memory.vectors v).length ]

  -- The two items of `insert_child`, as the slice that `from_slice` reads.
  abbrev pub pair_of : DagNodePtr → DagNodePtr → Memory → ℕ → DagNodePtr
  pair_of x y m i = nth (x ∷ y ∷ []) i

  -- The new arguments of a node that gets one more child.
  unfoldable pub add_child :
      DagNodeArgument → DagNodePtr → Memory → Outcome (DagNodeArgument × Memory)
  add_child no_args child m = ok (single child, m)
  add_child (single first) child m =
      from_slice base 2 (pair_of first child) m >>= λ (v, m'). ok (many v, m')
  add_child (many v) child m = push m v child >>= λ m'. ok (many v, m')

  unfoldable pub insert_child : NodePtr → DagNodePtr → Heap → Outcome Heap
  insert_child p child h = do
    d ← read_node h p
    (args, m) ← add_child d.args child h.memory
    ok (put_args (record h { memory = m }) p args)

  module _ (visit : NodePtr → Heap → Outcome Heap) where
    -- A child that is null is reported and passed.
    abbrev pub visit_child : DagNodePtr → Heap → Outcome Heap
    visit_child none h = ok h
    visit_child (some q) h = visit q h

    -- The loop over the children in a vector, which reads each slot when it comes to it.
    unfoldable pub visit_slots : (p : Address) (i left : ℕ) → Heap → Outcome Heap
    visit_slots p i zero h = ok h
    visit_slots p i (suc left) h =
        visit_child (h.memory.slots (slot p i)) h >>= visit_slots p (i + 1) left

    -- The end of `mark` for a vector: the check of its capacity, and the copy.
    abbrev pub copy_vector : NodePtr → Address → (arity : ℕ) → Heap → Outcome Heap
    copy_vector p v arity h =
        let d = h.memory.vectors v in
        if not (d.capacity == arity) || ltb d.capacity d.length
        then panic
        else (shallow_copy base v h.memory >>= λ (w, m).
            ok (put_args (record h { memory = m }) p (many w)))

    unfoldable pub mark_vector : NodePtr → Address → (arity : ℕ) → Heap → Outcome Heap
    mark_vector p v arity h =
        let d = h.memory.vectors v in
        if leb d.length d.slice.len
        then visit_slots d.slice.ptr 0 d.length h >>= copy_vector p v arity
        else panic

    -- The children of a node are marked, once the node is.
    abbrev pub mark_args : NodePtr → DagNodeArgument → (arity : ℕ) → Heap → Outcome Heap
    mark_args p no_args arity h = ok h
    mark_args p (single q) arity h = visit_child q h
    mark_args p (many v) arity h = mark_vector p v arity h

  -- The node is counted, and gets its mark.
  abbrev pub put_mark : Heap → NodePtr → DagNode → Heap
  put_mark h p d =
      put_node (record h { nodes = increment_active_node_count h.nodes }) p
        (record d { flags = ops.insert d.flags marked })

  -- `mark`; the fuel is the depth of its recursion.
  unfoldable pub mark : (fuel : ℕ) → NodePtr → Heap → Outcome Heap
  mark zero p h = out_of_fuel
  mark (suc fuel) p h = do
    d ← read_node h p
    if is_marked ops d
        then ok h
        else (arity_of symbols d.symbol >>= λ arity.
            mark_args (mark fuel) p d.args arity (put_mark h p d))

  -- `mark`, with fuel for a path through every node.
  unfoldable pub mark_node : NodePtr → Heap → Outcome Heap
  mark_node p h = mark (h.nodes.boxes * arena_size + 1) p h
