-- ===== src/Collect/Reuse.antt =====
-- The nodes that `allocate_dag_node` gives after `collect_garbage`, both of
-- src/dag_node/allocator/node_allocator.rs.
use mathlib.Core.List.{Memᴰ}
use mod2gc.Base.{
  ℕ, ◌+◌, ◌*◌, ◌%◌, ◌^◌, ◌≤◌, ◌<◌, ◌≡◌, ◌∙◌, ap, sym, subst, ◌⊎◌, inl, inr, true, false, List, ok,
  ◌>>=◌, Returns, arith, All, ◌==◌, Bool-cases,
}
use mod2gc.Flags.{BitFlags}
use mod2gc.Node.{NodePtr, DagNode}
use mod2gc.Symbol.{Symbol}
use mod2gc.Arenas.{arena_size, NodeAllocator}
use mod2gc.Arenas.Allocate.Extend.{NoMarks}
use mod2gc.Arenas.Allocate.Safety.{Started}
use mod2gc.Arenas.Allocate.Sequence.{allocate_times}
use mod2gc.Arenas.Allocate.Reuse.{allocate_times-Reused, all_reused}
use mod2gc.Arenas.Sweep.Steps.{Le}
use mod2gc.Roots.{Roots}
use mod2gc.Roots.Refine.{Holds}
use mod2gc.Dag.Graph.{Graph, Edge, Reach, IsGraph, marked_in}
use mod2gc.Dag.Exact.{Among}
use mod2gc.Collect.{Collector, collect_garbage}
use mod2gc.Collect.Whole.{collect_garbage-Collected, collect_then_allocate}

ok_of : {A : Type 0} {x y : A} → ok x ≡ ok y → x ≡ y
ok_of e = cc

module _ (ops : BitFlags) (base : ℕ → ℕ) (junk : ℕ → ℕ → DagNode) (symbols : ℕ → Symbol)
    (ideal_arena_count : ℕ → ℕ) (roots : Roots) (clean : NoMarks ops junk)
    (small_ideal : (n : ℕ) → ideal_arena_count n < 2 ^ 32) (xs : List ℕ) (ps : List NodePtr)
    (holds : Holds roots xs ps) (g : Graph) (N : NodePtr → Type 0)
    (closed : (p q : NodePtr) → N p → Edge g p q → N q) (roots_N : (q : NodePtr) → Among ps q → N q)
    (s : Collector) (c i : ℕ) (st : Started ops s.heap.nodes c (i + 1)) (in_array : i < arena_size)
    (small : s.heap.nodes.boxes < 2 ^ 32)
    (goes_on : ((s.gc_count + 1) % 2 ^ 64 == s.heap.nodes.early_quit) ≡ false)
    (graph : IsGraph symbols g N s.heap)
    (given : (p : NodePtr) → N p → Le p.arena p.index c i ⊎ (marked_in ops s.heap p ≡ true)) where
  -- Under the conditions on which `collect_garbage` is shown to return (the invariant of the
  -- allocator with the cursor behind a node given out, fewer than 2 ^ 32 arenas, an ideal count
  -- below that, no mark in the memory of new arenas, no quitting, a well-formed list of roots, and
  -- a graph that holds them, is closed under children and stands in the heap with its vectors), as
  -- many calls of `allocate_dag_node` after it as the arenas before it have nodes, or more,
  -- return; among the nodes that they give is each node of these arenas that the roots do not
  -- reach, and none that they reach.
  pub collect_then_reuse :
      (n : ℕ)
      → s.heap.nodes.boxes * arena_size ≤ n
      → Returns
          (λ r.
            ((q : NodePtr)
              → q.arena < s.heap.nodes.boxes
              → q.index < arena_size
              → ¬ (Reach g (Among ps) q)
              → Memᴰ q r.0)
            × All (λ p. ¬ (Reach g (Among ps) p)) r.0)
          (collect_garbage ops base junk symbols ideal_arena_count roots s
            >>= (λ t. allocate_times ops junk n t.heap.nodes))
  collect_then_reuse n enough =
      let (r, e, safe) =
        collect_then_allocate ops base junk symbols ideal_arena_count roots clean small_ideal xs ps
          holds g N closed roots_N s c i st in_array small goes_on graph given n in
      let (t, e', w) =
        collect_garbage-Collected ops base junk symbols ideal_arena_count roots clean small_ideal xs
          ps holds g N closed roots_N s c i st in_array small goes_on graph given in
      let (r', f, v) = allocate_times-Reused ops junk clean n t.heap.nodes 0 0 w.started in
      let same : r' ≡ r =
        ok_of (sym (ap (λ m. m >>= (λ t. allocate_times ops junk n t.heap.nodes)) e' ∙ f) ∙ e) in
      (
        r,
        e,
        (
          λ q lt h garbage.
              subst (λ (r : List NodePtr × NodeAllocator). Memᴰ q r.0) same
                (all_reused ops junk clean s.heap.nodes.boxes n t.heap.nodes 0 0 w.boxes
                  (omega (arith, enough)) r' v q lt h (ground arith)
                  (elim (Bool-cases (marked_in ops t.heap q)) [
                    | inl live ↦
                        absurd
                          (garbage (w.only q (let le = w.boxes in omega (arith, lt, le)) h live))
                    | inr dead ↦ dead
                  ])),
          safe,
        ),
      )
