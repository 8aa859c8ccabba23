-- ===== src/Dag/Exact.antt =====
-- `mark_roots` of src/dag_node/root_container.rs with `mark` of src/dag_node/node.rs: the nodes with
-- a mark are those that the roots reach.
use mod2gc.Base.{
  ℕ, ◌+◌, ◌*◌, ◌%◌, ◌^◌, ◌<◌, ◌≡◌, ◌∙◌, refl, sym, subst, ◌⊎◌, inl, inr, true, false, List, [], ◌∷◌,
  Returns, arith,
}
use mod2gc.Flags.{BitFlags}
use mod2gc.Node.{NodePtr, DagNode, is_marked}
use mod2gc.Symbol.{Symbol}
use mod2gc.Arenas.{arena_size}
use mod2gc.Roots.{Roots, mark_roots}
use mod2gc.Roots.Refine.{Holds, mark_each, mark_roots-mark_each}
use mod2gc.Dag.{Heap, mark_node}
use mod2gc.Dag.Count.{total-le, total-none}
use mod2gc.Dag.Graph.{
  Graph, Edge, Reach, here, step, IsGraph, marked_in, unmarked, Progress, Progress-refl,
  Progress-trans,
}
use mod2gc.Dag.Mark.{Visited}
use mod2gc.Dag.Search.{mark-Visited}

abbrev pub Among : List NodePtr → NodePtr → Type 0
Among [] p = ⊥
Among (x ∷ xs) p = (p ≡ x) ⊎ Among xs p

module _ (ops : BitFlags) (base : ℕ → ℕ) (junk : ℕ → ℕ → DagNode) (symbols : ℕ → Symbol) (g : Graph)
    (N : NodePtr → Type 0) (closed : (p q : NodePtr) → N p → Edge g p q → N q) where
  -- From a heap with no marks, what the roots `R` reach is marked and counted, and nothing else is
  -- marked; the nodes `N` keep their children.
  pub record Exact (R : NodePtr → Type 0) (h h' : Heap) : Type 0 where
    pub progress : Progress ops g R h h'
    pub graph : IsGraph symbols g N h'
    pub all : (q : NodePtr) → Reach g R q → marked_in ops h' q ≡ true
    pub only :
        (q : NodePtr)
        → q.arena < h.nodes.boxes
        → q.index < arena_size
        → marked_in ops h' q ≡ true
        → Reach g R q

  -- All nodes of a list are marked.
  record Swept (R : NodePtr → Type 0) (ps : List NodePtr) (h h' : Heap) : Type 0 where
    progress : Progress ops g R h h'
    graph : IsGraph symbols g N h'
    marks : (q : NodePtr) → Among ps q → marked_in ops h' q ≡ true

  -- In a graph that is closed under children and stands in the heap with its vectors, `mark` of a
  -- node returns if its recursion may go as deep as there are nodes in the arenas and one more,
  -- cycles included; the node is marked then, marks are kept, each new one is on a node that can
  -- be reached and whose children are marked as well, and each is counted.
  pub mark_node-Visited :
      (R : NodePtr → Type 0) (p : NodePtr) (h : Heap)
      → N p
      → Reach g R p
      → IsGraph symbols g N h
      → Returns (Visited ops base junk symbols g R N h p) (mark_node ops base junk symbols p h)
  unfolding mark_node
  mark_node-Visited R p h n path graph =
      let few =
        total-le (λ a j. is_marked ops ((h.nodes.arenas a).nodes j)) h.nodes.boxes arena_size in
      mark-Visited ops base junk symbols g R N closed (h.nodes.boxes * arena_size + 1) p h n path
        graph (omega (arith, few))

  mark_each-Swept :
      (R : NodePtr → Type 0) (ps : List NodePtr) (h : Heap)
      → ((q : NodePtr) → Among ps q → N q × R q)
      → IsGraph symbols g N h
      → Returns (Swept R ps h) (mark_each (mark_node ops base junk symbols) ps h)
  mark_each-Swept R [] h among graph = (
    h,
    refl,
    record {
      progress = Progress-refl ops g R h graph.sound;
      graph = graph;
      marks = λ q a. absurd a;
    },
  )
  mark_each-Swept R (p ∷ ps) h among graph =
      let (n, root) = among p (inl refl) in
      let (t, e, v) = mark_node-Visited R p h n (here root) graph in
      let (u, f, w) = mark_each-Swept R ps t (λ q a. among q (inr a)) v.graph in
      (
        u,
        rw e f,
        record {
          progress = Progress-trans ops g R h t u v.progress w.progress;
          graph = w.graph;
          marks = λ q a. elim a [
            | inl same ↦
                w.progress.keeps q (subst (λ q. marked_in ops t q ≡ true) (sym same) v.marks)
            | inr later ↦ w.marks q later
          ];
        },
      )

  pub Reach-N :
      (R : NodePtr → Type 0) → ((r : NodePtr) → R r → N r) → (q : NodePtr) → Reach g R q → N q
  Reach-N R roots q (here r) = roots q r
  Reach-N R roots q (step {p} path edge) = closed p q (Reach-N R roots p path) edge

  module _ (s : Roots) (xs : List ℕ) (ps : List NodePtr) (holds : Holds s xs ps) (h : Heap)
      (graph : IsGraph symbols g N h) (roots : (q : NodePtr) → Among ps q → N q)
      (clean : (p : NodePtr)
        → p.arena < h.nodes.boxes
        → p.index < arena_size
        → marked_in ops h p ≡ false) where
    clean_at : (p : NodePtr) → N p → marked_in ops h p ≡ false
    clean_at p n = let s = graph.shows p n in clean p s.in_arenas s.in_array

    all_marked :
        (h' : Heap)
        → Swept (Among ps) ps h h'
        → (q : NodePtr) → Reach g (Among ps) q
        → marked_in ops h' q ≡ true
    all_marked h' w q (here a) = w.marks q a
    all_marked h' w q (step {p} path edge) =
        w.progress.closed p q (clean_at p (Reach-N (Among ps) roots p path))
          (all_marked h' w p path) edge

    -- For a well-formed list of roots in a graph that is closed under children and stands in the
    -- heap with its vectors, and with no mark in the arenas, `mark_roots` returns; the nodes of
    -- the arenas that have a mark then are those that the roots reach, nodes without one are left
    -- alone, and the graph still stands in the heap. The vector of each node that has got a mark
    -- is then in a block that is handed out, and its header and its slots share no byte with any
    -- block that was handed out before, so with the vector that the node had.
    pub mark_roots-Exact :
        Returns (Exact (Among ps) h) (mark_roots (mark_node ops base junk symbols) s h)
    mark_roots-Exact =
        let (t, e, w) = mark_each-Swept (Among ps) ps h (λ q a. (roots q a, a)) graph in
        (
          t,
          mark_roots-mark_each (mark_node ops base junk symbols) s xs ps h holds ∙ e,
          record {
            progress = w.progress;
            graph = w.graph;
            all = all_marked t w;
            only = λ q lt lt' m. w.progress.reached q (clean q lt lt') m;
          },
        )

    -- For a well-formed list of roots in a graph that is closed under children and stands in the
    -- heap with its vectors, and with no mark in the arenas and a count of zero, `mark_roots`
    -- returns, and the count of active nodes and the nodes of the arenas without a mark add up to
    -- all nodes of the arenas, modulo 2 ^ 64.
    pub mark_roots-counts :
        h.nodes.active_node_count ≡ 0
        → Returns
            (λ h'.
              (h'.nodes.active_node_count + unmarked ops h') % 2 ^ 64
              ≡ (h.nodes.boxes * arena_size) % 2 ^ 64)
            (mark_roots (mark_node ops base junk symbols) s h)
    mark_roots-counts zero_count =
        let (t, e, x) = mark_roots-Exact in
        let all_unmarked =
          total-none (λ a j. is_marked ops ((h.nodes.arenas a).nodes j)) h.nodes.boxes arena_size
            (λ a j lt lt'. clean (record { arena = a; index = j }) lt lt') in
        (t, e, omega (arith, all_unmarked, x.progress.fewer, x.progress.counted, zero_count))
