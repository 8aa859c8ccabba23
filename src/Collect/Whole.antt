-- ===== src/Collect/Whole.antt =====
-- `collect_garbage` of src/dag_node/allocator/node_allocator.rs, from a state that the allocator reaches.
use mod2gc.Base.{
  ℕ, ◌+◌, ◌%◌, ◌^◌, ◌<◌, ◌≡◌, ◌∙◌, refl, ap, sym, subst, ◌⊎◌, inl, inr, true, false, none, some,
  List, ok, ◌>>=◌, Returns, arith, All, All-map, ltb, ◌==◌, if◌then◌else◌, is_null, Bool-cases,
}
use mod2gc.Flags.{BitFlags}
use mod2gc.Node.{NodePtr, DagNode, is_marked}
use mod2gc.Symbol.{Symbol}
use mod2gc.Storage.{Storage}
use mod2gc.Storage.Collect.{sweep_garbage-Swept}
use mod2gc.Arenas.{arena_size, NodeAllocator, node_at}
use mod2gc.Arenas.Invariant.{IsLinked, marked_at}
use mod2gc.Arenas.Allocate.Extend.{NoMarks}
use mod2gc.Arenas.Allocate.Safety.{Started}
use mod2gc.Arenas.Allocate.Sequence.{allocate_times, allocate_times-Supplied}
use mod2gc.Arenas.Sweep.{sweep_arenas}
use mod2gc.Arenas.Sweep.Steps.{Le}
use mod2gc.Arenas.Sweep.Clears.{Tidy, SameContent}
use mod2gc.Arenas.Sweep.Tidies.{sweep_arenas-Tidy}
use mod2gc.Roots.{Roots}
use mod2gc.Roots.Refine.{Holds}
use mod2gc.Dag.{Heap}
use mod2gc.Dag.Graph.{Graph, Edge, Reach, IsGraph, marked_in}
use mod2gc.Dag.Exact.{Among, Exact, Reach-N, mark_roots-Exact}
use mod2gc.Collect.{Collector, after_marks, before_marks, after_sweep, collect_garbage}
use mod2gc.Collect.Grow.{Covered, Finished, finish-Finished}
use mod2gc.Collect.Keeps.{
  Reads, Reads-of_Shape, tidy-boxes, IsLinked-ready, ready-IsGraph, Collected,
}

module _ (ops : BitFlags) (base : ℕ → ℕ) (junk : ℕ → ℕ → DagNode) (symbols : ℕ → Symbol)
    (ideal_arena_count : ℕ → ℕ) (roots : Roots) (clean : NoMarks ops junk)
    (small_ideal : (n : ℕ) → ideal_arena_count n < 2 ^ 32) (xs : List ℕ) (ps : List NodePtr)
    (holds : Holds roots xs ps) (g : Graph) (N : NodePtr → Type 0)
    (closed : (p q : NodePtr) → N p → Edge g p q → N q) (roots_N : (q : NodePtr) → Among ps q → N q)
    (s : Collector) (c i : ℕ) (st : Started ops s.heap.nodes c (i + 1)) (in_array : i < arena_size)
    (small : s.heap.nodes.boxes < 2 ^ 32)
    (goes_on : ((s.gc_count + 1) % 2 ^ 64 == s.heap.nodes.early_quit) ≡ false)
    (graph : IsGraph symbols g N s.heap)
    (given : (p : NodePtr) → N p → Le p.arena p.index c i ⊎ (marked_in ops s.heap p ≡ true)) where
  abbrev start : NodeAllocator → Heap
  start = before_marks ops base junk symbols ideal_arena_count roots s.heap

  -- The state between the sweeps, and what is known of it.
  record Between (t : NodeAllocator) (h : Heap) : Type 0 where
    tidy : Tidy ops s.heap.nodes c (i + 1) t
    exact : Exact ops base junk symbols g N closed (Among ps) (start t) h

  module _ (t : NodeAllocator) (h : Heap) (b : Between t h) where
    boxes_h : h.nodes.boxes ≡ s.heap.nodes.boxes
    boxes_h =
        ap (λ (s : NodeAllocator). s.boxes) (b.exact.progress.fields)
        ∙ tidy-boxes ops base junk symbols ideal_arena_count roots g N s.heap c (i + 1) t b.tidy

    before_last : (p : NodePtr) → N p → Le p.arena p.index b.tidy.m b.tidy.l
    before_last p n =
        let w = graph.shows p n in
        let first = b.tidy.covers_given in
        elim (given p n) [
          | inl early ↦ ground (arith, first, early)
          | inr live ↦ b.tidy.covers_live p.arena p.index w.in_arenas w.in_array live
        ]

    IsLinked-h : IsLinked h.nodes
    IsLinked-h =
        let ready =
          IsLinked-ready ops base junk symbols ideal_arena_count roots g N s.heap c (i + 1) t b.tidy
            st.linked in
        let p = b.exact.progress in
        let first = ap (λ (s : NodeAllocator). s.first_arena) p.fields in
        let last = ap (λ (s : NodeAllocator). s.last_arena) p.fields in
        let count = ap (λ (s : NodeAllocator). s.arena_count) p.fields in
        let boxes = ap (λ (s : NodeAllocator). s.boxes) p.fields in
        record {
          first = rw (first, boxes) ready.first;
          last = rw (last, boxes) ready.last;
          links = λ a lt. p.links a ∙ ready.links a (rw boxes at lt);
          ends = λ a lt. p.links a ∙ ready.ends a (rw boxes at lt);
          count = rw (count, boxes) ready.count;
        }

    only_h :
        (q : NodePtr)
        → q.arena < s.heap.nodes.boxes
        → q.index < arena_size
        → marked_in ops h q ≡ true
        → Reach g (Among ps) q
    only_h q lt lt' m =
        b.exact.only q
          (rw
            (tidy-boxes ops base junk symbols ideal_arena_count roots g N s.heap c (i + 1) t b.tidy)
            lt)
          lt' m

    Covered-h : Covered ops h.nodes b.tidy.m b.tidy.l
    Covered-h = record {
      arena =
          ap (λ (s : NodeAllocator). s.last_active_arena) b.exact.progress.fields
          ∙ b.tidy.active_arena;
      node =
          ap (λ (s : NodeAllocator). s.last_active_node) b.exact.progress.fields
          ∙ b.tidy.active_node;
      exists = rw boxes_h b.tidy.exists;
      in_array = b.tidy.in_array;
      bound = λ a j lt lt' m.
          let q : NodePtr = record { arena = a; index = j } in
          before_last q (
            Reach-N ops base junk symbols g N closed (Among ps) roots_N q
              (only_h q (rw boxes_h at lt) lt' m));
    }

    -- The nodes of the graph are in the old arenas, which the end of the collection leaves alone.
    node_kept :
        (u : NodeAllocator)
        → Finished ops junk clean h.nodes (ideal_arena_count h.nodes.active_node_count) u
        → (q : NodePtr) → q.arena < s.heap.nodes.boxes
        → node_at u.arenas q ≡ node_at h.nodes.arenas q
    node_kept u f q lt = ap (λ nodes. nodes q.index) (f.old q.arena (rw boxes_h lt))

    content_h :
        (q : NodePtr) → N q → SameContent ops (node_at s.heap.nodes.arenas q) (node_at t.arenas q)
    content_h q n = b.tidy.content q.arena q.index (graph.shows q n).in_array

    result :
        (u : NodeAllocator) (z : Storage) (n : ℕ)
        → Finished ops junk clean h.nodes (ideal_arena_count h.nodes.active_node_count) u
        → Collected ops base junk symbols ideal_arena_count roots g N (Among ps) s (record {
          heap = record { nodes = u; memory = record h.memory { storage = z } };
          gc_count = n;
        })
    result u z n f =
        let inside = λ (q : NodePtr) (n : N q). (graph.shows q n).in_arenas in
        let there = Reach-N ops base junk symbols g N closed (Among ps) roots_N in
        record {
          started = f.started;
          boxes = omega (arith, f.boxes, boxes_h);
          all = λ q path.
              ap (is_marked ops) (node_kept u f q (inside q (there q path))) ∙ b.exact.all q path;
          only = λ q lt lt' m. elim (Bool-cases (ltb q.arena s.heap.nodes.boxes)) [
            | inl old ↦
                let before : q.arena < s.heap.nodes.boxes = ground arith in
                only_h q before lt' (sym (ap (is_marked ops) (node_kept u f q before)) ∙ m)
            | inr new ↦
                let unmarked = f.fresh q.arena q.index (ground (arith, boxes_h)) lt in
                cc (unmarked, m)
          ];
          symbol = λ q n.
              ap (λ (d : DagNode). d.symbol) (node_kept u f q (inside q n))
              ∙ b.exact.progress.symbols q
              ∙ (content_h q n).0;
          kind = λ q n.
              let (_, _, k) = content_h q n in
              ap (λ (d : DagNode). d.kind) (node_kept u f q (inside q n))
              ∙ b.exact.progress.kinds q
              ∙ k;
          children = λ q n.
              let w = b.exact.graph.shows q n in
              subst (λ (d : DagNode). Reads (record h.memory { storage = z }) d.args (g q))
                (sym (node_kept u f q (inside q n)))
                (Reads-of_Shape h.memory (record h.memory { storage = z }) (symbols w.symbol).arity
                  (node_at h.nodes.arenas q).args (g q) refl refl w.shape);
        }

    quits_h : ((s.gc_count + 1) % 2 ^ 64 == h.nodes.early_quit) ≡ false
    quits_h =
        ap (λ n. (s.gc_count + 1) % 2 ^ 64 == n)
          (ap (λ (s : NodeAllocator). s.early_quit) b.exact.progress.fields
            ∙ ap (λ (s : NodeAllocator). s.early_quit) b.tidy.fields)
        ∙ goes_on

    after_marks-Collected :
        Returns
          (Collected ops base junk symbols ideal_arena_count roots g N (Among ps) s)
          (after_marks ops base junk symbols ideal_arena_count roots ((s.gc_count + 1) % 2 ^ 64) h)
    unfolding after_marks
    after_marks-Collected =
        let sound = b.exact.graph.sound in
        let (z, e, _) = sweep_garbage-Swept h.memory.storage sound.front sound.unused sound.valid in
        let (u, e', f) =
          finish-Finished ops junk clean (ideal_arena_count h.nodes.active_node_count) b.tidy.m
            b.tidy.l h.nodes IsLinked-h Covered-h (rw boxes_h small)
            (small_ideal h.nodes.active_node_count) in
        (
          record {
            heap = record { nodes = u; memory = record h.memory { storage = z } };
            gc_count = (s.gc_count + 1) % 2 ^ 64;
          },
          rw (e, quits_h, e') refl,
          result u z ((s.gc_count + 1) % 2 ^ 64) f,
        )

  after_sweep-Collected :
      (t : NodeAllocator)
      → Tidy ops s.heap.nodes c (i + 1) t
      → Returns
          (Collected ops base junk symbols ideal_arena_count roots g N (Among ps) s)
          (after_sweep ops base junk symbols ideal_arena_count roots s t)
  unfolding after_sweep
  after_sweep-Collected t tidy =
      let boxes =
        tidy-boxes ops base junk symbols ideal_arena_count roots g N s.heap c (i + 1) t tidy in
      let (h, e, x) =
        mark_roots-Exact ops base junk symbols g N closed roots xs ps holds (start t)
          (ready-IsGraph ops base junk symbols ideal_arena_count roots g N s.heap c (i + 1) t tidy
            graph)
          roots_N (λ p lt lt'. tidy.clean p.arena p.index (rw boxes at lt) lt') in
      let (u, f, w) = after_marks-Collected t h (record { tidy = tidy; exact = x }) in
      (
        u,
        ap
              (λ m.
                m
                >>= after_marks ops base junk symbols ideal_arena_count roots
                    ((s.gc_count + 1) % 2 ^ 64))
              e
            ∙ f,
        w,
      )

  -- If the allocator satisfies its invariant with the cursor behind a node it has given out, there
  -- are fewer than 2 ^ 32 arenas and the ideal count always stays below that, the memory of new
  -- arenas shows no mark, the collection is not the one to quit at, the roots are a well-formed
  -- list of nodes of a graph that is closed under children, each node of the graph stands before
  -- the cursor or is marked, and the heap holds them all, each vector in blocks below its bucket's
  -- cursor and with the capacity that the symbol asks for, then `collect_garbage` returns; the
  -- invariant holds with the cursor at the first node, a node of an arena has a mark exactly if
  -- the roots reach it, and every node of the graph keeps its symbol, its kind and its list of
  -- children.
  pub collect_garbage-Collected :
      Returns
        (Collected ops base junk symbols ideal_arena_count roots g N (Among ps) s)
        (collect_garbage ops base junk symbols ideal_arena_count roots s)
  unfolding collect_garbage
  collect_garbage-Collected =
      let some_arena : (s.heap.nodes.boxes == 0) ≡ false =
        (let lt = st.place.exists in ground (arith, lt)) in
      let first : s.heap.nodes.first_arena ≡ some 0 =
        st.linked.first ∙ ap (λ b. if b then none else some 0) some_arena in
      let (t, e, tidy) = sweep_arenas-Tidy ops s.heap.nodes c i st in_array in
      let (u, f, w) = after_sweep-Collected t tidy in
      let after = after_sweep ops base junk symbols ideal_arena_count roots s in
      (
        u,
        ap (λ p. if is_null p then ok s else sweep_arenas ops s.heap.nodes >>= after) first
            ∙ ap (λ m. m >>= after) e
            ∙ f,
        w,
      )

  -- Under the conditions on which `collect_garbage` is shown to return (the invariant of the
  -- allocator with the cursor behind a node given out, fewer than 2 ^ 32 arenas, an ideal count
  -- below that, no mark in the memory of new arenas, no quitting, a well-formed list of roots, and
  -- a graph that holds them, is closed under children and stands in the heap with its vectors),
  -- any number of calls of `allocate_dag_node` after it return, and none gives a node that the
  -- roots reach.
  pub collect_then_allocate :
      (n : ℕ)
      → Returns
          (λ r. All (λ p. ¬ (Reach g (Among ps) p)) r.0)
          (collect_garbage ops base junk symbols ideal_arena_count roots s
            >>= (λ t. allocate_times ops junk n t.heap.nodes))
  collect_then_allocate n =
      let (t, e, w) = collect_garbage-Collected in
      let (r, f, x) = allocate_times-Supplied ops junk clean n t.heap.nodes 0 0 w.started in
      (
        r,
        ap (λ m. m >>= (λ t. allocate_times ops junk n t.heap.nodes)) e ∙ f,
        All-map
            (λ p. p.arena < t.heap.nodes.boxes → marked_at ops t.heap.nodes p.arena p.index ≡ false)
            (λ p. ¬ (Reach g (Among ps) p)) r.0
            (λ p free path.
              let inside =
                (graph.shows p
                  (Reach-N ops base junk symbols g N closed (Among ps) roots_N p path)).in_arenas in
              let live = w.all p path in
              let dead = free (omega (arith, w.boxes, inside)) in absurd (cc (live, dead)))
            x.free,
      )
