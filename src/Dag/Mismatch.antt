-- ===== src/Dag/Mismatch.antt =====
-- `mark` of src/dag_node/node.rs at a node whose vector has not the capacity that its symbol asks for.
use mod2gc.Base.{
  ℕ, suc, ◌*◌, ◌<◌, ◌≡◌, ◌≢◌, ◌∙◌, refl, ap, subst, inl, inr, true, false, not, ◌||◌, some, List,
  Outcome, ok, panic, ◌>>=◌, arith, length, ltb, leb, ◌==◌, if◌then◌else◌, Bool-cases,
}
use mod2gc.Flags.{BitFlags, marked}
use mod2gc.Node.{NodePtr, DagNodePtr, many, DagNode, is_marked}
use mod2gc.Symbol.{Symbol, arity_of}
use mod2gc.Storage.{Address}
use mod2gc.Arenas.{arena_size, node_at}
use mod2gc.Vector.{NodeVector, slot, shallow_copy}
use mod2gc.Vector.Owns.{nth, Owns, slot-Held, Owns-Grows}
use mod2gc.Dag.{
  Heap, exists, put_args, visit_slots, copy_vector, mark_vector, mark_args, put_mark, mark,
}
use mod2gc.Dag.Count.{total-le}
use mod2gc.Dag.Graph.{Graph, Edge, here, IsGraph, Shows-same, marked_in, unmarked}
use mod2gc.Dag.Mark.{same_place, same_place-eq, node_at-other, visit_slots-Marked}
use mod2gc.Dag.Search.{mark-Visited, mark-eq}

module _ (ops : BitFlags) (base : ℕ → ℕ) (junk : ℕ → ℕ → DagNode) (symbols : ℕ → Symbol) (g : Graph)
    (N : NodePtr → Type 0) (closed : (p q : NodePtr) → N p → Edge g p q → N q) (h : Heap)
    (graph : IsGraph symbols g N h) (p : NodePtr) (outside : ¬ (N p))
    (in_arenas : p.arena < h.nodes.boxes) (in_array : p.index < arena_size) where
  abbrev h₁ : Heap
  h₁ = put_mark ops base junk symbols h p (node_at h.nodes.arenas p)

  -- A mark on a node that is not of the graph leaves the graph alone.
  IsGraph-mark : IsGraph symbols g N h₁
  IsGraph-mark = record {
    sound = graph.sound;
    shows = λ q n. elim (Bool-cases (same_place q p)) [
      | inl at ↦ absurd (outside (subst N (same_place-eq q p at) n))
      | inr other ↦
          Shows-same symbols g h h₁ q refl
            (node_at-other h.nodes.arenas p q
              (record (node_at h.nodes.arenas p) {
                flags = ops.insert (node_at h.nodes.arenas p).flags marked;
              })
              other)
            (record {
              held = λ a n k. k;
              vectors = λ a k. refl;
              slots = λ a k. refl;
              sound = graph.sound;
            })
            (graph.shows q n)
    ];
  }

  module _ (v : Address) (cs : List DagNodePtr) (cap arity : ℕ) (o : Owns h.memory v cs cap)
      (other : cap ≢ arity)
      (children : (j : ℕ) (q : NodePtr) → j < length cs → nth cs j ≡ some q → N q) where
    checked_by : Heap → NodeVector → Outcome Heap
    checked_by t d =
        if not (d.capacity == arity) || ltb d.capacity d.length
        then panic
        else (shallow_copy base v t.memory >>= λ (w, m).
            ok (put_args (record t { memory = m }) p (many w)))

    copy_vector-panic :
        (visit : NodePtr → Heap → Outcome Heap) (t : Heap)
        → Owns t.memory v cs cap
        → copy_vector ops base junk symbols visit p v arity t ≡ panic
    unfolding checked_by
    copy_vector-panic visit t o =
        ap (checked_by t) o.header
        ∙ (let differs : (cap == arity) ≡ false = ground (arith, other) in rw differs refl)

    visited_by : (NodePtr → Heap → Outcome Heap) → NodeVector → Outcome Heap
    visited_by visit d =
        if leb d.length d.slice.len
        then visit_slots ops base junk symbols visit d.slice.ptr 0 d.length h₁
          >>= copy_vector ops base junk symbols visit p v arity
        else panic

    mark_vector-panic :
        (fuel : ℕ)
        → unmarked ops h₁ < fuel
        → mark_vector ops base junk symbols (mark ops base junk symbols fuel) p v arity h₁ ≡ panic
    unfolding mark_vector visited_by
    mark_vector-panic fuel few =
        let visit = mark ops base junk symbols fuel in
        let (t, e, a) =
          visit_slots-Marked ops base junk symbols g N N visit fuel
            (mark-Visited ops base junk symbols g N N closed fuel) o.ptr cs 0 (length cs) h₁
            (omega arith)
            (λ m' gr j lt.
              gr.slots (slot o.ptr j)
                (slot-Held h.memory.storage o.ptr cap j o.held_slots (omega (arith, o.fits)))
              ∙ o.items j lt)
            (λ j q lt eq. (children j q lt eq, here (children j q lt eq))) IsGraph-mark few in
        let inside : leb (length cs) cap ≡ true = ground (arith, o.fits) in
        ap (visited_by visit) o.header
        ∙ rw inside (
            ap (λ m. m >>= copy_vector ops base junk symbols visit p v arity) e
            ∙ copy_vector-panic visit t (Owns-Grows h.memory t.memory v cs cap a.progress.grows o))

    -- If a node of an arena without a mark has a vector whose capacity is not the arity of its
    -- symbol, its children are in a graph that is closed under children and stands in the heap,
    -- and the node is not one of the graph, then `mark` of it, with more fuel than there are nodes
    -- in the arenas, panics.
    pub mark-panic :
        (fuel k : ℕ)
        → marked_in ops h p ≡ false
        → (node_at h.nodes.arenas p).symbol ≡ some k
        → (symbols k).arity ≡ arity
        → (node_at h.nodes.arenas p).args ≡ many v
        → h.nodes.boxes * arena_size < fuel
        → mark ops base junk symbols (suc fuel) p h ≡ panic
    mark-panic fuel k new named size args enough =
        let there : exists h p ≡ true = ground (arith, in_arenas, in_array) in
        let few =
          total-le (λ a j. is_marked ops ((h₁.nodes.arenas a).nodes j)) h.nodes.boxes arena_size in
        mark-eq ops base junk symbols g N N fuel p h arity there new
          (ap (arity_of symbols) named ∙ ap ok size)
        ∙ ap (λ x. mark_args ops base junk symbols (mark ops base junk symbols fuel) p x arity h₁)
            args
        ∙ mark_vector-panic fuel (omega (arith, few, enough))
