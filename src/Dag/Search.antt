-- ===== src/Dag/Search.antt =====
-- `mark` of src/dag_node/node.rs ends, and marks what can be reached.
use mod2gc.Base.{
  ℕ, zero, suc, ◌<◌, ◌≡◌, ◌∙◌, refl, ap, sym, subst, inl, inr, true, false, not, ◌||◌, some,
  Outcome, ok, panic, ◌>>=◌, Returns, arith, length, ltb, leb, ◌==◌, if◌then◌else◌, Bool-cases,
  ==-refl,
}
use mod2gc.Flags.{BitFlags}
use mod2gc.Node.{NodePtr, DagNodeArgument, no_args, single, many, DagNode}
use mod2gc.Symbol.{Symbol, arity_of}
use mod2gc.Storage.{Address}
use mod2gc.Arenas.{node_at}
use mod2gc.Vector.{NodeVector, Memory, slot, shallow_copy}
use mod2gc.Vector.Owns.{nth, Owns, slot-Held, Owns-Grows}
use mod2gc.Vector.Copy.{shallow_copy-Made}
use mod2gc.Dag.{
  Heap, exists, put_args, visit_slots, copy_vector, mark_vector, mark_args, put_mark, mark,
}
use mod2gc.Dag.Graph.{Graph, Edge, Reach, step, Shape, IsGraph, marked_in, unmarked, Progress-refl}
use mod2gc.Dag.Mark.{Visits, Marked, visit_child-Visited, visit_slots-Marked}
use mod2gc.Dag.Visit.{Rewritten, h₁, self₁, marked₁, unmarked₁, IsGraph₁, visit-Visited}
use mod2gc.Dag.Rewrite.{Rewritten-refl, Rewritten-copy}

module _ (ops : BitFlags) (base : ℕ → ℕ) (junk : ℕ → ℕ → DagNode) (symbols : ℕ → Symbol) (g : Graph)
    (R : NodePtr → Type 0) (N : NodePtr → Type 0) where
  -- All children of `p` are visited, and then its arguments are written.
  abbrev Ends : Heap → NodePtr → (arity : ℕ) → Heap → Type 0
  Ends h p arity h' =
      (t : Heap) × Marked ops base junk symbols g R N h (g p) 0 t × Rewritten symbols g t p arity h'

  module _ (visit : NodePtr → Heap → Outcome Heap) (fuel : ℕ)
      (visits : Visits ops base junk symbols g R N visit fuel) (h : Heap) (p : NodePtr) (arity : ℕ)
      (reach : (j : ℕ) (q : NodePtr) → j < length (g p) → nth (g p) j ≡ some q → N q × Reach g R q)
      (graph : IsGraph symbols g N h) (few : unmarked ops h < fuel)
      (m : marked_in ops h p ≡ true) where
    copy_by : Heap → Address → NodeVector → Outcome Heap
    copy_by t v d =
        if not (d.capacity == arity) || ltb d.capacity d.length
        then panic
        else (shallow_copy base v t.memory >>= λ (w, m).
            ok (put_args (record t { memory = m }) p (many w)))

    copy_vector-eq :
        (t : Heap) (v w : Address) (m : Memory) (o : Owns t.memory v (g p) arity)
        → shallow_copy base v t.memory ≡ ok (w, m)
        → copy_vector ops base junk symbols visit p v arity t
          ≡ ok (put_args (record t { memory = m }) p (many w))
    unfolding copy_by
    copy_vector-eq t v w m o e =
        ap (copy_by t v) o.header
        ∙ (let exact : (arity == arity) ≡ true = ==-refl arity in
            let room : ltb arity (length (g p)) ≡ false = ground (arith, o.fits) in
            rw (exact, room, e) refl)

    mark_by : Address → NodeVector → Outcome Heap
    mark_by v d =
        if leb d.length d.slice.len
        then visit_slots ops base junk symbols visit d.slice.ptr 0 d.length h
          >>= copy_vector ops base junk symbols visit p v arity
        else panic

    mark_vector-eq :
        (v : Address) (t : Heap) (o : Owns h.memory v (g p) arity)
        → visit_slots ops base junk symbols visit o.ptr 0 (length (g p)) h ≡ ok t
        → mark_vector ops base junk symbols visit p v arity h
          ≡ copy_vector ops base junk symbols visit p v arity t
    unfolding mark_by mark_vector
    mark_vector-eq v t o e =
        ap (mark_by v) o.header
        ∙ (let inside : leb (length (g p)) arity ≡ true = ground (arith, o.fits) in
            rw (inside, e) refl)

    mark_vector-Ends :
        (v : Address)
        → Owns h.memory v (g p) arity
        → (node_at h.nodes.arenas p).args ≡ many v
        → Returns (Ends h p arity) (mark_vector ops base junk symbols visit p v arity h)
    mark_vector-Ends v o e =
        let (t, f, a) =
          visit_slots-Marked ops base junk symbols g R N visit fuel visits o.ptr (g p) 0
            (length (g p)) h (omega arith)
            (λ m' gr j lt.
              gr.slots (slot o.ptr j)
                (slot-Held h.memory.storage o.ptr arity j o.held_slots (omega (arith, o.fits)))
              ∙ o.items j lt)
            reach graph few in
        let o' = Owns-Grows h.memory t.memory v (g p) arity a.progress.grows o in
        let (c, k, made) = shallow_copy-Made base t.memory a.graph.sound v (g p) arity o' in
        (
          put_args (record t { memory = c.1 }) p (many c.0),
          mark_vector-eq v t o f ∙ copy_vector-eq t v c.0 c.1 o' k,
          (t, a, Rewritten-copy ops base junk symbols g R N t p arity c made),
        )

    mark_args-Ends :
        (args : DagNodeArgument)
        → Shape h.memory arity args (g p)
        → (node_at h.nodes.arenas p).args ≡ args
        → Returns (Ends h p arity) (mark_args ops base junk symbols visit p args arity h)
    mark_args-Ends no_args shape e =
        let a : Marked ops base junk symbols g R N h (g p) 0 h = record {
          progress = Progress-refl ops g R h graph.sound;
          graph = graph;
          marks = λ j q le lt e'.
              absurd (let none_left = ap length shape in omega (arith, lt, none_left));
        } in
        (
          h,
          refl,
          (h, a, Rewritten-refl ops base junk symbols g R N h h p no_args arity m e shape tt a),
        )
    mark_args-Ends (single x) shape e =
        let (t, f, a) =
          visit_child-Visited ops base junk symbols g R N visit fuel visits x h
            (λ q eq.
              reach 0 q (let one = ap length shape in omega (arith, one))
                (ap (λ cs. nth cs 0) shape ∙ eq))
            graph few in
        let b = subst (λ cs. Marked ops base junk symbols g R N h cs 0 t) (sym shape) a in
        (
          t,
          f,
          (t, b, Rewritten-refl ops base junk symbols g R N h t p (single x) arity m e shape tt b),
        )
    mark_args-Ends (many v) shape e = mark_vector-Ends v shape e

  -- The visit of a node with no mark.
  pub mark-eq :
      (fuel : ℕ) (p : NodePtr) (h : Heap) (arity : ℕ)
      → exists h p ≡ true
      → marked_in ops h p ≡ false
      → arity_of symbols (node_at h.nodes.arenas p).symbol ≡ ok arity
      → mark ops base junk symbols (suc fuel) p h
        ≡ mark_args ops base junk symbols
            (mark ops base junk symbols fuel)
            p
            (node_at h.nodes.arenas p).args
            arity
            (put_mark ops base junk symbols h p (node_at h.nodes.arenas p))
  unfolding mark
  mark-eq fuel p h arity there new e =
      rw (there, new)
        (ap
          (λ x. x >>= λ arity.
            mark_args ops base junk symbols (mark ops base junk symbols fuel) p
              (node_at h.nodes.arenas p).args arity
              (put_mark ops base junk symbols h p (node_at h.nodes.arenas p)))
          e)

  module _ (closed : (p q : NodePtr) → N p → Edge g p q → N q) where
    -- With more fuel than there are unmarked nodes a visit returns.
    pub mark-Visited :
        (fuel : ℕ) → Visits ops base junk symbols g R N (mark ops base junk symbols fuel) fuel
    unfolding mark
    mark-Visited zero p h n path graph few = absurd (omega arith)
    mark-Visited (suc fuel) p h n path graph few =
        let s = graph.shows p n in
        let there : exists h p ≡ true =
          (let a = s.in_arenas in let b = s.in_array in ground (arith, a, b)) in
        elim (Bool-cases (marked_in ops h p)) [
          | inl before ↦ (
            h,
            rw (there, before) refl,
            record {
              progress = Progress-refl ops g R h graph.sound;
              graph = graph;
              marks = before;
            },
          )
          | inr new ↦
              let t = h₁ ops base junk symbols g R N h p new s in
              let self = self₁ ops base junk symbols g R N h p new s in
              let visits = mark-Visited fuel in
              let (u, e, (v, a, w)) =
                mark_args-Ends (mark ops base junk symbols fuel) fuel visits t p
                  (symbols s.symbol).arity
                  (λ j q lt eq. (closed p q n (j, lt, eq), step path (j, lt, eq)))
                  (IsGraph₁ ops base junk symbols g R N h p new s graph)
                  (let one = unmarked₁ ops base junk symbols g R N h p new s in
                    omega (arith, few, one))
                  (marked₁ ops base junk symbols g R N h p new s) (node_at h.nodes.arenas p).args
                  s.shape (ap (λ (d : DagNode). d.args) self) in
              (
                u,
                mark-eq fuel p h (symbols s.symbol).arity there new (ap (arity_of symbols) s.named)
                    ∙ e,
                visit-Visited ops base junk symbols g R N h p new s v u a w path,
              )
        ]
