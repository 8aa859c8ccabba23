-- ===== src/Dag/Fresh.antt =====
-- `new` and `with_kind` of src/dag_node/node.rs, which make a node without children.
use mod2gc.Base.{
  ℕ, ◌+◌, ◌^◌, ◌<◌, ◌≤◌, ◌⊎◌, arith, ◌≡◌, ◌∙◌, refl, ap, sym, subst, inl, inr, false, some, [],
  Outcome, ok, ◌>>=◌, Returns, ltb, if◌then◌else◌, Bool-cases,
}
use mod2gc.Flags.{BitFlags, marked}
use mod2gc.Node.{NodePtr, DagNodeKind, DagNodeArgument, no_args, many, DagNode}
use mod2gc.Symbol.{Symbol}
use mod2gc.Storage.History.{Sound}
use mod2gc.Arenas.{arena_size, NodeAllocator, node_at}
use mod2gc.Arenas.Invariant.{Kept}
use mod2gc.Arenas.Allocate.{allocate_dag_node}
use mod2gc.Arenas.Allocate.Extend.{NoMarks}
use mod2gc.Arenas.Allocate.Safety.{Started, allocate_dag_node-Given}
use mod2gc.Vector.{Memory}
use mod2gc.Vector.Owns.{Grows}
use mod2gc.Dag.{Heap, put_node, len}
use mod2gc.Dag.Graph.{Shape, marked_in}
use mod2gc.Dag.Mark.{same_place, node_at_self, node_at-other}
use mod2gc.Vector.{with_capacity}
use mod2gc.Vector.Make.{with_capacity-Made}
use mod2gc.Dag.{with_kind}
use mod2gc.Dag.Frame.{Beside, Suits, Away}
use mod2gc.Dag.Construct.{Started-put, len_lem}

module _ (ops : BitFlags) (base : ℕ → ℕ) (junk : ℕ → ℕ → DagNode) (symbols : ℕ → Symbol) where
  -- A new node of a heap; what vector it has takes as many children as the symbol has arguments.
  pub record Fresh (h : Heap) (c i k : ℕ) (kind : DagNodeKind) (r : NodePtr × Heap) : Type 0 where
    pub args : DagNodeArgument
    pub written :
        node_at r.1.nodes.arenas r.0
        ≡ record { symbol = some k; args = args; kind = kind; flags = ops.empty }
    pub shape : Shape r.1.memory (symbols k).arity (node_at r.1.nodes.arenas r.0).args []
    pub suits : Suits (symbols k).arity (node_at r.1.nodes.arenas r.0).args
    pub away : Away h.memory r.1.memory (node_at r.1.nodes.arenas r.0).args
    pub count : len ops base junk symbols r.1 (node_at r.1.nodes.arenas r.0) ≡ 0
    pub started : Started ops r.1.nodes r.0.arena (r.0.index + 1)
    pub ahead : (c < r.0.arena) ⊎ ((r.0.arena ≡ c) × (i ≤ r.0.index))
    pub in_array : r.0.index < arena_size
    pub exists : r.0.arena < r.1.nodes.boxes
    pub grown : h.nodes.boxes ≤ r.1.nodes.boxes
    pub memory : Grows h.memory r.1.memory
    pub free : r.0.arena < h.nodes.boxes → marked_in ops h r.0 ≡ false
    pub others :
        (q : NodePtr)
        → q.arena < h.nodes.boxes
        → same_place q r.0 ≡ false
        → Kept ops (node_at h.nodes.arenas q) (node_at r.1.nodes.arenas q)

  room_for : ℕ → Memory → Outcome (DagNodeArgument × Memory)
  room_for arity m =
      if ltb 1 arity
      then (with_capacity base arity m >>= λ (v, m). ok (many v, m))
      else ok (no_args, m)

  room_for-Shape :
      (arity : ℕ) (m : Memory)
      → Sound m.storage
      → arity < 2 ^ 57
      → Returns
          (λ r. Grows m r.1 × Shape r.1 arity r.0 [] × Suits arity r.0 × Away m r.1 r.0)
          (room_for arity m)
  unfolding room_for
  room_for-Shape arity m sound small = elim (Bool-cases (ltb 1 arity)) [
    | inr few ↦ (
      (no_args, m),
      rw few refl,
      (
        record { held = λ a n k. k; vectors = λ a k. refl; slots = λ a k. refl; sound = sound },
        refl,
        ground arith,
        λ a n h. tt,
      ),
    )
    | inl more ↦
        let (r, e, d) = with_capacity-Made base m sound arity small in
        (
          (many r.0, r.1),
          rw (more, e) refl,
          (
            d.grows,
            d.owns,
            ground arith,
            λ a n h. subst (λ v. Beside v r.0 a n) (sym d.owns.header) (d.clear a n h),
          ),
        )
  ]

  module _ (clean : NoMarks ops junk) (h : Heap) (c i k : ℕ) (kind : DagNodeKind) where
    with_kind-eq :
        (r : NodePtr × NodeAllocator) (a : DagNodeArgument × Memory)
        → allocate_dag_node ops junk h.nodes ≡ ok r
        → room_for (symbols k).arity h.memory ≡ ok a
        → with_kind ops base junk symbols (some k) kind h
          ≡ ok (
            r.0,
            put_node
                (record { nodes = r.1; memory = a.1 })
                r.0
                (record { symbol = some k; args = a.0; kind = kind; flags = ops.empty }),
          )
    unfolding with_kind room_for
    with_kind-eq r a e f = rw e (
        ap
          (λ m. m >>= λ (args, m). ok (
            r.0,
            put_node (record { nodes = r.1; memory = m }) r.0
                (record { symbol = some k; args = args; kind = kind; flags = ops.empty }),
          ))
          f)

    -- From an allocator that satisfies its invariant with the cursor in an arena, valid lists of
    -- buckets, and no mark in the memory of new arenas, `with_kind` of a symbol with an arity
    -- below 2 ^ 57 returns a node of that symbol and kind with no flag and no children, in whose
    -- vector, if it has one, there is room for as many as the arity; the node had no mark if its
    -- arena is an old one, other nodes lose no more than flags, blocks held before keep what they
    -- hold, and the allocator's invariant holds behind the node.
    pub with_kind-Fresh :
        Started ops h.nodes c i
        → Sound h.memory.storage
        → (symbols k).arity < 2 ^ 57
        → Returns (Fresh h c i k kind) (with_kind ops base junk symbols (some k) kind h)
    with_kind-Fresh st sound small =
        let (r, e, w) = allocate_dag_node-Given ops junk clean h.nodes c i st in
        let (a, f, (grows, shape, suits, away)) =
          room_for-Shape (symbols k).arity h.memory sound small in
        let d : DagNode = record { symbol = some k; args = a.0; kind = kind; flags = ops.empty } in
        let t' : Heap = put_node (record { nodes = r.1; memory = a.1 }) r.0 d in
        let at : node_at t'.nodes.arenas r.0 ≡ d = node_at_self r.1.arenas r.0 d in
        (
          (r.0, t'),
          with_kind-eq r a e f,
          record {
            args = a.0;
            written = at;
            shape = subst (λ (x : DagNode). Shape a.1 (symbols k).arity x.args []) (sym at) shape;
            suits = subst (λ (x : DagNode). Suits (symbols k).arity x.args) (sym at) suits;
            away = subst (λ (x : DagNode). Away h.memory a.1 x.args) (sym at) away;
            count =
                ap (len ops base junk symbols t') at
                ∙ len_lem ops base junk symbols t' d (symbols k).arity [] shape;
            started =
                Started-put ops r.1 r.0 d (ops.contains-empty marked) r.0.arena (r.0.index + 1)
                  w.started;
            ahead = w.ahead;
            in_array = w.in_array;
            exists = w.exists;
            grown = w.grown;
            memory = grows;
            free = w.free;
            others = λ q lt other.
                subst (λ (x : DagNode). Kept ops (node_at h.nodes.arenas q) x)
                  (sym (node_at-other r.1.arenas r.0 q d other)) (w.kept q.arena q.index lt);
          },
        )
