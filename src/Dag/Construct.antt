-- ===== src/Dag/Construct.antt =====
-- `with_args` of src/dag_node/node.rs, which makes a node with its children.
use mod2gc.Base.{
  ℕ, ◌+◌, ◌^◌, ◌<◌, ◌≡◌, ◌∙◌, refl, ap, sym, subst, inl, inr, true, false, some, List, [], ◌∷◌,
  Outcome, ok, panic, ◌>>=◌, Returns, arith, length, max, ltb, ◌==◌, if◌then◌else◌, Bool-cases,
}
use mod2gc.Flags.{BitFlags, marked}
use mod2gc.Node.{
  NodePtr, DagNodePtr, DagNodeKind, DagNodeArgument, no_args, single, many, DagNode, is_marked,
}
use mod2gc.Symbol.{Symbol, arity_of}
use mod2gc.Storage.History.{Sound}
use mod2gc.Arenas.{NodeAllocator, node_at, set_node}
use mod2gc.Arenas.Invariant.{Place-same, marked_at, Kept}
use mod2gc.Arenas.Allocate.{allocate_dag_node}
use mod2gc.Arenas.Allocate.Extend.{NoMarks}
use mod2gc.Arenas.Allocate.Safety.{Started, allocate_dag_node-Given}
use mod2gc.Vector.{NodeVector, Memory, iter}
use mod2gc.Vector.Owns.{Grows}
use mod2gc.Vector.Change.{iter_lem}
use mod2gc.Dag.{Heap, put_node, make_args, with_args, iter_children, len}
use mod2gc.Dag.Graph.{Shape, marked_in}
use mod2gc.Dag.Mark.{same_place, same_place-eq, node_at_self, node_at-other, links-set_node}
use mod2gc.Dag.Make.{Wide, make_args-Shape}

module _ (ops : BitFlags) where
  module _ (s : NodeAllocator) (p : NodePtr) (d : DagNode) (dead : is_marked ops d ≡ false) where
    abbrev put : NodeAllocator
    put = record s { arenas = set_node s.arenas p d }

    no_mark_put : (a j : ℕ) → marked_at ops s a j ≡ false → marked_at ops put a j ≡ false
    no_mark_put a j m =
        let q : NodePtr = record { arena = a; index = j } in
        elim (Bool-cases (same_place q p)) [
          | inl here ↦
              ap (is_marked ops) (
                subst (λ q. node_at (set_node s.arenas p d) q ≡ d) (sym (same_place-eq q p here))
                  (node_at_self s.arenas p d))
              ∙ dead
          | inr other ↦ ap (is_marked ops) (node_at-other s.arenas p q d other) ∙ m
        ]

    mark_before_put : (a j : ℕ) → marked_at ops put a j ≡ true → marked_at ops s a j ≡ true
    mark_before_put a j m = elim (Bool-cases (marked_at ops s a j)) [
      | inl yes' ↦ yes'
      | inr no' ↦ (let e = no_mark_put a j no' in cc (e, m))
    ]

    -- A node with no mark can be written anywhere.
    pub Started-put : (c i : ℕ) → Started ops s c i → Started ops put c i
    Started-put c i st = record {
      end = st.end;
      linked = record {
        first = st.linked.first;
        last = st.linked.last;
        links = λ a h. links-set_node s.arenas p d a ∙ st.linked.links a h;
        ends = λ a h. links-set_node s.arenas p d a ∙ st.linked.ends a h;
        count = st.linked.count;
      };
      place = Place-same s put c st.end refl refl refl st.place;
      next = st.next;
      order = st.order;
      marks = record {
        behind_arenas = λ a j lt h. no_mark_put a j (st.marks.behind_arenas a j lt h);
        behind_nodes = λ j h. no_mark_put c j (st.marks.behind_nodes j h);
        past = λ q a j lt h. no_mark_put a j (st.marks.past q a j lt h);
        active = λ q.
            let w = st.marks.active q in
            record {
              a = w.a;
              j = w.j;
              arena = w.arena;
              node = w.node;
              ahead = w.ahead;
              exists = w.exists;
              in_array = w.in_array;
              bound = λ b k lt h y. w.bound b k lt h (mark_before_put b k y);
            };
      };
    }

module _ (ops : BitFlags) (base : ℕ → ℕ) (junk : ℕ → ℕ → DagNode) (symbols : ℕ → Symbol) where
  -- The children by the arguments.
  children_by : Heap → ℕ → DagNodeArgument → Outcome (List DagNodePtr)
  children_by h arity args = elim args [
    | no_args ↦ if arity == 0 then ok [] else panic
    | single q ↦ if arity == 1 then ok (q ∷ []) else panic
    | many v ↦ if ltb 1 arity then iter h.memory v else panic
  ]

  children_by_lem :
      (h : Heap) (arity : ℕ) (args : DagNodeArgument) (cs : List DagNodePtr)
      → arity ≡ length cs
      → Shape h.memory arity args cs
      → Wide arity args
      → children_by h arity args ≡ ok cs
  unfolding children_by
  children_by_lem h arity no_args cs size shape wide =
      let none_left : (arity == 0) ≡ true = (let e = ap length shape in ground (arith, size, e)) in
      rw none_left (ap ok (sym shape))
  children_by_lem h arity (single q) cs size shape wide =
      let one : (arity == 1) ≡ true = (let e = ap length shape in ground (arith, size, e)) in
      rw one (ap ok (sym shape))
  children_by_lem h arity (many v) cs size shape wide =
      let more : ltb 1 arity ≡ true = ground (arith, wide) in
      rw more (iter_lem h.memory v cs arity shape)

  -- The children of a node are read back, if its symbol has as many arguments.
  pub iter_children_lem :
      (h : Heap) (d : DagNode) (k : ℕ) (cs : List DagNodePtr)
      → d.symbol ≡ some k
      → (symbols k).arity ≡ length cs
      → Shape h.memory (symbols k).arity d.args cs
      → Wide (symbols k).arity d.args
      → iter_children ops base junk symbols h d ≡ ok cs
  unfolding iter_children children_by
  iter_children_lem h d k cs e size shape wide =
      ap (λ x. arity_of symbols x >>= λ arity. children_by h arity d.args) e
      ∙ children_by_lem h (symbols k).arity d.args cs size shape wide

  children_by-same :
      (h h' : Heap) (cap : ℕ) (args : DagNodeArgument) (cs : List DagNodePtr) (arity : ℕ)
      → Shape h.memory cap args cs
      → Shape h'.memory cap args cs
      → children_by h' arity args ≡ children_by h arity args
  unfolding children_by
  children_by-same h h' cap no_args cs arity o o' = refl
  children_by-same h h' cap (single q) cs arity o o' = refl
  children_by-same h h' cap (many v) cs arity o o' =
      ap (λ m. if ltb 1 arity then m else panic)
        (iter_lem h'.memory v cs cap o' ∙ sym (iter_lem h.memory v cs cap o))

  -- Where the arguments of a node lead to the same children, these are read.
  pub iter_children-same :
      (h h' : Heap) (d : DagNode) (cap : ℕ) (cs : List DagNodePtr)
      → Shape h.memory cap d.args cs
      → Shape h'.memory cap d.args cs
      → iter_children ops base junk symbols h' d ≡ iter_children ops base junk symbols h d
  unfolding iter_children children_by
  iter_children-same h h' d cap cs o o' =
      let same : ◌≡◌ {A = ℕ → Outcome (List DagNodePtr)} (λ arity. children_by h' arity d.args)
          (λ arity. children_by h arity d.args) =
        λ i arity. children_by-same h h' cap d.args cs arity o o' i in
      ap (λ f. arity_of symbols d.symbol >>= f) same

  pub len_lem :
      (h : Heap) (d : DagNode) (n : ℕ) (cs : List DagNodePtr)
      → Shape h.memory n d.args cs
      → len ops base junk symbols h d ≡ length cs
  unfolding len
  len_lem h d n cs shape = len_by d.args shape
    where
      len_by :
          (args : DagNodeArgument)
          → Shape h.memory n args cs
          → (elim args [ no_args ↦ 0 | single _ ↦ 1 | many v ↦ (h.memory.vectors v).length ])
            ≡ length cs
      len_by no_args shape = ap length (sym shape)
      len_by (single q) shape = ap length (sym shape)
      len_by (many v) shape = ap (λ (h : NodeVector). h.length) shape.header

  -- A new node of a heap, with its children.
  pub record Built (h : Heap) (k : ℕ) (cs : List DagNodePtr) (kind : DagNodeKind)
      (r : NodePtr × Heap) : Type 0 where
    pub args : DagNodeArgument
    pub written :
        node_at r.1.nodes.arenas r.0
        ≡ record { symbol = some k; args = args; kind = kind; flags = ops.empty }
    pub children : iter_children ops base junk symbols r.1 (node_at r.1.nodes.arenas r.0) ≡ ok cs
    pub count : len ops base junk symbols r.1 (node_at r.1.nodes.arenas r.0) ≡ length cs
    pub started : Started ops r.1.nodes r.0.arena (r.0.index + 1)
    pub memory : Grows h.memory r.1.memory
    pub free : r.0.arena < h.nodes.boxes → marked_in ops h r.0 ≡ false
    pub others :
        (q : NodePtr)
        → q.arena < h.nodes.boxes
        → same_place q r.0 ≡ false
        → Kept ops (node_at h.nodes.arenas q) (node_at r.1.nodes.arenas q)

  module _ (clean : NoMarks ops junk) (h : Heap) (c i k : ℕ) (cs : List DagNodePtr)
      (kind : DagNodeKind) where
    with_args-eq :
        (r : NodePtr × NodeAllocator) (a : DagNodeArgument × Memory)
        → allocate_dag_node ops junk h.nodes ≡ ok r
        → make_args ops base junk symbols (symbols k).arity cs h.memory ≡ ok a
        → with_args ops base junk symbols (some k) cs kind h
          ≡ ok (
            r.0,
            put_node
                (record { nodes = r.1; memory = a.1 })
                r.0
                (record { symbol = some k; args = a.0; kind = kind; flags = ops.empty }),
          )
    unfolding with_args
    with_args-eq r a e f = rw (e, f) refl

    -- From an allocator that satisfies its invariant with the cursor in an arena, valid lists of
    -- buckets, and no mark in the memory of new arenas, `with_args` with as many arguments as the
    -- symbol's arity (fewer than 2 ^ 57) returns a node of that symbol and kind with no flag;
    -- `iter_children` reads back just the arguments, `len` is their number, the node had no mark
    -- if its arena is an old one, other nodes lose no more than flags, blocks held before keep
    -- what they hold, and the allocator's invariant holds behind the node.
    pub with_args-Built :
        Started ops h.nodes c i
        → Sound h.memory.storage
        → (symbols k).arity ≡ length cs
        → length cs < 2 ^ 57
        → Returns (Built h k cs kind) (with_args ops base junk symbols (some k) cs kind h)
    with_args-Built st sound size small =
        let (r, e, w) = allocate_dag_node-Given ops junk clean h.nodes c i st in
        let (a, f, (grows, shape, wide)) =
          make_args-Shape ops base junk symbols (symbols k).arity cs h.memory sound
            (omega (arith, size)) small in
        let d : DagNode = record { symbol = some k; args = a.0; kind = kind; flags = ops.empty } in
        let t : Heap = record { nodes = r.1; memory = a.1 } in
        let t' : Heap = put_node t r.0 d in
        let room : max (symbols k).arity (length cs) ≡ (symbols k).arity = omega (arith, size) in
        let at : node_at t'.nodes.arenas r.0 ≡ d = node_at_self r.1.arenas r.0 d in
        (
          (r.0, t'),
          with_args-eq r a e f,
          record {
            args = a.0;
            written = at;
            children =
                ap (iter_children ops base junk symbols t') at
                ∙ iter_children_lem t' d k cs refl size (rw room at shape) (rw room at wide);
            count =
                ap (len ops base junk symbols t') at
                ∙ len_lem t' d (max (symbols k).arity (length cs)) cs shape;
            started =
                Started-put ops r.1 r.0 d (ops.contains-empty marked) r.0.arena (r.0.index + 1)
                  w.started;
            memory = grows;
            free = w.free;
            others = λ q lt other.
                subst (λ (x : DagNode). Kept ops (node_at h.nodes.arenas q) x)
                  (sym (node_at-other r.1.arenas r.0 q d other)) (w.kept q.arena q.index lt);
          },
        )
