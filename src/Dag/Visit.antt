-- ===== src/Dag/Visit.antt =====
-- The visit of one node with no mark by `mark` of src/dag_node/node.rs, put together from the visits
-- of its children.
use mod2gc.Base.{ℕ, ◌+◌, ◌≡◌, ◌∙◌, refl, ap, sym, subst, inl, inr, true, false, arith, Bool-cases}
use mod2gc.Flags.{BitFlags, marked}
use mod2gc.Node.{NodePtr, DagNode, is_marked}
use mod2gc.Symbol.{Symbol}
use mod2gc.Arenas.{arena_size, NodeAllocator, node_at}
use mod2gc.Vector.Owns.{Grows, Grows-trans}
use mod2gc.Dag.{Heap, put_mark}
use mod2gc.Dag.Count.{total, total-flip, total-same}
use mod2gc.Dag.Graph.{
  Graph, Edge, Reach, Shape, IsNew, IsNew-Grows, Shows, IsGraph, Shows-same, marked_in, unmarked,
}
use mod2gc.Dag.Mark.{
  same_place, same_place-eq, node_at_self, node_at-other, links-set_node, Visited, Marked,
}

module _ (symbols : ℕ → Symbol) (g : Graph) where
  -- Only the arguments of the node `p` are written, and they are its children still.
  pub record Rewritten (h : Heap) (p : NodePtr) (arity : ℕ) (h' : Heap) : Type 0 where
    pub grows : Grows h.memory h'.memory
    pub fields : h'.nodes ≡ record h.nodes { arenas = h'.nodes.arenas }
    pub links : (a : ℕ) → (h'.nodes.arenas a).next_arena ≡ (h.nodes.arenas a).next_arena
    pub others :
        (q : NodePtr)
        → same_place q p ≡ false
        → node_at h'.nodes.arenas q ≡ node_at h.nodes.arenas q
    pub symbol : (node_at h'.nodes.arenas p).symbol ≡ (node_at h.nodes.arenas p).symbol
    pub kind : (node_at h'.nodes.arenas p).kind ≡ (node_at h.nodes.arenas p).kind
    pub flags : (node_at h'.nodes.arenas p).flags ≡ (node_at h.nodes.arenas p).flags
    pub shape : Shape h'.memory arity (node_at h'.nodes.arenas p).args (g p)
    pub new : IsNew h.memory h'.memory (node_at h'.nodes.arenas p).args

module _ (ops : BitFlags) (base : ℕ → ℕ) (junk : ℕ → ℕ → DagNode) (symbols : ℕ → Symbol) (g : Graph)
    (R : NodePtr → Type 0) (N : NodePtr → Type 0) (h : Heap) (p : NodePtr)
    (unmarked_p : marked_in ops h p ≡ false) (show : Shows symbols g h p) where
  abbrev pub node₀ : DagNode
  node₀ = node_at h.nodes.arenas p

  -- The heap when the mark is put.
  abbrev pub h₁ : Heap
  h₁ = put_mark ops base junk symbols h p node₀

  pub self₁ : node_at h₁.nodes.arenas p ≡ record node₀ { flags = ops.insert node₀.flags marked }
  self₁ = node_at_self h.nodes.arenas p (record node₀ { flags = ops.insert node₀.flags marked })

  other₁ :
      (q : NodePtr) → same_place q p ≡ false → node_at h₁.nodes.arenas q ≡ node_at h.nodes.arenas q
  other₁ q e =
      node_at-other h.nodes.arenas p q (record node₀ { flags = ops.insert node₀.flags marked }) e

  pub marked₁ : marked_in ops h₁ p ≡ true
  marked₁ = ap (is_marked ops) self₁ ∙ ops.contains-insert_self node₀.flags marked

  pub unmarked₁ : unmarked ops h ≡ unmarked ops h₁ + 1
  unmarked₁ =
      total-flip (λ a j. is_marked ops ((h.nodes.arenas a).nodes j))
        (λ a j. is_marked ops ((h₁.nodes.arenas a).nodes j)) h.nodes.boxes arena_size p.arena
        p.index show.in_arenas show.in_array unmarked_p marked₁
        (λ a j e. ap (is_marked ops) (other₁ (record { arena = a; index = j }) (ground (arith, e))))
        (λ j e.
          ap (is_marked ops) (other₁ (record { arena = p.arena; index = j }) (ground (arith, e))))

  -- The graph is still there when the mark is put.
  pub IsGraph₁ : IsGraph symbols g N h → IsGraph symbols g N h₁
  IsGraph₁ graph = record {
    sound = graph.sound;
    shows = λ q n.
        let s = graph.shows q n in
        elim (Bool-cases (same_place q p)) [
          | inr other ↦
              Shows-same symbols g h h₁ q refl (other₁ q other)
                (record {
                  held = λ a n k. k;
                  vectors = λ a k. refl;
                  slots = λ a k. refl;
                  sound = graph.sound;
                })
                s
          | inl same ↦
              let eq = same_place-eq q p same in
              subst (λ q. Shows symbols g h₁ q) (sym eq)
                (record {
                  in_arenas = show.in_arenas;
                  in_array = show.in_array;
                  symbol = show.symbol;
                  named = ap (λ (d : DagNode). d.symbol) self₁ ∙ show.named;
                  shape = rw self₁ show.shape;
                })
        ];
  }

  module _ (h₂ h₃ : Heap) (a : Marked ops base junk symbols g R N h₁ (g p) 0 h₂)
      (w : Rewritten symbols g h₂ p (symbols show.symbol).arity h₃) where
    symbol₃ : (q : NodePtr) → (node_at h₃.nodes.arenas q).symbol ≡ (node_at h.nodes.arenas q).symbol
    symbol₃ q = elim (Bool-cases (same_place q p)) [
      | inl at ↦
          rw (same_place-eq q p at)
            (w.symbol ∙ a.progress.symbols p ∙ ap (λ (d : DagNode). d.symbol) self₁)
      | inr other ↦
          ap (λ (d : DagNode). d.symbol) (w.others q other)
          ∙ a.progress.symbols q
          ∙ ap (λ (d : DagNode). d.symbol) (other₁ q other)
    ]

    kind₃ : (q : NodePtr) → (node_at h₃.nodes.arenas q).kind ≡ (node_at h.nodes.arenas q).kind
    kind₃ q = elim (Bool-cases (same_place q p)) [
      | inl at ↦
          rw (same_place-eq q p at)
            (w.kind ∙ a.progress.kinds p ∙ ap (λ (d : DagNode). d.kind) self₁)
      | inr other ↦
          ap (λ (d : DagNode). d.kind) (w.others q other)
          ∙ a.progress.kinds q
          ∙ ap (λ (d : DagNode). d.kind) (other₁ q other)
    ]

    marked₃ : (q : NodePtr) → marked_in ops h₃ q ≡ marked_in ops h₂ q
    marked₃ q = elim (Bool-cases (same_place q p)) [
      | inl at ↦ rw (same_place-eq q p at) (ap (λ f. ops.contains f marked) w.flags)
      | inr other ↦ ap (is_marked ops) (w.others q other)
    ]

    marked-other₁ : (q : NodePtr) → same_place q p ≡ false → marked_in ops h₁ q ≡ marked_in ops h q
    marked-other₁ q e = ap (is_marked ops) (other₁ q e)

    self₃ : marked_in ops h₃ p ≡ true
    self₃ = marked₃ p ∙ a.progress.keeps p marked₁

    boxes₂ : h₂.nodes.boxes ≡ h.nodes.boxes
    boxes₂ = ap (λ (s : NodeAllocator). s.boxes) a.progress.fields

    boxes₃ : h₃.nodes.boxes ≡ h₂.nodes.boxes
    boxes₃ = ap (λ (s : NodeAllocator). s.boxes) w.fields

    unmarked₃ : unmarked ops h₂ ≡ unmarked ops h₃
    unmarked₃ =
        total-same (λ a j. is_marked ops ((h₂.nodes.arenas a).nodes j))
          (λ a j. is_marked ops ((h₃.nodes.arenas a).nodes j)) h₂.nodes.boxes arena_size
          (λ a j lt lt'. marked₃ (record { arena = a; index = j }))
        ∙ ap (λ b. total (λ a j. is_marked ops ((h₃.nodes.arenas a).nodes j)) b arena_size)
            (sym boxes₃)

    shown₃ : Shows symbols g h₃ p
    shown₃ = record {
      in_arenas = rw (boxes₃ ∙ boxes₂) show.in_arenas;
      in_array = show.in_array;
      symbol = show.symbol;
      named = symbol₃ p ∙ show.named;
      shape = w.shape;
    }

    IsGraph₃ : IsGraph symbols g N h₃
    IsGraph₃ = record {
      sound = w.grows.sound;
      shows = λ q n. elim (Bool-cases (same_place q p)) [
        | inr other ↦
            Shows-same symbols g h₂ h₃ q boxes₃ (w.others q other) w.grows (a.graph.shows q n)
        | inl same ↦ subst (λ q. Shows symbols g h₃ q) (sym (same_place-eq q p same)) shown₃
      ];
    }

    same₃ :
        (q : NodePtr)
        → marked_in ops h₃ q ≡ marked_in ops h q
        → node_at h₃.nodes.arenas q ≡ node_at h.nodes.arenas q
    same₃ q e = elim (Bool-cases (same_place q p)) [
      | inl at ↦
          let here = same_place-eq q p at in
          let e' : marked_in ops h₃ p ≡ marked_in ops h p =
            subst (λ q. marked_in ops h₃ q ≡ marked_in ops h q) here e in
          cc (e', self₃, unmarked_p)
      | inr other ↦
          w.others q other
          ∙ a.progress.same q (sym (marked₃ q) ∙ e ∙ sym (marked-other₁ q other))
          ∙ other₁ q other
    ]

    reached₃ :
        Reach g R p
        → (q : NodePtr) → marked_in ops h q ≡ false
        → marked_in ops h₃ q ≡ true
        → Reach g R q
    reached₃ path q e m = elim (Bool-cases (same_place q p)) [
      | inl at ↦ subst (Reach g R) (sym (same_place-eq q p at)) path
      | inr other ↦ a.progress.reached q (marked-other₁ q other ∙ e) (sym (marked₃ q) ∙ m)
    ]

    closed₃ :
        (x y : NodePtr)
        → marked_in ops h x ≡ false
        → marked_in ops h₃ x ≡ true
        → Edge g x y
        → marked_in ops h₃ y ≡ true
    closed₃ x y e m edge = elim (Bool-cases (same_place x p)) [
      | inl at ↦
          let (j, lt, eq) = subst (λ x. Edge g x y) (same_place-eq x p at) edge in
          marked₃ y ∙ a.marks j y (omega arith) lt eq
      | inr other ↦
          marked₃ y ∙ a.progress.closed x y (marked-other₁ x other ∙ e) (sym (marked₃ x) ∙ m) edge
    ]

    moved₃ :
        (q : NodePtr)
        → marked_in ops h q ≡ false
        → marked_in ops h₃ q ≡ true
        → IsNew h.memory h₃.memory (node_at h₃.nodes.arenas q).args
    moved₃ q e m = elim (Bool-cases (same_place q p)) [
      | inl at ↦ rw (same_place-eq q p at) (
          IsNew-Grows h.memory h₂.memory h₃.memory h₃.memory (node_at h₃.nodes.arenas p).args
            a.progress.grows.held
            (record {
              held = λ a n k. k;
              vectors = λ a k. refl;
              slots = λ a k. refl;
              sound = w.grows.sound;
            })
            w.new)
      | inr other ↦
          let old = a.progress.moved q (marked-other₁ q other ∙ e) (sym (marked₃ q) ∙ m) in
          subst (λ (d : DagNode). IsNew h.memory h₃.memory d.args) (sym (w.others q other))
            (IsNew-Grows h.memory h.memory h₂.memory h₃.memory (node_at h₂.nodes.arenas q).args
              (λ a n k. k) w.grows old)
    ]

    -- The visit of a node, from those of its children and the new arguments.
    pub visit-Visited : Reach g R p → Visited ops base junk symbols g R N h p h₃
    visit-Visited path = record {
      progress = record {
        grows = Grows-trans h.memory h₂.memory h₃.memory a.progress.grows w.grows;
        fields =
            w.fields
            ∙ ap (λ (s : NodeAllocator). record s { arenas = h₃.nodes.arenas }) a.progress.fields
            ∙ ap (λ n. record h.nodes { arenas = h₃.nodes.arenas; active_node_count = n })
                (sym (ap (λ (s : NodeAllocator). s.active_node_count) w.fields));
        links = λ k.
            w.links k
            ∙ a.progress.links k
            ∙ links-set_node h.nodes.arenas p
                (record node₀ { flags = ops.insert node₀.flags marked }) k;
        keeps = λ q m. elim (Bool-cases (same_place q p)) [
          | inl at ↦ rw (same_place-eq q p at) self₃
          | inr other ↦ marked₃ q ∙ a.progress.keeps q (marked-other₁ q other ∙ m)
        ];
        same = same₃;
        symbols = symbol₃;
        kinds = kind₃;
        reached = reached₃ path;
        closed = closed₃;
        moved = moved₃;
        more = a.progress.more + 1;
        fewer = omega (arith, unmarked₁, unmarked₃, a.progress.fewer);
        counted =
            let same_count = ap (λ (s : NodeAllocator). s.active_node_count) w.fields in
            omega (arith, a.progress.counted, same_count);
      };
      graph = IsGraph₃;
      marks = self₃;
    }
