-- ===== src/Dag/Graph.antt =====
-- The graph that the nodes of src/dag_node/node.rs stand for, and what the mark phase does to it.
use mod2gc.Base.{
  ℕ, ◌+◌, ◌*◌, ◌%◌, ◌^◌, ◌<◌, ◌≡◌, ◌∙◌, refl, ap, sym, subst, inl, inr, Bool, true, false, some,
  List, [], ◌∷◌, arith, length, Bool-cases,
}
use mod2gc.Flags.{BitFlags}
use mod2gc.Node.{NodePtr, DagNodePtr, DagNodeArgument, no_args, single, many, DagNode, is_marked}
use mod2gc.Symbol.{Symbol}
use mod2gc.Storage.History.{Sound}
use mod2gc.Arenas.{arena_size, NodeAllocator, node_at}
use mod2gc.Storage.{Address}
use mod2gc.Storage.Invariant.{Held, Disjoint}
use mod2gc.Vector.{NodeVector, Memory, vector_size}
use mod2gc.Vector.Owns.{nth, Owns, Grows, Grows-trans, Owns-Grows}
use mod2gc.Dag.{Heap}
use mod2gc.Dag.Count.{total}

-- What only goes up, and is the same in the end, was the same all along.
squeeze : (a b c : Bool) → (a ≡ true → b ≡ true) → (b ≡ true → c ≡ true) → c ≡ a → (b ≡ a) × (c ≡ b)
squeeze true b c f k e = (f refl, e ∙ sym (f refl))
squeeze false true c f k e = cc (k refl)
squeeze false false c f k e = (refl, e)

-- The children of each node.
abbrev pub Graph : Type 0
Graph = NodePtr → List DagNodePtr

-- `q` is a child of `p`.
abbrev pub Edge : Graph → NodePtr → NodePtr → Type 0
Edge g p q = (j : ℕ) × (j < length (g p)) × (nth (g p) j ≡ some q)

-- What can be reached from the nodes `R`.
pub data Reach (g : Graph) (R : NodePtr → Type 0) : NodePtr → Type 0 where
  here : {r : NodePtr} → R r → Reach g R r
  step : {p q : NodePtr} → Reach g R p → Edge g p q → Reach g R q

-- The arguments of a node with the children `cs`; a vector has room for the arity of its symbol.
abbrev pub Shape : Memory → (arity : ℕ) → DagNodeArgument → List DagNodePtr → Type 0
Shape m arity no_args cs = cs ≡ []
Shape m arity (single q) cs = cs ≡ q ∷ []
Shape m arity (many v) cs = Owns m v cs arity

pub Shape-Grows :
    (m m' : Memory) (arity : ℕ) (args : DagNodeArgument) (cs : List DagNodePtr)
    → Grows m m'
    → Shape m arity args cs
    → Shape m' arity args cs
Shape-Grows m m' arity no_args cs g s = s
Shape-Grows m m' arity (single q) cs g s = s
Shape-Grows m m' arity (many v) cs g s = Owns-Grows m m' v cs arity g s

-- The vector of a node has been handed out in `m'`, and shares no byte with the blocks that had been in `m`.
abbrev pub IsNew : Memory → Memory → DagNodeArgument → Type 0
IsNew m m' no_args = Unit
IsNew m m' (single q) = Unit
IsNew m m' (many v) =
    Held m'.storage v vector_size
    × ((a : Address) (n : ℕ)
        → Held m.storage a n
        → Disjoint a n v vector_size
          × Disjoint a n (m'.vectors v).slice.ptr (8 * (m'.vectors v).capacity))

pub IsNew-Grows :
    (m₀ m m' m'' : Memory) (args : DagNodeArgument)
    → ((a : Address) (n : ℕ) → Held m₀.storage a n → Held m.storage a n)
    → Grows m' m''
    → IsNew m m' args
    → IsNew m₀ m'' args
IsNew-Grows m₀ m m' m'' no_args g k n = tt
IsNew-Grows m₀ m m' m'' (single q) g k n = tt
IsNew-Grows m₀ m m' m'' (many v) g k (held, apart) = (
  k.held v vector_size held,
  λ a n h.
      subst
        (λ (d : NodeVector). Disjoint a n v vector_size × Disjoint a n d.slice.ptr (8 * d.capacity))
        (sym (k.vectors v held)) (apart a n (g a n h)),
)

Grows-refl : (m : Memory) → Sound m.storage → Grows m m
Grows-refl m sound = record {
  held = λ a n k. k;
  vectors = λ a k. refl;
  slots = λ a k. refl;
  sound = sound;
}

module _ (symbols : ℕ → Symbol) (g : Graph) where
  -- The node `p` of the heap is one with the children that the graph gives it.
  pub record Shows (h : Heap) (p : NodePtr) : Type 0 where
    pub in_arenas : p.arena < h.nodes.boxes
    pub in_array : p.index < arena_size
    pub symbol : ℕ
    pub named : (node_at h.nodes.arenas p).symbol ≡ some symbol
    pub shape : Shape h.memory (symbols symbol).arity (node_at h.nodes.arenas p).args (g p)

  -- The heap shows the nodes `N` of the graph.
  pub record IsGraph (N : NodePtr → Type 0) (h : Heap) : Type 0 where
    pub sound : Sound h.memory.storage
    pub shows : (p : NodePtr) → N p → Shows h p

  pub Shows-same :
      (h h' : Heap) (p : NodePtr)
      → h'.nodes.boxes ≡ h.nodes.boxes
      → node_at h'.nodes.arenas p ≡ node_at h.nodes.arenas p
      → Grows h.memory h'.memory
      → Shows h p
      → Shows h' p
  Shows-same h h' p b e gr s = record {
    in_arenas = rw b s.in_arenas;
    in_array = s.in_array;
    symbol = s.symbol;
    named = ap (λ (d : DagNode). d.symbol) e ∙ s.named;
    shape = rw e (
        Shape-Grows h.memory h'.memory (symbols s.symbol).arity (node_at h.nodes.arenas p).args
          (g p) gr s.shape);
  }

module _ (ops : BitFlags) where
  abbrev pub marked_in : Heap → NodePtr → Bool
  marked_in h p = is_marked ops (node_at h.nodes.arenas p)

  -- The nodes of the arenas that have no mark.
  abbrev pub unmarked : Heap → ℕ
  unmarked h = total (λ a j. is_marked ops ((h.nodes.arenas a).nodes j)) h.nodes.boxes arena_size

  -- What marking from the nodes `R` does: marks are put on nodes that they reach, with all their children, and
  -- counted; nodes that get none are left alone, and so are the fields of the allocator and the blocks
  -- handed out before.
  pub record Progress (g : Graph) (R : NodePtr → Type 0) (h h' : Heap) : Type 0 where
    pub grows : Grows h.memory h'.memory
    pub fields : h'.nodes ≡ record h.nodes {
      arenas = h'.nodes.arenas;
      active_node_count = h'.nodes.active_node_count;
    }
    pub links : (a : ℕ) → (h'.nodes.arenas a).next_arena ≡ (h.nodes.arenas a).next_arena
    pub keeps : (q : NodePtr) → marked_in h q ≡ true → marked_in h' q ≡ true
    pub same :
        (q : NodePtr)
        → marked_in h' q ≡ marked_in h q
        → node_at h'.nodes.arenas q ≡ node_at h.nodes.arenas q
    pub symbols :
        (q : NodePtr) → (node_at h'.nodes.arenas q).symbol ≡ (node_at h.nodes.arenas q).symbol
    pub kinds : (q : NodePtr) → (node_at h'.nodes.arenas q).kind ≡ (node_at h.nodes.arenas q).kind
    pub reached : (q : NodePtr) → marked_in h q ≡ false → marked_in h' q ≡ true → Reach g R q
    pub closed :
        (p q : NodePtr)
        → marked_in h p ≡ false
        → marked_in h' p ≡ true
        → Edge g p q
        → marked_in h' q ≡ true
    pub moved :
        (q : NodePtr)
        → marked_in h q ≡ false
        → marked_in h' q ≡ true
        → IsNew h.memory h'.memory (node_at h'.nodes.arenas q).args
    pub more : ℕ
    pub fewer : unmarked h ≡ unmarked h' + more
    pub counted : (h.nodes.active_node_count + more) % 2 ^ 64 ≡ h'.nodes.active_node_count % 2 ^ 64

  pub Progress-refl :
      (g : Graph) (R : NodePtr → Type 0) (h : Heap) → Sound h.memory.storage → Progress g R h h
  Progress-refl g R h sound = record {
    grows = record { held = λ a n k. k; vectors = λ a k. refl; slots = λ a k. refl; sound = sound };
    fields = refl;
    links = λ a. refl;
    keeps = λ q m. m;
    same = λ q e. refl;
    symbols = λ q. refl;
    kinds = λ q. refl;
    reached = λ q e m. cc;
    closed = λ p q e m edge. cc;
    moved = λ q e m. cc;
    more = 0;
    fewer = omega arith;
    counted = omega arith;
  }

  pub Progress-trans :
      (g : Graph) (R : NodePtr → Type 0) (h h' h'' : Heap)
      → Progress g R h h'
      → Progress g R h' h''
      → Progress g R h h''
  Progress-trans g R h h' h'' p q = record {
    grows = Grows-trans h.memory h'.memory h''.memory p.grows q.grows;
    fields =
        q.fields
        ∙ ap
            (λ (s : NodeAllocator). record s {
              arenas = h''.nodes.arenas;
              active_node_count = h''.nodes.active_node_count;
            })
            p.fields;
    links = λ a. q.links a ∙ p.links a;
    keeps = λ x m. q.keeps x (p.keeps x m);
    same = λ x e.
        let (first, last) =
          squeeze (marked_in h x) (marked_in h' x) (marked_in h'' x) (p.keeps x) (q.keeps x) e in
        q.same x last ∙ p.same x first;
    symbols = λ x. q.symbols x ∙ p.symbols x;
    kinds = λ x. q.kinds x ∙ p.kinds x;
    reached = λ x e m. elim (Bool-cases (marked_in h' x)) [
      | inl yes' ↦ p.reached x e yes'
      | inr no' ↦ q.reached x no' m
    ];
    closed = λ x y e m edge. elim (Bool-cases (marked_in h' x)) [
      | inl yes' ↦ q.keeps y (p.closed x y e yes' edge)
      | inr no' ↦ q.closed x y no' m edge
    ];
    moved = λ x e m. elim (Bool-cases (marked_in h' x)) [
      | inl yes' ↦
          let same = q.same x (m ∙ sym yes') in
          subst (λ (d : DagNode). IsNew h.memory h''.memory d.args) (sym same)
            (IsNew-Grows h.memory h.memory h'.memory h''.memory (node_at h'.nodes.arenas x).args
              (λ a n k. k) q.grows (p.moved x e yes'))
      | inr no' ↦
          IsNew-Grows h.memory h'.memory h''.memory h''.memory (node_at h''.nodes.arenas x).args
            p.grows.held (Grows-refl h''.memory q.grows.sound) (q.moved x no' m)
    ];
    more = p.more + q.more;
    fewer = omega (arith, p.fewer, q.fewer);
    counted = omega (arith, p.counted, q.counted);
  }
