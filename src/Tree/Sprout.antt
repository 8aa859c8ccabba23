-- ===== src/Tree/Sprout.antt =====
-- The first half of a turn of the loop of `build_random_tree` of src/util.rs: a new node becomes a child.
use mod2gc.Base.{
  ℕ, ◌+◌, ◌^◌, ◌≤◌, ◌<◌, ◌≡◌, ◌∙◌, ap, sym, subst, ◌⊎◌, inl, inr, false, some, List, [], ◌∷◌, ◌++◌,
  ok, arith, length,
}
use mod2gc.Flags.{BitFlags}
use mod2gc.Node.{NodePtr, DagNodePtr, DagNodeArgument, DagNode, free, is_marked}
use mod2gc.Symbol.{Symbol}
use mod2gc.Storage.{Address}
use mod2gc.Storage.History.{Sound}
use mod2gc.Arenas.{arena_size, node_at}
use mod2gc.Arenas.Allocate.Extend.{NoMarks}
use mod2gc.Arenas.Allocate.Safety.{Started}
use mod2gc.Vector.{Memory}
use mod2gc.Dag.{Heap, new, insert_child}
use mod2gc.Dag.Graph.{Shape, Shape-Grows, marked_in}
use mod2gc.Dag.Mark.{same_place}
use mod2gc.Dag.Frame.{
  Outside, Outside-SameHeader, Away, Around, Around-of_Grows, Around-trans, Safe-of_Away,
  Shape-Around, SameHeader-Grows, InUse, InUse-of_Shape, InUse-SameHeader, Suits,
}
use mod2gc.Dag.Fresh.{Fresh, with_kind-Fresh}
use mod2gc.Dag.Extend.{Grown, insert_child-Grown}
use mod2gc.Tree.Forest.{Ahead}

-- A node of an array that stands before the position `p`.
abbrev pub Before : (p q : NodePtr) → Type 0
Before p q =
    (q.index < arena_size) × ((q.arena < p.arena) ⊎ ((q.arena ≡ p.arena) × (q.index < p.index)))

-- A node before a position is none from there on.
pub Before-Ahead : (p q r : NodePtr) → Before p q → Ahead p r → same_place q r ≡ false
Before-Ahead p q r b a = ground arith

pub Before-Ahead-sym : (p q r : NodePtr) → Before p q → Ahead p r → same_place r q ≡ false
Before-Ahead-sym p q r b a = ground arith

abbrev pub with_arguments : DagNode → DagNodeArgument → DagNode
with_arguments d args = record d { args = args }

-- A new node with the symbol number `k`, from the position `at` on, is the next child of `p`; its vector is
-- in blocks that were free, and all else before `at` is left alone.
pub record Sprouted (ops : BitFlags) (symbols : ℕ → Symbol) (h : Heap) (at p : NodePtr)
    (arity k : ℕ) (cs : List DagNodePtr) (child : NodePtr) (h' : Heap) : Type 0 where
  pub named : (node_at h'.nodes.arenas child).symbol ≡ some k
  pub child_shape : Shape h'.memory (symbols k).arity (node_at h'.nodes.arenas child).args []
  pub child_suits : Suits (symbols k).arity (node_at h'.nodes.arenas child).args
  pub away : Away h.memory h'.memory (node_at h'.nodes.arenas child).args
  pub ahead : Ahead at child
  pub in_array : child.index < arena_size
  pub exists : child.arena < h'.nodes.boxes
  pub started : Started ops h'.nodes child.arena (child.index + 1)
  pub args : DagNodeArgument
  pub written : node_at h'.nodes.arenas p ≡ record (node_at h.nodes.arenas p) { args = args }
  pub shape : Shape h'.memory arity (node_at h'.nodes.arenas p).args (cs ++ some child ∷ [])
  pub suits : Suits arity (node_at h'.nodes.arenas p).args
  pub in_use :
      (m₀ : Memory)
      → InUse m₀ h.memory (node_at h.nodes.arenas p).args
      → InUse m₀ h'.memory (node_at h'.nodes.arenas p).args
  pub others :
      (q : NodePtr)
      → Before at q
      → same_place q p ≡ false
      → node_at h'.nodes.arenas q ≡ node_at h.nodes.arenas q
  pub around : Around (Outside h.memory (node_at h.nodes.arenas p).args) h.memory h'.memory
  pub blocks :
      (a : Address) (n : ℕ)
      → Outside h.memory (node_at h.nodes.arenas p).args a n
      → Outside h'.memory (node_at h'.nodes.arenas p).args a n
  pub grown : h.nodes.boxes ≤ h'.nodes.boxes

module _ (ops : BitFlags) (base : ℕ → ℕ) (junk : ℕ → ℕ → DagNode) (symbols : ℕ → Symbol) where
  -- A node behind the cursor has no mark.
  pub behind-unmarked :
      (h : Heap) (at q : NodePtr)
      → Started ops h.nodes at.arena at.index
      → Before at q
      → marked_in ops h q ≡ false
  behind-unmarked h at q st (lt, inl e) = st.marks.behind_arenas q.arena q.index e lt
  behind-unmarked h at q st (lt, inr (e, before)) = rw e (st.marks.behind_nodes q.index before)

  -- What a new node leaves alone.
  pub left_alone :
      (h : Heap) (at : NodePtr) (k : ℕ) (st : Started ops h.nodes at.arena at.index)
      (r : NodePtr × Heap)
      → Fresh ops base junk symbols h at.arena at.index k free r
      → (q : NodePtr) → Before at q
      → node_at r.1.nodes.arenas q ≡ node_at h.nodes.arenas q
  left_alone h at k st r f q b =
      let kept =
        f.others q (let c = st.place.exists in ground (arith, c, b))
          (Before-Ahead at q r.0 b f.ahead) in
      kept.idle (behind-unmarked h at q st b)

  module _ (h : Heap) (at p : NodePtr) (arity k : ℕ) (cs : List DagNodePtr)
      (st : Started ops h.nodes at.arena at.index) (before : Before at p) where
    Sprouted-of_Grown :
        (r : NodePtr × Heap) (h' : Heap)
        → Shape h.memory arity (node_at h.nodes.arenas p).args cs
        → Fresh ops base junk symbols h at.arena at.index k free r
        → Grown ops base junk symbols r.1 r.0.arena (r.0.index + 1) p arity cs (some r.0) h'
        → Sprouted ops symbols h at p arity k cs r.0 h'
    Sprouted-of_Grown r h' shape f g =
        let m : Memory = r.1.memory in
        let old : DagNodeArgument = (node_at h.nodes.arenas p).args in
        let new : DagNodeArgument = (node_at r.1.nodes.arenas r.0).args in
        let ep = left_alone h at k st r f p before in
        let header = SameHeader-Grows h.memory m arity old cs f.memory shape in
        let used =
          InUse-SameHeader h.memory h.memory m old header
            (InUse-of_Shape h.memory arity old cs shape) in
        let around : Around (Outside m old) m h'.memory =
          subst (λ (d : DagNode). Around (Outside m d.args) m h'.memory) ep g.around in
        let (child_shape, same) =
          Shape-Around (Outside m old) m h'.memory (symbols k).arity new [] around
            (Safe-of_Away h.memory m m old new used f.away) f.shape in
        let ec = g.others r.0 (Before-Ahead-sym at p r.0 before f.ahead) in
        let forward : (a : Address) (n : ℕ) → Outside h.memory old a n → Outside m old a n =
          λ a n. Outside-SameHeader h.memory m old a n header in
        record {
          named = ap (λ (d : DagNode). d.symbol) ec ∙ ap (λ (d : DagNode). d.symbol) f.written;
          child_shape =
              subst (λ (d : DagNode). Shape h'.memory (symbols k).arity d.args []) (sym ec)
                child_shape;
          child_suits = subst (λ (d : DagNode). Suits (symbols k).arity d.args) (sym ec) f.suits;
          away =
              subst (λ (d : DagNode). Away h.memory h'.memory d.args) (sym ec)
                (λ a n k. Outside-SameHeader m h'.memory new a n same (f.away a n k));
          ahead = f.ahead;
          in_array = f.in_array;
          exists = rw g.boxes f.exists;
          started = g.started;
          args = g.args;
          written = g.written ∙ ap (λ (d : DagNode). with_arguments d g.args) ep;
          shape = g.shape;
          suits = g.suits;
          in_use = λ m₀ u. g.in_use m₀ (
              subst (λ (d : DagNode). InUse m₀ m d.args) (sym ep)
                (InUse-SameHeader m₀ h.memory m old header u));
          others = λ q b other. g.others q other ∙ left_alone h at k st r f q b;
          around =
              Around-trans (Outside h.memory old) (Outside m old) h.memory m h'.memory
                (Around-of_Grows (Outside h.memory old) h.memory m f.memory) (λ a n k. forward a n)
                around;
          blocks = λ a n o.
              g.blocks a n (subst (λ (d : DagNode). Outside m d.args a n) (sym ep) (forward a n o));
          grown = rw g.boxes f.grown;
        }

    -- From a position of the allocator's cursor, a new node becomes the next child of a node before it with
    -- room for one more.
    pub sprout-Sprouted :
        NoMarks ops junk
        → (symbols k).arity < 2 ^ 57
        → Sound h.memory.storage
        → p.arena < h.nodes.boxes
        → Shape h.memory arity (node_at h.nodes.arenas p).args cs
        → Suits arity (node_at h.nodes.arenas p).args
        → length cs < arity
        → (child : NodePtr) × (h₁ : Heap) × (h' : Heap) × (new ops base junk symbols (some k) h
            ≡ ok (child, h₁))
          × (insert_child ops base junk symbols p (some child) h₁ ≡ ok h')
          × Sprouted ops symbols h at p arity k cs child h'
    unfolding new
    sprout-Sprouted clean small sound exists shape suits room =
        let (r, e, f) =
          with_kind-Fresh ops base junk symbols clean h at.arena at.index k free st sound small in
        let ep = left_alone h at k st r f p before in
        let old : DagNodeArgument = (node_at h.nodes.arenas p).args in
        let shape' = Shape-Grows h.memory r.1.memory arity old cs f.memory shape in
        let (h', e', g) =
          insert_child-Grown ops base junk symbols r.1 r.0.arena (r.0.index + 1) p arity cs
            (some r.0) f.started (let lt = f.grown in omega (arith, lt)) before.0
            (ap (λ d. is_marked ops d) ep ∙ behind-unmarked h at p st before) f.memory.sound
            (subst (λ (d : DagNode). Shape r.1.memory arity d.args cs) (sym ep) shape')
            (subst (λ (d : DagNode). Suits arity d.args) (sym ep) suits) room in
        (r.0, r.1, h', e, e', Sprouted-of_Grown r h' shape f g)
