-- ===== src/Tree/Plant/Stock.antt =====
-- What the trees of src/util.rs at several roots have in common: each stays as it is when the next is made.
use mod2gc.Base.{ℕ, ◌<◌, ◌≡◌, ◌∙◌, refl, ap, subst, ◌⊎◌, inl, inr, some, List, ◌∷◌, arith, length}
use mod2gc.Flags.{BitFlags}
use mod2gc.Node.{NodePtr, DagNodePtr, DagNodeArgument, DagNode, free}
use mod2gc.Symbol.{Symbol}
use mod2gc.Storage.History.{Sound}
use mod2gc.Arenas.{node_at}
use mod2gc.Arenas.Allocate.Safety.{Started}
use mod2gc.Vector.{Memory}
use mod2gc.Vector.Owns.{nth}
use mod2gc.Dag.{Heap, new, iter_children}
use mod2gc.Dag.Construct.{iter_children-same}
use mod2gc.Dag.Graph.{Edge, Shape, Shape-Grows, Shows}
use mod2gc.Dag.Exact.{Among}
use mod2gc.Dag.Frame.{
  Outside, InUse-of_Shape, InUse-SameHeader, SameHeader-Grows, Shape-Around, Safe-of_InUse,
}
use mod2gc.Dag.Fresh.{Fresh}
use mod2gc.Tree.Forest.{next}
use mod2gc.Tree.Sprout.{Before, Before-Ahead, left_alone}
use mod2gc.Tree.Grow.{Before-Ahead-trans}
use mod2gc.Tree.Build.{Ready, Populated}
use mod2gc.Tree.Nodes.{children_of, items_of, InTree, InTree-closed, InTree-Shows, InTree-Before}

module _ (ops : BitFlags) (base : ℕ → ℕ) (junk : ℕ → ℕ → DagNode) (symbols : ℕ → Symbol) where
  -- The allocator's cursor stands at `at`; the nodes `N` are closed under children, stand before it with
  -- the vectors that their symbols ask for, and the nodes `ps` are among them.
  pub record Stock (h : Heap) (at : NodePtr) (ps : List NodePtr) (N : NodePtr → Type 0)
      : Type 0 where
    pub started : Started ops h.nodes at.arena at.index
    pub sound : Sound h.memory.storage
    pub closed : (x y : NodePtr) → N x → Edge (children_of ops base junk symbols h) x y → N y
    pub shows : (x : NodePtr) → N x → Shows symbols (children_of ops base junk symbols h) h x
    pub before : (x : NodePtr) → N x → Before at x
    pub roots : (x : NodePtr) → Among ps x → N x

  pub Ready-of_Fresh :
      (h : Heap) (at : NodePtr) (k : ℕ) (r : NodePtr × Heap)
      → Fresh ops base junk symbols h at.arena at.index k free r
      → Ready ops symbols r.1 r.0 (next r.0) k
  Ready-of_Fresh h at k r f = record {
    started = f.started;
    sound = f.memory.sound;
    exists = f.exists;
    before = (f.in_array, inr (refl, omega arith));
    named = ap (λ (d : DagNode). d.symbol) f.written;
    shape = f.shape;
    suits = f.suits;
  }

  -- A new root and its tree.
  module _ (width : ℕ) (h : Heap) (at : NodePtr) (ps : List NodePtr) (N : NodePtr → Type 0)
      (k levels : ℕ) (s : Stock h at ps N) (r : NodePtr × Heap)
      (f : Fresh ops base junk symbols h at.arena at.index k free r) (h' : Heap)
      (made : Populated ops symbols width r.1 r.0 k levels (next r.0) h') where
    abbrev m : Memory
    m = r.1.memory

    abbrev new_args : DagNodeArgument
    new_args = (node_at r.1.nodes.arenas r.0).args

    -- A node of the stock is left alone, with its vector.
    pub kept_node : (x : NodePtr) → N x → node_at h'.nodes.arenas x ≡ node_at h.nodes.arenas x
    kept_node x n =
        let b = s.before x n in
        made.2.others x (Before-Ahead-trans at (next r.0) x b (let first = f.ahead in ground arith))
          (Before-Ahead at x r.0 b f.ahead)
        ∙ left_alone ops base junk symbols h at k s.started r f x b

    kept_vector :
        (arity : ℕ) (args : DagNodeArgument) (cs : List DagNodePtr)
        → Shape h.memory arity args cs
        → Shape h'.memory arity args cs
    kept_vector arity args cs shape =
        let header = SameHeader-Grows h.memory m arity args cs f.memory shape in
        let used =
          InUse-SameHeader h.memory h.memory m args header
            (InUse-of_Shape h.memory arity args cs shape) in
        (Shape-Around (Outside m new_args) m h'.memory arity args cs made.2.around
          (Safe-of_InUse h.memory m m args new_args used f.away)
          (Shape-Grows h.memory m arity args cs f.memory shape)).0

    pub kept_children :
        (x : NodePtr)
        → N x
        → children_of ops base junk symbols h' x ≡ children_of ops base junk symbols h x
    unfolding children_of
    kept_children x n =
        let w = s.shows x n in
        let cs = children_of ops base junk symbols h x in
        let d : DagNode = node_at h.nodes.arenas x in
        ap (λ d. items_of (iter_children ops base junk symbols h' d)) (kept_node x n)
        ∙ ap items_of (
            iter_children-same ops base junk symbols h h' d (symbols w.symbol).arity cs w.shape
              (kept_vector (symbols w.symbol).arity d.args cs w.shape))

    kept_Shows : (x : NodePtr) → N x → Shows symbols (children_of ops base junk symbols h') h' x
    kept_Shows x n =
        let w = s.shows x n in
        record {
          in_arenas =
              (let lt = w.in_arenas in
                let le = f.grown in let le' = made.2.grown in omega (arith, lt, le, le'));
          in_array = w.in_array;
          symbol = w.symbol;
          named = ap (λ (d : DagNode). d.symbol) (kept_node x n) ∙ w.named;
          shape =
              rw (kept_children x n, kept_node x n)
                (kept_vector (symbols w.symbol).arity (node_at h.nodes.arenas x).args
                  (children_of ops base junk symbols h x) w.shape);
        }

    abbrev pub Both : NodePtr → Type 0
    Both x =
        N x
        ⊎ InTree ops base junk symbols width r.1 h' r.0 (next r.0) k levels
            (Ready-of_Fresh h at k r f) made x

    pub next-Stock : Stock h' made.2.hi (r.0 ∷ ps) Both
    next-Stock =
        let ready = Ready-of_Fresh h at k r f in
        record {
          started = made.2.started;
          sound = made.2.around.sound;
          closed = λ x y n edge. elim n [
            | inl old ↦ inl (
                s.closed x y old (
                  subst (λ cs. (j : ℕ) × (j < length cs) × (nth cs j ≡ some y))
                    (kept_children x old) edge))
            | inr new ↦ inr (
                InTree-closed ops base junk symbols width r.1 h' r.0 (next r.0) k levels ready made
                  x y new edge)
          ];
          shows = λ x n. elim n [
            | inl old ↦ kept_Shows x old
            | inr new ↦
                InTree-Shows ops base junk symbols width r.1 h' r.0 (next r.0) k levels ready made x
                  new
          ];
          before = λ x n. elim n [
            | inl old ↦
                Before-Ahead-trans (next r.0) made.2.hi x
                  (Before-Ahead-trans at (next r.0) x (s.before x old)
                    (let first = f.ahead in ground arith))
                  made.2.order
            | inr new ↦
                InTree-Before ops base junk symbols width r.1 h' r.0 (next r.0) k levels ready made
                  x new
          ];
          roots = λ x a. elim a [ inl e ↦ inr (inl e) | inr old ↦ inl (s.roots x old) ];
        }
