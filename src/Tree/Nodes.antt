-- ===== src/Tree/Nodes.antt =====
-- The nodes of a tree that `build_random_tree` of src/util.rs has made, as a graph in the heap.
use mod2gc.Base.{
  ℕ, zero, suc, ◌<◌, ◌≡◌, ◌∙◌, ap, sym, subst, ◌⊎◌, inl, inr, some, List, [], Outcome, ok, panic,
  undefined, out_of_fuel, exited, arith, length,
}
use mod2gc.Flags.{BitFlags}
use mod2gc.Node.{NodePtr, DagNodePtr, DagNodeArgument, no_args, single, many, DagNode}
use mod2gc.Symbol.{Symbol}
use mod2gc.Arenas.{node_at}
use mod2gc.Vector.Owns.{nth}
use mod2gc.Dag.{Heap, iter_children}
use mod2gc.Dag.Make.{Wide}
use mod2gc.Dag.Construct.{iter_children_lem}
use mod2gc.Dag.Frame.{Suits}
use mod2gc.Dag.Graph.{Graph, Edge, Shape, Shows}
use mod2gc.Tree.Forest.{Ahead, Ahead-trans, next, Forest-nth, Tree, Planted}
use mod2gc.Tree.Sprout.{Before}
use mod2gc.Tree.Grow.{Growing, Before-Ahead-trans, Before-of_next}
use mod2gc.Tree.Build.{Ready, Populated}

pub items_of : Outcome (List DagNodePtr) → List DagNodePtr
items_of panic = []
items_of undefined = []
items_of out_of_fuel = []
items_of exited = []
items_of (ok xs) = xs

Wide-of_Suits : (arity : ℕ) (args : DagNodeArgument) → Suits arity args → Wide arity args
Wide-of_Suits arity no_args s = tt
Wide-of_Suits arity (single q) s = tt
Wide-of_Suits arity (many v) s = s

module _ (ops : BitFlags) (base : ℕ → ℕ) (junk : ℕ → ℕ → DagNode) (symbols : ℕ → Symbol) where
  -- The children that `iter_children` reads.
  unfoldable pub children_of : Heap → Graph
  children_of h q = items_of (iter_children ops base junk symbols h (node_at h.nodes.arenas q))

  pub iter_children-eq :
      (h : Heap) (q : NodePtr) (k : ℕ) (cs : List DagNodePtr)
      → (node_at h.nodes.arenas q).symbol ≡ some k
      → length cs ≡ (symbols k).arity
      → Shape h.memory (symbols k).arity (node_at h.nodes.arenas q).args cs
      → Suits (symbols k).arity (node_at h.nodes.arenas q).args
      → iter_children ops base junk symbols h (node_at h.nodes.arenas q) ≡ ok cs
  iter_children-eq h q k cs named number shape suits =
      iter_children_lem ops base junk symbols h (node_at h.nodes.arenas q) k cs named (sym number)
        shape (Wide-of_Suits (symbols k).arity (node_at h.nodes.arenas q).args suits)

  pub children_of-eq :
      (h : Heap) (q : NodePtr) (cs : List DagNodePtr)
      → iter_children ops base junk symbols h (node_at h.nodes.arenas q) ≡ ok cs
      → children_of h q ≡ cs
  unfolding children_of items_of
  children_of-eq h q cs e = ap items_of e

  module _ (width : ℕ) (h₀ h : Heap) (p at : NodePtr) (k levels : ℕ)
      (ready : Ready ops symbols h₀ p at k)
      (made : Populated ops symbols width h₀ p k levels at h) where
    abbrev grown : Growing ops symbols width h₀ p (symbols k).arity levels at made.0 h
    grown = made.2

    -- The node at which the tree was built, and nodes behind it with a tree of their own.
    abbrev pub InTree : NodePtr → Type 0
    InTree q =
        (q ≡ p)
        ⊎ ((n : ℕ) × (lo : NodePtr) × (hi : NodePtr) × Ahead at lo
            × Ahead hi grown.hi
            × Tree symbols width h h₀.memory n q lo hi)

    p_named : (node_at h.nodes.arenas p).symbol ≡ some k
    p_named = ap (λ (d : DagNode). d.symbol) grown.written ∙ ready.named

    p_children : children_of h p ≡ made.0
    p_children =
        children_of-eq h p made.0
          (iter_children-eq h p k made.0 p_named made.1 grown.shape grown.suits)

    subtree_children :
        (q lo hi : NodePtr) (cs : List DagNodePtr)
        → Planted symbols width h h₀.memory q lo hi cs
        → children_of h q ≡ cs
    subtree_children q lo hi cs t =
        children_of-eq h q cs (iter_children-eq h q t.symbol cs t.named t.number t.shape t.suits)

    pub InTree-closed : (x y : NodePtr) → InTree x → Edge (children_of h) x y → InTree y
    InTree-closed x y (inl e) edge =
        let (j, lt, eq) =
          subst (λ cs. (j : ℕ) × (j < length cs) × (nth cs j ≡ some y))
            (ap (children_of h) e ∙ p_children) edge in
        let (a, b, above, below, t) =
          Forest-nth (Tree symbols width h h₀.memory levels) made.0 at grown.hi j y grown.forest lt
            eq in
        inr (levels, a, b, above, below, t)
    InTree-closed x y (inr (zero, lo, hi, above, below, t)) edge = absurd t
    InTree-closed x y (inr (suc n, lo, hi, above, below, (cs, t, ts))) edge =
        let (j, lt, eq) =
          subst (λ cs. (j : ℕ) × (j < length cs) × (nth cs j ≡ some y))
            (subtree_children x lo hi cs t) edge in
        let (a, b, above', below', u) =
          Forest-nth (Tree symbols width h h₀.memory n) cs (next x) hi j y ts lt eq in
        inr (
          n,
          a,
          b,
          Ahead-trans at lo a above
              (Ahead-trans lo (next x) a (let first = t.ahead in ground arith) above'),
          Ahead-trans b hi grown.hi below' below,
          u,
        )

    pub InTree-Shows : (x : NodePtr) → InTree x → Shows symbols (children_of h) h x
    InTree-Shows x (inl e) = subst (Shows symbols (children_of h) h) (sym e) (record {
      in_arenas = (let lt = ready.exists in let le = grown.grown in omega (arith, lt, le));
      in_array = ready.before.0;
      symbol = k;
      named = p_named;
      shape =
          subst (Shape h.memory (symbols k).arity (node_at h.nodes.arenas p).args) (sym p_children)
            grown.shape;
    })
    InTree-Shows x (inr (zero, lo, hi, above, below, t)) = absurd t
    InTree-Shows x (inr (suc n, lo, hi, above, below, (cs, t, ts))) = record {
      in_arenas = t.in_arenas;
      in_array = t.in_array;
      symbol = t.symbol;
      named = t.named;
      shape =
          subst (Shape h.memory (symbols t.symbol).arity (node_at h.nodes.arenas x).args)
            (sym (subtree_children x lo hi cs t)) t.shape;
    }

    pub InTree-Before : (x : NodePtr) → InTree x → Before grown.hi x
    InTree-Before x (inl e) =
        subst (Before grown.hi) (sym e) (Before-Ahead-trans at grown.hi p ready.before grown.order)
    InTree-Before x (inr (zero, lo, hi, above, below, t)) = absurd t
    InTree-Before x (inr (suc n, lo, hi, above, below, (cs, t, ts))) =
        Before-of_next x grown.hi t.in_array (Ahead-trans (next x) hi grown.hi t.behind below)
