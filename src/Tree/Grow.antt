-- ===== src/Tree/Grow.antt =====
-- The children that the loop of `build_random_tree` of src/util.rs has made, with their subtrees.
use mod2gc.Base.{
  ℕ, suc, ◌≤◌, ◌<◌, ◌≡◌, ◌∙◌, ap, sym, subst, false, some, List, [], ◌∷◌, ◌++◌, arith, length,
}
use mod2gc.Flags.{BitFlags}
use mod2gc.Node.{NodePtr, DagNodePtr, DagNodeArgument, DagNode}
use mod2gc.Symbol.{Symbol}
use mod2gc.Storage.{Address}
use mod2gc.Storage.Invariant.{Held}
use mod2gc.Arenas.{arena_size, node_at}
use mod2gc.Arenas.Allocate.Safety.{Started}
use mod2gc.Dag.{Heap}
use mod2gc.Dag.Graph.{Shape}
use mod2gc.Dag.Mark.{same_place}
use mod2gc.Dag.Frame.{
  Outside, Outside-SameHeader, Around, Around-trans, Safe-of_Away, Safe-of_InUse, Shape-Around,
  InUse, InUse-Held, InUse-SameHeader, Suits, SameHeader,
}
use mod2gc.Tree.Forest.{
  Ahead, Ahead-trans, next, Forest, Forest-snoc, Forest-map, Planted, Planted-weaken,
  Planted-Around, Tree, Tree-map,
}
use mod2gc.Tree.Sprout.{Before, Before-Ahead, Before-Ahead-sym, with_arguments, Sprouted}

pub Before-Ahead-trans : (lo hi q : NodePtr) → Before lo q → Ahead lo hi → Before hi q
Before-Ahead-trans lo hi q b a = ground arith

pub Before-of_next : (q hi : NodePtr) (lt : q.index < arena_size) → Ahead (next q) hi → Before hi q
Before-of_next q hi lt a = ground arith

module _ (ops : BitFlags) (symbols : ℕ → Symbol) (width : ℕ) where
  -- From the heap `h₀`, the node `p` has got the children `cs`, whose trees stand between `lo` and `hi`;
  -- other nodes before `lo`, and blocks beside the vector of `p`, are left alone.
  pub record Growing (h₀ : Heap) (p : NodePtr) (arity levels : ℕ) (lo : NodePtr)
      (cs : List DagNodePtr) (h : Heap) : Type 0 where
    pub hi : NodePtr
    pub order : Ahead lo hi
    pub past : 0 < lo.index → 0 < hi.index
    pub started : Started ops h.nodes hi.arena hi.index
    pub forest : Forest (Tree symbols width h h₀.memory levels) cs lo hi
    pub args : DagNodeArgument
    pub written : node_at h.nodes.arenas p ≡ record (node_at h₀.nodes.arenas p) { args = args }
    pub shape : Shape h.memory arity (node_at h.nodes.arenas p).args cs
    pub suits : Suits arity (node_at h.nodes.arenas p).args
    pub in_use : InUse h₀.memory h.memory (node_at h.nodes.arenas p).args
    pub others :
        (q : NodePtr)
        → Before lo q
        → same_place q p ≡ false
        → node_at h.nodes.arenas q ≡ node_at h₀.nodes.arenas q
    pub around : Around (Outside h₀.memory (node_at h₀.nodes.arenas p).args) h₀.memory h.memory
    pub blocks :
        (a : Address) (n : ℕ)
        → Outside h₀.memory (node_at h₀.nodes.arenas p).args a n
        → Outside h.memory (node_at h.nodes.arenas p).args a n
    pub grown : h₀.nodes.boxes ≤ h.nodes.boxes

  -- A turn of the loop: the new child, then what the recursive call makes of it.
  module _ (h₀ h h₂ h₃ : Heap) (p lo child : NodePtr) (arity k levels : ℕ)
      (cs cs' : List DagNodePtr) (before : Before lo p)
      (g : Growing h₀ p arity (suc levels) lo cs h)
      (s : Sprouted ops symbols h g.hi p arity k cs child h₂)
      (r : Growing h₂ child (symbols k).arity levels (next child) cs' h₃) where
    abbrev old : DagNodeArgument
    old = (node_at h.nodes.arenas p).args

    abbrev new : DagNodeArgument
    new = (node_at h₂.nodes.arenas p).args

    turn-Around : Around (Outside h.memory old) h.memory h₃.memory
    turn-Around =
        Around-trans (Outside h.memory old) (Outside h₂.memory (node_at h₂.nodes.arenas child).args)
          h.memory h₂.memory h₃.memory s.around (λ a n k o. s.away a n k) r.around

    p_before_child : Before (next child) p
    p_before_child =
        Before-Ahead-trans g.hi (next child) p (Before-Ahead-trans lo g.hi p before g.order)
          (let a = s.ahead in ground arith)

    -- The node itself in the recursive call.
    p_same : node_at h₃.nodes.arenas p ≡ node_at h₂.nodes.arenas p
    p_same =
        r.others p p_before_child
          (Before-Ahead g.hi p child (Before-Ahead-trans lo g.hi p before g.order) s.ahead)

    p_Shape : Shape h₃.memory arity new (cs ++ some child ∷ []) × SameHeader h₂.memory h₃.memory new
    p_Shape =
        Shape-Around (Outside h₂.memory (node_at h₂.nodes.arenas child).args) h₂.memory h₃.memory
          arity new (cs ++ some child ∷ []) r.around
          (Safe-of_InUse h.memory h₂.memory h₂.memory new (node_at h₂.nodes.arenas child).args
            (s.in_use h.memory (InUse-Held h₀.memory h.memory h.memory old g.around.held g.in_use))
            s.away)
          s.shape

    -- What a turn leaves of the trees made before.
    kept_subtree :
        (x a b : NodePtr) (xs : List DagNodePtr)
        → Ahead lo a
        → Ahead b g.hi
        → Planted symbols width h h₀.memory x a b xs
        → Planted symbols width h₃ h₀.memory x a b xs
    kept_subtree x a b xs first last t =
        let x_before : Before g.hi x =
          Before-of_next x g.hi t.in_array (Ahead-trans (next x) b g.hi t.behind last) in
        let not_p = Before-Ahead-sym lo p x before (Ahead-trans lo a x first t.ahead) in
        let not_child = Before-Ahead g.hi x child x_before s.ahead in
        let x_next : Before (next child) x =
          Before-Ahead-trans g.hi (next child) x x_before (let e = s.ahead in ground arith) in
        Planted-Around symbols width h h₃ (Outside h.memory old) h₀.memory x a b xs
          (let first = s.grown in let last = r.grown in omega (arith, first, last))
          (r.others x x_next not_child ∙ s.others x x_before not_p) turn-Around
          (Safe-of_Away h₀.memory h.memory h.memory old (node_at h.nodes.arenas x).args g.in_use
            t.away)
          t

    -- The tree of the new child.
    new_subtree :
        (symbols k).arity ≤ width
        → length cs' ≡ (symbols k).arity
        → Tree symbols width h₃ h₀.memory (suc levels) child g.hi r.hi
    new_subtree bounded number =
        let same : (a : Address) (n : ℕ) → Held h₀.memory.storage a n → Held h.memory.storage a n =
          g.around.held in
        (
          cs',
          record {
            ahead = s.ahead;
            behind = r.order;
            in_arenas = (let lt = s.exists in let le = r.grown in omega (arith, lt, le));
            in_array = s.in_array;
            symbol = k;
            named = ap (λ (d : DagNode). d.symbol) r.written ∙ s.named;
            bounded = bounded;
            number = number;
            shape = r.shape;
            suits = r.suits;
            away = λ a n held. r.blocks a n (s.away a n (same a n held));
          },
          Forest-map (Tree symbols width h₃ h₂.memory levels)
              (Tree symbols width h₃ h₀.memory levels) cs' (next child) r.hi
              (λ q a b first last.
                Tree-map symbols width h₃ h₃ h₂.memory h₀.memory levels q a b (λ x a' b' xs f l.
                  Planted-weaken symbols width h₃ h₂.memory h₀.memory x a' b' xs
                    (λ a n held. s.around.held a n (same a n held))))
              r.forest,
        )

    pub turn-Growing :
        (symbols k).arity ≤ width
        → length cs' ≡ (symbols k).arity
        → Growing h₀ p arity (suc levels) lo (cs ++ some child ∷ []) h₃
    turn-Growing bounded number = record {
      hi = r.hi;
      order = Ahead-trans lo g.hi r.hi g.order later;
      past = λ pos. r.past (omega arith);
      started = r.started;
      forest =
          Forest-snoc (Tree symbols width h₃ h₀.memory (suc levels)) cs child lo g.hi r.hi later
            (Forest-map (Tree symbols width h h₀.memory (suc levels))
              (Tree symbols width h₃ h₀.memory (suc levels)) cs lo g.hi
              (λ q a b first last.
                Tree-map symbols width h h₃ h₀.memory h₀.memory (suc levels) q a b
                  (λ x a' b' xs f l.
                    kept_subtree x a' b' xs (Ahead-trans lo a a' first f)
                      (Ahead-trans b' b g.hi l last)))
              g.forest)
            (new_subtree bounded number);
      args = s.args;
      written = p_same ∙ s.written ∙ ap (λ d. with_arguments d s.args) g.written;
      shape =
          subst (λ (d : DagNode). Shape h₃.memory arity d.args (cs ++ some child ∷ [])) (sym p_same)
            p_Shape.0;
      suits = subst (λ (d : DagNode). Suits arity d.args) (sym p_same) s.suits;
      in_use =
          subst (λ (d : DagNode). InUse h₀.memory h₃.memory d.args) (sym p_same)
            (InUse-SameHeader h₀.memory h₂.memory h₃.memory new p_Shape.1
              (s.in_use h₀.memory g.in_use));
      others = λ q b other.
          let b' = Before-Ahead-trans lo g.hi q b g.order in
          let b'' = Before-Ahead-trans g.hi (next child) q b' (let e = s.ahead in ground arith) in
          r.others q b'' (Before-Ahead g.hi q child b' s.ahead)
          ∙ s.others q b' other
          ∙ g.others q b other;
      around =
          Around-trans (Outside h₀.memory (node_at h₀.nodes.arenas p).args) (Outside h.memory old)
            h₀.memory h.memory h₃.memory g.around (λ a n k. g.blocks a n) turn-Around;
      blocks = λ a n o.
          subst (λ (d : DagNode). Outside h₃.memory d.args a n) (sym p_same)
            (Outside-SameHeader h₂.memory h₃.memory new a n p_Shape.1
              (s.blocks a n (g.blocks a n o)));
      grown = (let a = g.grown in let b = s.grown in let c = r.grown in omega (arith, a, b, c));
    }
      where
        later : Ahead g.hi r.hi
        later = Ahead-trans g.hi child r.hi s.ahead (let e = r.order in ground arith)
