-- ===== src/Tree/Plant/All.antt =====
-- Any number of roots of src/dag_node/root_container.rs with random trees of src/util.rs, and a collection
-- after them.
use mathlib.Core.List.{append_assoc}
use mod2gc.Base.{
  ℕ, ◌^◌, ◌≤◌, ◌<◌, ◌≡◌, ◌∙◌, refl, sym, subst, inl, List, [], ◌∷◌, ◌++◌, Returns, arith, length,
  length-append, All,
}
use mod2gc.Flags.{BitFlags}
use mod2gc.Node.{NodePtr, DagNode, free}
use mod2gc.Symbol.{Symbol}
use mod2gc.Arenas.{node_at}
use mod2gc.Arenas.Allocate.Extend.{NoMarks}
use mod2gc.Roots.Refine.{Holds, new-Holds}
use mod2gc.Dag.{Heap, new}
use mod2gc.Dag.Fresh.{with_kind-Fresh}
use mod2gc.Tree.Forest.{next}
use mod2gc.Tree.Build.{DrawsInRange, Offers, build_random_tree-Populated}
use mod2gc.Tree.Nodes.{children_of}
use mod2gc.Tree.Plant.{Planter, plant, plant_all}
use mod2gc.Tree.Plant.Stock.{Stock, Both, Ready-of_Fresh, next-Stock, kept_node, kept_children}

module _ (ops : BitFlags) (base : ℕ → ℕ) (junk : ℕ → ℕ → DagNode) (symbols : ℕ → Symbol) where
  -- A state with the roots `ps`; what a list of nodes `N` of the heap `h` had is still there.
  pub record Stocked (h : Heap) (N : NodePtr → Type 0) (ps : List NodePtr) (s : Planter)
      : Type 1 where
    pub at : NodePtr
    pub begun : 0 < at.index
    pub M : NodePtr → Type 0
    pub stock : Stock ops base junk symbols s.builder.heap at ps M
    pub xs : List ℕ
    pub holds : Holds s.roots xs ps
    pub more : (x : NodePtr) → N x → M x
    pub same_node :
        (x : NodePtr) → N x → node_at s.builder.heap.nodes.arenas x ≡ node_at h.nodes.arenas x
    pub same_children :
        (x : NodePtr)
        → N x
        → children_of ops base junk symbols s.builder.heap x ≡ children_of ops base junk symbols h x

  module _ (table : List ℕ) (draw : (n lo hi : ℕ) → ℕ) (width max_height max_width min_width : ℕ)
      (clean : NoMarks ops junk) (law : DrawsInRange draw) (offers : Offers symbols table width)
      (small : width < 2 ^ 57) (tall : 0 < max_height) (narrow : max_width ≤ width) where
    plant-Stocked :
        (k : ℕ) (h : Heap) (N : NodePtr → Type 0) (ps : List NodePtr) (s : Planter)
        → (symbols k).arity ≤ width
        → Stocked h N ps s
        → Returns
            (λ r. Stocked h N (r.0 ∷ ps) r.2)
            (plant ops base junk symbols table draw max_height max_width min_width k s)
    unfolding plant new
    plant-Stocked k h N ps s le t =
        let (r, e, f) =
          with_kind-Fresh ops base junk symbols clean s.builder.heap t.at.arena t.at.index k free
            t.stock.started t.stock.sound (omega (arith, le, small)) in
        let (c, e', holds) = new-Holds s.roots t.xs ps r.0 t.holds in
        let (b, e'', made) =
          build_random_tree-Populated ops base junk symbols table draw width clean law offers small
            max_height max_width min_width narrow r.0 (next r.0) k (record s.builder { heap = r.1 })
            (Ready-of_Fresh ops base junk symbols s.builder.heap t.at k r f)
            (λ zero_height. absurd (omega (arith, tall, zero_height))) in
        (
          (r.0, c.0, record { builder = b; roots = c.1 }),
          rw (e, e', e'') refl,
          record {
            at = made.2.hi;
            begun = made.2.past (omega arith);
            M =
                Both ops base junk symbols width s.builder.heap t.at ps t.M k max_height t.stock r f
                  b.heap made;
            stock =
                next-Stock ops base junk symbols width s.builder.heap t.at ps t.M k max_height
                  t.stock r f b.heap made;
            xs = c.0 ∷ t.xs;
            holds = holds;
            more = λ x n. inl (t.more x n);
            same_node = λ x n.
                kept_node ops base junk symbols width s.builder.heap t.at ps t.M k max_height
                  t.stock r f b.heap made x (t.more x n)
                ∙ t.same_node x n;
            same_children = λ x n.
                kept_children ops base junk symbols width s.builder.heap t.at ps t.M k max_height
                  t.stock r f b.heap made x (t.more x n)
                ∙ t.same_children x n;
          },
        )

    -- From a well-formed list of roots whose nodes are among nodes that are closed under children
    -- and stand before the allocator's cursor, with the vectors that their symbols ask for, the
    -- cursor behind the first node of an arena, valid lists of buckets, no mark in the memory of
    -- new arenas, a slice with a symbol of each arity up to a width below 2 ^ 57, and numbers
    -- drawn inside their range: for any list of symbols with arities up to that width, to make a
    -- node of each, a root for it and a random tree of at most that width and some height at it,
    -- one after another, succeeds. The new state satisfies the same conditions, with as many new
    -- roots in front of the old ones as there are symbols, and the nodes that were there first, N,
    -- are the same and have the same children as before.
    pub plant_all-Stocked :
        (ks : List ℕ) (h : Heap) (N : NodePtr → Type 0) (ps : List NodePtr) (s : Planter)
        → All (λ k. (symbols k).arity ≤ width) ks
        → Stocked h N ps s
        → Returns
            (λ s'. (qs : List NodePtr) × (length qs ≡ length ks) × Stocked h N (qs ++ ps) s')
            (plant_all ops base junk symbols table draw max_height max_width min_width ks s)
    unfolding plant_all
    plant_all-Stocked [] h N ps s all t = (s, refl, ([], refl, t))
    plant_all-Stocked (k ∷ ks) h N ps s (le, all) t =
        let (r, e, u) = plant-Stocked k h N ps s le t in
        let (s', e', (qs, number, v)) = plant_all-Stocked ks h N (r.0 ∷ ps) r.2 all u in
        (
          s',
          rw e e',
          (
            qs ++ r.0 ∷ [],
            (let l = length-append qs (r.0 ∷ []) in omega (arith, l, number)),
            subst (λ qs. Stocked h N qs s') (sym (append_assoc qs (r.0 ∷ []) ps)) v,
          ),
        )
