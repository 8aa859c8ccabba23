-- ===== src/Tree/Build.antt =====
-- `build_random_tree` of src/util.rs: the tree that it makes, whatever numbers are drawn.
use mod2gc.Base.{
  ℕ, zero, suc, ◌+◌, ◌^◌, ◌≤◌, ◌<◌, ◌≡◌, ◌∙◌, refl, ap, sym, subst, inr, true, Option, none, some,
  List, [], ◌∷◌, ◌++◌, ok, ◌>>=◌, Returns, arith, length, length-append, get_elem?, min, max,
  Outcome, panic,
}
use mod2gc.Flags.{BitFlags}
use mod2gc.Node.{NodePtr, DagNodePtr, DagNode}
use mod2gc.Symbol.{Symbol, arity_of}
use mod2gc.Storage.History.{Sound}
use mod2gc.Arenas.{arena_size, node_at}
use mod2gc.Arenas.Allocate.Extend.{NoMarks}
use mod2gc.Arenas.Allocate.Safety.{Started}
use mod2gc.Dag.{Heap, read_node, exists}
use mod2gc.Dag.Graph.{Shape}
use mod2gc.Dag.Frame.{InUse-of_Shape, Suits}
use mod2gc.Tree.{Builder, symbol_at, child_arity, add_children, build_random_tree}
use mod2gc.Tree.Forest.{next}
use mod2gc.Tree.Sprout.{Before, sprout-Sprouted}
use mod2gc.Tree.Grow.{Growing, Before-Ahead-trans, turn-Growing}

-- The random number generator keeps to the range.
abbrev pub DrawsInRange : ((n lo hi : ℕ) → ℕ) → Type 0
DrawsInRange draw = (n lo hi : ℕ) → lo ≤ hi → (lo ≤ draw n lo hi) × (draw n lo hi ≤ hi)

-- The slice has a symbol of each arity up to `width`.
abbrev pub Offers : (symbols : ℕ → Symbol) (table : List ℕ) (width : ℕ) → Type 0
Offers symbols table width =
    (a : ℕ) → a ≤ width → (k : ℕ) × (get_elem? table a ≡ some k) × ((symbols k).arity ≡ a)

-- A node without children, of the symbol number `k`, before the position `at` of the allocator's cursor.
pub record Ready (ops : BitFlags) (symbols : ℕ → Symbol) (h : Heap) (p at : NodePtr) (k : ℕ)
    : Type 0 where
  pub started : Started ops h.nodes at.arena at.index
  pub sound : Sound h.memory.storage
  pub exists : p.arena < h.nodes.boxes
  pub before : Before at p
  pub named : (node_at h.nodes.arenas p).symbol ≡ some k
  pub shape : Shape h.memory (symbols k).arity (node_at h.nodes.arenas p).args []
  pub suits : Suits (symbols k).arity (node_at h.nodes.arenas p).args

-- The node has as many children as its symbol has arguments, each with a tree.
abbrev pub Populated :
    (ops : BitFlags) (symbols : ℕ → Symbol) (width : ℕ) (h₀ : Heap) (p : NodePtr) (k levels : ℕ)
    (at : NodePtr)
    → Heap
    → Type 0
Populated ops symbols width h₀ p k levels at h =
    (cs : List DagNodePtr) × (length cs ≡ (symbols k).arity)
    × Growing ops symbols width h₀ p (symbols k).arity levels at cs h

module _ (ops : BitFlags) (symbols : ℕ → Symbol) (width : ℕ) where
  none_yet :
      (h : Heap) (p at : NodePtr) (k levels : ℕ)
      → Ready ops symbols h p at k
      → Growing ops symbols width h p (symbols k).arity levels at [] h
  none_yet h p at k levels r = record {
    hi = at;
    order = ground arith;
    past = λ pos. pos;
    started = r.started;
    forest = refl;
    args = (node_at h.nodes.arenas p).args;
    written = refl;
    shape = r.shape;
    suits = r.suits;
    in_use = InUse-of_Shape h.memory (symbols k).arity (node_at h.nodes.arenas p).args [] r.shape;
    others = λ q b other. refl;
    around = record {
      held = λ a n k. k;
      vectors = λ a k b. refl;
      slots = λ a k b. refl;
      sound = r.sound;
    };
    blocks = λ a n o. o;
    grown = omega arith;
  }

module _ (ops : BitFlags) (base : ℕ → ℕ) (junk : ℕ → ℕ → DagNode) (symbols : ℕ → Symbol)
    (table : List ℕ) (draw : (n lo hi : ℕ) → ℕ) (width : ℕ) where
  abbrev from_entry : Option ℕ → Outcome ℕ
  from_entry o = elim o [ none ↦ panic | some k ↦ ok k ]

  symbol_at-eq :
      (a k : ℕ) → get_elem? table a ≡ some k → symbol_at ops base junk symbols table draw a ≡ ok k
  unfolding symbol_at
  symbol_at-eq a k e = ap from_entry e

  child_arity-bounds :
      DrawsInRange draw
      → (height lo hi draws : ℕ) → lo ≤ hi
      → ((child_arity ops base junk symbols table draw (suc height) lo hi draws).0 ≤ hi)
        × (height ≡ 0
            → (child_arity ops base junk symbols table draw (suc height) lo hi draws).0 ≡ 0)
  child_arity-bounds law height lo hi draws le =
      let (least, most) = law draws lo hi le in
      (ground (arith, least, most), λ e. ground (arith, e))

  read_arity-eq :
      (f : ℕ → Outcome Builder) (h : Heap) (p : NodePtr) (k : ℕ)
      → p.arena < h.nodes.boxes
      → p.index < arena_size
      → (node_at h.nodes.arenas p).symbol ≡ some k
      → (read_node h p >>= λ d. arity_of symbols d.symbol >>= f) ≡ f (symbols k).arity
  read_arity-eq f h p k in_arenas in_array named =
      let there : exists h p ≡ true = ground arith in rw (there, named) refl

  -- What the recursive calls do.
  abbrev Builds : (build : NodePtr → Builder → Outcome Builder) (levels : ℕ) → Type 0
  Builds build levels =
      (p at : NodePtr) (k : ℕ) (s : Builder)
      → Ready ops symbols s.heap p at k
      → (symbols k).arity ≤ width
      → (levels ≡ 0 → (symbols k).arity ≡ 0)
      → Returns (λ s'. Populated ops symbols width s.heap p k levels at s'.heap) (build p s)

  module _ (clean : NoMarks ops junk) (law : DrawsInRange draw)
      (offers : Offers symbols table width) (small : width < 2 ^ 57) where
    module _ (build : NodePtr → Builder → Outcome Builder) (levels lo hi : ℕ)
        (builds : Builds build levels) (le : lo ≤ hi) (narrow : hi ≤ width) (h₀ : Heap)
        (p at : NodePtr) (k : ℕ) (ready : Ready ops symbols h₀ p at k) where
      add_children-Growing :
          (left : ℕ) (cs : List DagNodePtr) (s : Builder)
          → length cs + left ≡ (symbols k).arity
          → Growing ops symbols width h₀ p (symbols k).arity (suc levels) at cs s.heap
          → Returns
              (λ s'. Populated ops symbols width h₀ p k (suc levels) at s'.heap)
              (add_children ops base junk symbols table draw build p (suc levels) lo hi left s)
      unfolding add_children
      add_children-Growing zero cs s e g = (s, refl, (cs, omega (arith, e), g))
      add_children-Growing (suc left) cs s e g =
          let a = child_arity ops base junk symbols table draw (suc levels) lo hi s.draws in
          let (most, leaf) = child_arity-bounds law levels lo hi s.draws le in
          let (j, found, right) = offers a.0 (omega (arith, most, narrow)) in
          let behind = Before-Ahead-trans at g.hi p ready.before g.order in
          let (child, h₁, h₂, made, put, sp) =
            sprout-Sprouted ops base junk symbols s.heap g.hi p (symbols k).arity j cs g.started
              behind clean (omega (arith, right, most, narrow, small)) g.around.sound
              (let lt = ready.exists in let le' = g.grown in omega (arith, lt, le')) g.shape g.suits
              (omega (arith, e)) in
          let (s', built, (cs', number, inner)) =
            builds child (next child) j (record { heap = h₂; draws = a.1 })
              (record {
                started = sp.started;
                sound = sp.around.sound;
                exists = sp.exists;
                before = (sp.in_array, inr (refl, omega arith));
                named = sp.named;
                shape = sp.child_shape;
                suits = sp.child_suits;
              })
              (omega (arith, right, most, narrow)) (λ e. right ∙ leaf e) in
          let grown =
            turn-Growing ops symbols width h₀ s.heap h₂ s'.heap p at child (symbols k).arity j
              levels cs cs' ready.before g sp inner (omega (arith, right, most, narrow)) number in
          rw (symbol_at-eq a.0 j found, made, put, built)
            (add_children-Growing left (cs ++ some child ∷ []) s'
              (let l = length-append cs (some child ∷ []) in omega (arith, l, e)) grown)

    -- From a position of the allocator's cursor, with valid lists of buckets, no mark in the
    -- memory of new arenas, a slice with a symbol of each arity up to a width below 2 ^ 57, and
    -- numbers drawn inside their range, `build_random_tree` with at most that width returns, at a
    -- node before the cursor that has no children yet and, for height zero, a symbol without
    -- arguments. The node then has as many children as its symbol has arguments, none of them
    -- null; they are the roots of trees of at most `max_height` levels, in successive intervals
    -- between the old cursor and the new one, in which each node has as many children as its
    -- symbol has arguments, at most that width. The vectors of the trees are in blocks that were
    -- free; other nodes before the old cursor, and blocks handed out beside the node's own vector,
    -- keep what they hold; and the invariants of the two allocators hold.
    pub build_random_tree-Populated :
        (max_height max_width min_width : ℕ)
        → max_width ≤ width
        → (p at : NodePtr) (k : ℕ) (s : Builder) → Ready ops symbols s.heap p at k
        → (max_height ≡ 0 → (symbols k).arity ≡ 0)
        → Returns
            (λ s'. Populated ops symbols width s.heap p k max_height at s'.heap)
            (build_random_tree ops base junk symbols table draw p max_height max_width min_width s)
    unfolding build_random_tree
    build_random_tree-Populated zero max_width min_width narrow p at k s ready leaf =
        (s, refl, ([], sym (leaf refl), none_yet ops symbols width s.heap p at k 0 ready))
    build_random_tree-Populated (suc height) max_width min_width narrow p at k s ready leaf =
        let lo = min max_width min_width in
        let hi = max max_width lo in
        let le : lo ≤ hi = omega arith in
        let narrow' : hi ≤ width = omega (arith, narrow) in
        let step =
          add_children-Growing
            (λ child s. build_random_tree ops base junk symbols table draw child height hi lo s)
            height lo hi
            (λ p at k s r b. build_random_tree-Populated height hi lo narrow' p at k s r) le narrow'
            s.heap p at k ready (symbols k).arity [] s (omega arith)
            (none_yet ops symbols width s.heap p at k (suc height) ready) in
        subst
          (λ m. Returns (λ s'. Populated ops symbols width s.heap p k (suc height) at s'.heap) m)
          (sym (
            read_arity-eq
              (λ n.
                add_children ops base junk symbols table draw
                  (λ child s.
                    build_random_tree ops base junk symbols table draw child height hi lo s)
                  p (suc height) lo hi n s)
              s.heap p k ready.exists ready.before.0 ready.named))
          step
