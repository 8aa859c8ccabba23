-- ===== src/Tree/Forest.antt =====
-- Trees of the nodes of src/dag_node/node.rs in a heap, as src/util.rs makes them: between two
-- positions of the allocator's cursor, and in blocks of the storage that were free before.
use mod2gc.Base.{
  ℕ, zero, suc, ◌+◌, ◌≤◌, ◌<◌, ◌≡◌, ◌∙◌, refl, ap, sym, subst, some, List, [], ◌∷◌, ◌++◌, arith,
  length,
}
use mod2gc.Node.{NodePtr, DagNodePtr, DagNode}
use mod2gc.Symbol.{Symbol}
use mod2gc.Storage.{Address}
use mod2gc.Storage.Invariant.{Held}
use mod2gc.Arenas.{arena_size, node_at}
use mod2gc.Arenas.Search.{ptr}
use mod2gc.Arenas.Allocate.Sequence.{From}
use mod2gc.Vector.{Memory}
use mod2gc.Vector.Owns.{nth}
use mod2gc.Dag.{Heap}
use mod2gc.Dag.Graph.{Shape}
use mod2gc.Dag.Frame.{Away, Suits, Safe, Around, Shape-Around, Outside-SameHeader}

-- `q` stands at the position `p` or behind it.
abbrev pub Ahead : (p q : NodePtr) → Type 0
Ahead p q = From p.arena p.index q

-- The position behind a node.
abbrev pub next : NodePtr → NodePtr
next q = ptr q.arena (q.index + 1)

pub Ahead-trans : (p q r : NodePtr) → Ahead p q → Ahead q r → Ahead p r
Ahead-trans p q r h k = ground arith

-- Children that are not null, which satisfy `P` in successive intervals from `lo` to `hi`.
abbrev pub Forest :
    (P : (q lo hi : NodePtr) → Type 0) → List DagNodePtr → (lo hi : NodePtr) → Type 0
Forest P [] lo hi = hi ≡ lo
Forest P (x ∷ xs) lo hi =
    (q : NodePtr) × (mid : NodePtr) × (x ≡ some q)
    × Ahead lo mid
    × Ahead mid hi
    × P q lo mid
    × Forest P xs mid hi

pub Forest-snoc :
    (P : (q lo hi : NodePtr) → Type 0) (xs : List DagNodePtr) (q lo mid hi : NodePtr)
    → Ahead mid hi
    → Forest P xs lo mid
    → P q mid hi
    → Forest P (xs ++ some q ∷ []) lo hi
Forest-snoc P [] q lo mid hi order e t =
    (q, hi, refl, subst (λ x. Ahead x hi) e order, ground arith, subst (λ x. P q x hi) e t, refl)
Forest-snoc P (x ∷ xs) q lo mid hi order (r, m, e, first, last, t, ts) u =
    (r, m, e, first, Ahead-trans m mid hi last order, t, Forest-snoc P xs q m mid hi order ts u)

-- A child stands in an interval of its own.
pub Forest-nth :
    (P : (q lo hi : NodePtr) → Type 0) (xs : List DagNodePtr) (lo hi : NodePtr) (j : ℕ)
    (q : NodePtr)
    → Forest P xs lo hi
    → j < length xs
    → nth xs j ≡ some q
    → (a : NodePtr) × (b : NodePtr) × Ahead lo a × Ahead b hi × P q a b
Forest-nth P [] lo hi j q ts lt e = absurd (omega (arith, lt))
Forest-nth P (x ∷ xs) lo hi zero q (r, mid, e', first, last, t, ts) lt e =
    (lo, mid, ground arith, last, subst (λ q. P q lo mid) (let same = e' in cc) t)
Forest-nth P (x ∷ xs) lo hi (suc j) q (r, mid, e', first, last, t, ts) lt e =
    let (a, b, above, below, u) = Forest-nth P xs mid hi j q ts (omega (arith, lt)) e in
    (a, b, Ahead-trans lo mid a first above, below, u)

pub Forest-map :
    (P Q : (q lo hi : NodePtr) → Type 0) (xs : List DagNodePtr) (lo hi : NodePtr)
    → ((q a b : NodePtr) → Ahead lo a → Ahead b hi → P q a b → Q q a b)
    → Forest P xs lo hi
    → Forest Q xs lo hi
Forest-map P Q [] lo hi f e = e
Forest-map P Q (x ∷ xs) lo hi f (q, mid, e, first, last, t, ts) = (
  q,
  mid,
  e,
  first,
  last,
  f q lo mid (ground arith) last t,
  Forest-map P Q xs mid hi (λ r a b h k. f r a b (Ahead-trans lo mid a first h) k) ts,
)

module _ (symbols : ℕ → Symbol) (width : ℕ) where
  -- The node `q` of the heap, between `lo` and `hi`, has the children `cs`, as many as its symbol has
  -- arguments, at most `width`; its vector shares no byte with the blocks that `m₀` had handed out.
  pub record Planted (h : Heap) (m₀ : Memory) (q lo hi : NodePtr) (cs : List DagNodePtr)
      : Type 0 where
    pub ahead : Ahead lo q
    pub behind : Ahead (next q) hi
    pub in_arenas : q.arena < h.nodes.boxes
    pub in_array : q.index < arena_size
    pub symbol : ℕ
    pub named : (node_at h.nodes.arenas q).symbol ≡ some symbol
    pub bounded : (symbols symbol).arity ≤ width
    pub number : length cs ≡ (symbols symbol).arity
    pub shape : Shape h.memory (symbols symbol).arity (node_at h.nodes.arenas q).args cs
    pub suits : Suits (symbols symbol).arity (node_at h.nodes.arenas q).args
    pub away : Away m₀ h.memory (node_at h.nodes.arenas q).args

  -- A tree of at most so many levels with the root `q`, whose nodes stand between `lo` and `hi`.
  abbrev pub Tree : Heap → Memory → (levels : ℕ) → (q lo hi : NodePtr) → Type 0
  Tree h m₀ zero q lo hi = ⊥
  Tree h m₀ (suc levels) q lo hi =
      (cs : List DagNodePtr) × Planted h m₀ q lo hi cs × Forest (Tree h m₀ levels) cs (next q) hi

  pub Tree-map :
      (h h' : Heap) (m m' : Memory) (levels : ℕ) (q lo hi : NodePtr)
      → ((x a b : NodePtr) (cs : List DagNodePtr)
          → Ahead lo a
          → Ahead b hi
          → Planted h m x a b cs
          → Planted h' m' x a b cs)
      → Tree h m levels q lo hi
      → Tree h' m' levels q lo hi
  Tree-map h h' m m' zero q lo hi f t = t
  Tree-map h h' m m' (suc levels) q lo hi f (cs, p, ts) = (
    cs,
    f q lo hi cs (ground arith) (ground arith) p,
    Forest-map (Tree h m levels) (Tree h' m' levels) cs (next q) hi
        (λ r a b s k. Tree-map h h' m m' levels r a b (λ x a' b' cs' s' k'.
          f x a' b' cs'
            (Ahead-trans lo a a' (Ahead-trans lo (next q) a (let first = p.ahead in ground arith) s)
              s')
            (Ahead-trans b' b hi k' k)))
        ts,
  )

  -- A tree in blocks that were free in `m` stands in blocks that were free before.
  pub Planted-weaken :
      (h : Heap) (m m' : Memory) (q lo hi : NodePtr) (cs : List DagNodePtr)
      → ((a : Address) (n : ℕ) → Held m'.storage a n → Held m.storage a n)
      → Planted h m q lo hi cs
      → Planted h m' q lo hi cs
  Planted-weaken h m m' q lo hi cs f p = record {
    ahead = p.ahead;
    behind = p.behind;
    in_arenas = p.in_arenas;
    in_array = p.in_array;
    symbol = p.symbol;
    named = p.named;
    bounded = p.bounded;
    number = p.number;
    shape = p.shape;
    suits = p.suits;
    away = λ a n k. p.away a n (f a n k);
  }

  -- A node that is left alone, with the blocks of its vector, stays planted.
  pub Planted-Around :
      (h h' : Heap) (B : Address → ℕ → Type 0) (m : Memory) (q lo hi : NodePtr)
      (cs : List DagNodePtr)
      → h.nodes.boxes ≤ h'.nodes.boxes
      → node_at h'.nodes.arenas q ≡ node_at h.nodes.arenas q
      → Around B h.memory h'.memory
      → Safe B h.memory (node_at h.nodes.arenas q).args
      → Planted h m q lo hi cs
      → Planted h' m q lo hi cs
  Planted-Around h h' B m q lo hi cs boxes e r s p =
      let (shape, header) =
        Shape-Around B h.memory h'.memory (symbols p.symbol).arity (node_at h.nodes.arenas q).args
          cs r s p.shape in
      record {
        ahead = p.ahead;
        behind = p.behind;
        in_arenas = (let lt = p.in_arenas in omega (arith, lt));
        in_array = p.in_array;
        symbol = p.symbol;
        named = ap (λ (d : DagNode). d.symbol) e ∙ p.named;
        bounded = p.bounded;
        number = p.number;
        shape =
            subst (λ (d : DagNode). Shape h'.memory (symbols p.symbol).arity d.args cs) (sym e)
              shape;
        suits = subst (λ (d : DagNode). Suits (symbols p.symbol).arity d.args) (sym e) p.suits;
        away =
            subst (λ (d : DagNode). Away m h'.memory d.args) (sym e)
              (λ a n k.
                Outside-SameHeader h.memory h'.memory (node_at h.nodes.arenas q).args a n header
                  (p.away a n k));
      }
