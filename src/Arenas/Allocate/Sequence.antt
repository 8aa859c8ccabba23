-- ===== src/Arenas/Allocate/Sequence.antt =====
-- Calls of `allocate_dag_node` of src/dag_node/allocator/node_allocator.rs with no collection between
-- them.
use mod2gc.Base.{
  ℕ, zero, suc, ◌+◌, ◌≤◌, ◌<◌, ◌≡◌, refl, ◌⊎◌, false, List, [], ◌∷◌, Outcome, ok, ◌>>=◌, Returns,
  arith, length, All, All-map, All-zip,
}
use mod2gc.Flags.{BitFlags}
use mod2gc.Node.{NodePtr, DagNode}
use mod2gc.Arenas.{arena_size, Arena, NodeAllocator, new}
use mod2gc.Arenas.Invariant.{IsLinked, IsFresh, marked_at}
use mod2gc.Arenas.Allocate.{allocate_dag_node}
use mod2gc.Arenas.Allocate.Extend.{NoMarks}
use mod2gc.Arenas.Allocate.Safety.{Started, Given, allocate_dag_node-Given, allocate_dag_node_first}

-- `q` stands at node `i` of the arena `c` or behind it.
abbrev pub From : (c i : ℕ) → NodePtr → Type 0
From c i q = (c < q.arena) ⊎ ((q.arena ≡ c) × (i ≤ q.index))

-- Each node stands behind those before it in the list.
abbrev pub Ascends : List NodePtr → Type 0
Ascends [] = Unit
Ascends (p ∷ ps) = All (From p.arena (p.index + 1)) ps × Ascends ps

module _ (ops : BitFlags) (junk : ℕ → ℕ → DagNode) where
  unfoldable pub allocate_times : ℕ → NodeAllocator → Outcome (List NodePtr × NodeAllocator)
  allocate_times zero s = ok ([], s)
  allocate_times (suc n) s = do
    (p, s₁) ← allocate_dag_node ops junk s
    (ps, s₂) ← allocate_times n s₁
    ok (p ∷ ps, s₂)

  -- What `n` calls give: `n` nodes of the arenas, each behind those before it, none of which had a
  -- mark when the first call was made.
  pub record Supplied (s : NodeAllocator) (c i n : ℕ) (r : List NodePtr × NodeAllocator)
      : Type 0 where
    pub number : length r.0 ≡ n
    pub from : All (From c i) r.0
    pub ascends : Ascends r.0
    pub in_arrays : All (λ p. p.index < arena_size) r.0
    pub free : All (λ p. p.arena < s.boxes → marked_at ops s p.arena p.index ≡ false) r.0
    pub arena : ℕ
    pub index : ℕ
    pub started : Started ops r.1 arena index

From-trans : (p q : NodePtr) (c i : ℕ) → From c i p → From p.arena (p.index + 1) q → From c i q
From-trans p q c i h k = ground arith

module _ (ops : BitFlags) (junk : ℕ → ℕ → DagNode) (clean : NoMarks ops junk) where
  -- A node behind the one given had no mark before, if it has none afterwards.
  still_free :
      (s : NodeAllocator) (c i : ℕ) (r : NodePtr × NodeAllocator)
      → Given ops s c i r
      → (p : NodePtr) → From r.0.arena (r.0.index + 1) p
      → (p.arena < r.1.boxes → marked_at ops r.1 p.arena p.index ≡ false)
      → p.arena < s.boxes
      → marked_at ops s p.arena p.index ≡ false
  still_free s c i r g p from now old =
      rw (← g.untouched p.arena p.index old (ground (arith, from))) (now (omega (arith, g.grown)))

  -- From a state that satisfies the invariant with the cursor in an arena, and with no mark in the
  -- memory of new arenas, `n` calls of `allocate_dag_node` give `n` nodes of the arenas; each lies
  -- behind those before it, so that they differ, and none in an old arena was marked when the
  -- first call was made.
  pub allocate_times-Supplied :
      (n : ℕ) (s : NodeAllocator) (c i : ℕ)
      → Started ops s c i
      → Returns (Supplied ops junk s c i n) (allocate_times ops junk n s)
  unfolding allocate_times
  allocate_times-Supplied zero s c i st = (
    ([], s),
    refl,
    record {
      number = refl;
      from = tt;
      ascends = tt;
      in_arrays = tt;
      free = tt;
      arena = c;
      index = i;
      started = st;
    },
  )
  allocate_times-Supplied (suc n) s c i st =
      let (r, e, g) = allocate_dag_node-Given ops junk clean s c i st in
      let (q, e', t) = allocate_times-Supplied n r.1 r.0.arena (r.0.index + 1) g.started in
      (
        (r.0 ∷ q.0, q.1),
        rw (e, e'),
        record {
          number = omega (arith, t.number);
          from = (g.ahead, All-map _ (From c i) q.0 (λ p h. From-trans r.0 p c i g.ahead h) t.from);
          ascends = (t.from, t.ascends);
          in_arrays = (g.in_array, t.in_arrays);
          free = (
            g.free,
            All-map _ _ q.0 (λ p h. still_free s c i r g p h.0 h.1) (All-zip _ _ q.0 t.from t.free),
          );
          arena = t.arena;
          index = t.index;
          started = t.started;
        },
      )

new-IsLinked : (heap : ℕ → Arena) → IsLinked (new heap)
unfolding new
new-IsLinked heap = record {
  first = refl;
  last = refl;
  links = λ a h. absurd (omega arith);
  ends = λ a h. absurd (omega arith);
  count = refl;
}

new-IsFresh : (heap : ℕ → Arena) → IsFresh (new heap)
unfolding new
new-IsFresh heap = record {
  no_arena = refl;
  no_current = refl;
  no_next = refl;
  no_end = refl;
  past = refl;
}

-- A new allocator, with no mark in the memory of new arenas, gives its first node, the first of a
-- first arena, and satisfies the invariant with the cursor behind it.
pub allocate_new_first :
    (ops : BitFlags) (junk : ℕ → ℕ → DagNode) (heap : ℕ → Arena)
    → NoMarks ops junk
    → Returns (Given ops (new heap) 0 0) (allocate_dag_node ops junk (new heap))
allocate_new_first ops junk heap clean =
    allocate_dag_node_first ops junk clean (new heap) (new-IsLinked heap) (new-IsFresh heap)
