-- ===== src/Arenas/Allocate/Reuse.antt =====
-- Which nodes `allocate_dag_node` of src/dag_node/allocator/node_allocator.rs passes by.
use mathlib.Core.List.{Memᴰ}
use mod2gc.Base.{
  ℕ, zero, suc, ◌+◌, ◌*◌, ◌≤◌, ◌<◌, ◌≡◌, refl, ap, ◌∙◌, ◌⊎◌, inl, inr, false, List, [], ◌∷◌,
  Returns, arith, ltb, ◌==◌, ◌&&◌, ◌||◌, Bool-cases,
}
use mod2gc.Flags.{BitFlags}
use mod2gc.Node.{NodePtr, DagNode, is_marked}
use mod2gc.Arenas.{arena_size, NodeAllocator}
use mod2gc.Arenas.Invariant.{marked_at}
use mod2gc.Arenas.Allocate.Extend.{NoMarks}
use mod2gc.Arenas.Allocate.Safety.{Started, allocate_dag_node-Given}
use mod2gc.Arenas.Allocate.Sequence.{From, allocate_times}

-- A node from the position `(c, i)` on stands before `p`, is `p`, or stands behind it.
pub data Where (p q : NodePtr) : Type 0 where
  before : (q.arena < p.arena) ⊎ ((q.arena ≡ p.arena) × (q.index < p.index)) → Where p q
  same : q ≡ p → Where p q
  behind : From p.arena (p.index + 1) q → Where p q

same_fields : (q p : NodePtr) → q.arena ≡ p.arena → q.index ≡ p.index → q ≡ p
same_fields q p e f = λ i. record { arena = e i; index = f i }

where_is : (p q : NodePtr) → Where p q
where_is p q =
    elim (Bool-cases (ltb q.arena p.arena || ((q.arena == p.arena) && ltb q.index p.index))) [
      | inl it_is ↦ before (ground arith)
      | inr other ↦ elim (Bool-cases ((q.arena == p.arena) && (q.index == p.index))) [
        | inl it_is ↦ same (same_fields q p (ground arith) (ground arith))
        | inr later ↦ behind (ground arith)
      ]
    ]

-- Each node given is at least one place further on.
further_on :
    (c i : ℕ) (p : NodePtr) (a b n : ℕ)
    → i ≤ arena_size
    → From c i p
    → (p.arena * arena_size + (p.index + 1)) + n ≤ a * arena_size + b
    → (c * arena_size + i) + suc n ≤ a * arena_size + b
further_on c i p a b n small (inl lt) le = omega (arith, small, lt, le)
further_on c i p a b n small (inr (e, first)) le = omega (arith, e, first, le)

-- A node of the old arenas does not stand behind as many places as they have.
too_far :
    (q : NodePtr) (a b boxes : ℕ)
    → b ≤ arena_size
    → q.arena < boxes
    → q.index < arena_size
    → From a b q
    → boxes * arena_size ≤ a * arena_size + b
    → ⊥
too_far q a b boxes small lt h (inl early) le = omega (arith, small, lt, h, early, le)
too_far q a b boxes small lt h (inr (e, first)) le = omega (arith, lt, h, e, first, le)

module _ (ops : BitFlags) (junk : ℕ → ℕ → DagNode) where
  -- The allocator stands at node `b` of the arena `a`, and each node of the old arenas from `(c, i)` on
  -- that had no mark has been given out, or still stands before it.
  pub record Reused (s : NodeAllocator) (c i n : ℕ) (r : List NodePtr × NodeAllocator)
      : Type 0 where
    pub a : ℕ
    pub b : ℕ
    pub started : Started ops r.1 a b
    pub further : (c * arena_size + i) + n ≤ a * arena_size + b
    pub nothing_lost :
        (q : NodePtr)
        → q.arena < s.boxes
        → q.index < arena_size
        → From c i q
        → marked_at ops s q.arena q.index ≡ false
        → Memᴰ q r.0 ⊎ From a b q

  module _ (clean : NoMarks ops junk) where
    pub allocate_times-Reused :
        (n : ℕ) (s : NodeAllocator) (c i : ℕ)
        → Started ops s c i
        → Returns (Reused s c i n) (allocate_times ops junk n s)
    unfolding allocate_times
    allocate_times-Reused zero s c i st = (
      ([], s),
      refl,
      record {
        a = c;
        b = i;
        started = st;
        further = omega arith;
        nothing_lost = λ q lt h from dead. inr from;
      },
    )
    allocate_times-Reused (suc n) s c i st =
        let (r, e, g) = allocate_dag_node-Given ops junk clean s c i st in
        let (q, e', t) = allocate_times-Reused n r.1 r.0.arena (r.0.index + 1) g.started in
        (
          (r.0 ∷ q.0, q.1),
          rw (e, e'),
          record {
            a = t.a;
            b = t.b;
            started = t.started;
            further =
                further_on c i r.0 t.a t.b n (omega (arith, st.order, st.place.in_array)) g.ahead
                  t.further;
            nothing_lost = λ x lt h from dead. elim (where_is r.0 x) [
              | before early ↦
                  (let live = g.passed x.arena x.index lt h from early in cc (live, dead))
              | same e ↦ inl (Memᴰ.head e)
              | behind later ↦
                  let same_node = g.untouched x.arena x.index lt (ground (arith, later)) in
                  let next =
                    t.nothing_lost x (let le = g.grown in omega (arith, lt, le)) h later
                      (ap (is_marked ops) same_node ∙ dead) in
                  elim next [ inl m ↦ inl (Memᴰ.tail m) | inr ahead ↦ inr ahead ]
            ];
          },
        )

    -- After as many calls as there are places ahead, each of them has been given out.
    pub all_reused :
        (boxes n : ℕ) (s : NodeAllocator) (c i : ℕ)
        → boxes ≤ s.boxes
        → boxes * arena_size ≤ (c * arena_size + i) + n
        → (r : List NodePtr × NodeAllocator) → Reused s c i n r
        → (q : NodePtr) → q.arena < boxes
        → q.index < arena_size
        → From c i q
        → marked_at ops s q.arena q.index ≡ false
        → Memᴰ q r.0
    all_reused boxes n s c i old enough r w q lt h from dead =
        elim (w.nothing_lost q (omega (arith, lt, old)) h from dead) [
          | inl m ↦ m
          | inr ahead ↦ absurd (
              too_far q w.a w.b boxes
                (let end = w.started.order in
                  let size = w.started.place.in_array in omega (arith, end, size))
                lt h ahead (let le = w.further in omega (arith, le, enough)))
        ]
