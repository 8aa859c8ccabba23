-- ===== src/Dag/Mark.antt =====
-- `mark` of src/dag_node/node.rs ends, and marks what can be reached.
use mod2gc.Base.{
  ℕ, zero, suc, ◌+◌, ◌≤◌, ◌<◌, ◌≡◌, ◌∙◌, refl, ap, subst, inl, inr, Bool, true, false, ◌&&◌, none,
  some, List, [], ◌∷◌, Outcome, ◌>>=◌, Returns, arith, length, ◌==◌, if◌then◌else◌, Bool-cases,
}
use mod2gc.Flags.{BitFlags}
use mod2gc.Node.{NodePtr, DagNodePtr, DagNode}
use mod2gc.Symbol.{Symbol}
use mod2gc.Storage.{Address}
use mod2gc.Arenas.{Arena, node_at, set_node}
use mod2gc.Vector.{Memory, slot}
use mod2gc.Vector.Owns.{nth, Grows, Grows-trans}
use mod2gc.Dag.{Heap, visit_child, visit_slots}
use mod2gc.Dag.Graph.{
  Graph, Reach, IsGraph, marked_in, unmarked, Progress, Progress-refl, Progress-trans,
}

pub some_injective : {x y : NodePtr} → ◌≡◌ {A = DagNodePtr} (some x) (some y) → x ≡ y
some_injective e = cc

abbrev pub same_place : NodePtr → NodePtr → Bool
same_place q p = (q.arena == p.arena) && (q.index == p.index)

pub same_place-eq : (q p : NodePtr) → same_place q p ≡ true → q ≡ p
same_place-eq q p e =
    let arenas : q.arena ≡ p.arena = ground arith in
    let indices : q.index ≡ p.index = ground arith in
    λ i. record { arena = arenas i; index = indices i }

node_at-set_node :
    (heap : ℕ → Arena) (p q : NodePtr) (d : DagNode)
    → node_at (set_node heap p d) q ≡ (if same_place q p then d else node_at heap q)
node_at-set_node heap p q d = ground arith

pub node_at_self :
    (heap : ℕ → Arena) (p : NodePtr) (d : DagNode) → node_at (set_node heap p d) p ≡ d
node_at_self heap p d = ground arith

pub node_at-other :
    (heap : ℕ → Arena) (p q : NodePtr) (d : DagNode)
    → same_place q p ≡ false
    → node_at (set_node heap p d) q ≡ node_at heap q
node_at-other heap p q d e = node_at-set_node heap p q d ∙ (rw e refl)

pub links-set_node :
    (heap : ℕ → Arena) (p : NodePtr) (d : DagNode) (a : ℕ)
    → (set_node heap p d a).next_arena ≡ (heap a).next_arena
links-set_node heap p d a = ground arith

module _ (ops : BitFlags) (base : ℕ → ℕ) (junk : ℕ → ℕ → DagNode) (symbols : ℕ → Symbol) (g : Graph)
    (R : NodePtr → Type 0) (N : NodePtr → Type 0) where
  null : (j : ℕ) (q : NodePtr) → j < 1 → nth (none ∷ []) j ≡ some q → ⊥
  null zero q lt e = cc
  null (suc j) q lt e = omega arith

  only :
      (h : Heap) (j : ℕ) (q q' : NodePtr)
      → marked_in ops h q ≡ true
      → j < 1
      → nth (some q ∷ []) j ≡ some q'
      → marked_in ops h q' ≡ true
  only h zero q q' m lt e = subst (λ p. marked_in ops h p ≡ true) (some_injective e) m
  only h (suc j) q q' m lt e = absurd (omega arith)

  -- The result of a visit to `p`.
  pub record Visited (h : Heap) (p : NodePtr) (h' : Heap) : Type 0 where
    pub progress : Progress ops g R h h'
    pub graph : IsGraph symbols g N h'
    pub marks : marked_in ops h' p ≡ true

  -- A visit that does this at every reached node of the graph, with few unmarked nodes left.
  abbrev pub Visits : (NodePtr → Heap → Outcome Heap) → ℕ → Type 0
  Visits visit fuel =
      (p : NodePtr) (h : Heap)
      → N p
      → Reach g R p
      → IsGraph symbols g N h
      → unmarked ops h < fuel
      → Returns (Visited h p) (visit p h)

  -- All children from number `i` on are marked.
  pub record Marked (h : Heap) (cs : List DagNodePtr) (i : ℕ) (h' : Heap) : Type 0 where
    pub progress : Progress ops g R h h'
    pub graph : IsGraph symbols g N h'
    pub marks :
        (j : ℕ) (q : NodePtr)
        → i ≤ j
        → j < length cs
        → nth cs j ≡ some q
        → marked_in ops h' q ≡ true

  module _ (visit : NodePtr → Heap → Outcome Heap) (fuel : ℕ) (visits : Visits visit fuel) where
    pub visit_child-Visited :
        (x : DagNodePtr) (h : Heap)
        → ((q : NodePtr) → x ≡ some q → N q × Reach g R q)
        → IsGraph symbols g N h
        → unmarked ops h < fuel
        → Returns (Marked h (x ∷ []) 0) (visit_child ops base junk symbols visit x h)
    visit_child-Visited none h reach graph few = (
      h,
      refl,
      record {
        progress = Progress-refl ops g R h graph.sound;
        graph = graph;
        marks = λ j q le lt e. absurd (null j q lt e);
      },
    )
    visit_child-Visited (some q) h reach graph few =
        let (n, path) = reach q refl in
        let (t, e, v) = visits q h n path graph few in
        (
          t,
          e,
          record {
            progress = v.progress;
            graph = v.graph;
            marks = λ j q' le lt e'. only t j q q' v.marks lt e';
          },
        )

    -- The loop over the slots from `p` on, which hold `cs` whatever is made meanwhile.
    pub visit_slots-Marked :
        (p : Address) (cs : List DagNodePtr) (i left : ℕ) (h : Heap)
        → i + left ≡ length cs
        → ((m : Memory)
            → Grows h.memory m
            → (j : ℕ) → j < length cs
            → m.slots (slot p j) ≡ nth cs j)
        → ((j : ℕ) (q : NodePtr) → j < length cs → nth cs j ≡ some q → N q × Reach g R q)
        → IsGraph symbols g N h
        → unmarked ops h < fuel
        → Returns (Marked h cs i) (visit_slots ops base junk symbols visit p i left h)
    unfolding visit_slots
    visit_slots-Marked p cs i zero h size stays reach graph few = (
      h,
      refl,
      record {
        progress = Progress-refl ops g R h graph.sound;
        graph = graph;
        marks = λ j q le lt e. absurd (omega (arith, size));
      },
    )
    visit_slots-Marked p cs i (suc left) h size stays reach graph few =
        let inside : i < length cs = omega (arith, size) in
        let (t, e, a) = visit_child-Visited (nth cs i) h (λ q eq. reach i q inside eq) graph few in
        let rest : Heap → Outcome Heap = visit_slots ops base junk symbols visit p (i + 1) left in
        let (u, f, b) =
          visit_slots-Marked p cs (i + 1) left t (omega (arith, size))
            (λ m gr j lt. stays m (Grows-trans h.memory t.memory m a.progress.grows gr) j lt) reach
            a.graph (omega (arith, few, a.progress.fewer)) in
        let at = stays h.memory (Progress-refl ops g R h graph.sound).grows i inside in
        (
          u,
          ap (λ x. visit_child ops base junk symbols visit x h >>= rest) at
              ∙ ap (λ m. m >>= rest) e
              ∙ f,
          record {
            progress = Progress-trans ops g R h t u a.progress b.progress;
            graph = b.graph;
            marks = λ j q le lt e. elim (Bool-cases (i == j)) [
              | inl at ↦
                  let same : i ≡ j = ground arith in
                  b.progress.keeps q (a.marks 0 q (omega arith) (omega arith) (rw same e))
              | inr later ↦ b.marks j q (ground arith) lt e
            ];
          },
        )
