-- ===== src/Arenas/Allocate/Obtained.antt =====
-- What it means that `slow_new_dag_node` of src/dag_node/allocator/node_allocator.rs finds a node.
use mod2gc.Base.{
  ℕ, ◌+◌, ◌≤◌, ◌<◌, ◌≡◌, ◌∙◌, refl, ◌⊎◌, inl, inr, true, false, none, some, arith, ◌&&◌, ◌==◌, ltb,
  Bool-cases,
}
use mod2gc.Flags.{BitFlags}
use mod2gc.Node.{NodePtr, DagNode}
use mod2gc.Arenas.{arena_size, Arena, NodeAllocator}
use mod2gc.Arenas.Search.{Searched}
use mod2gc.Arenas.Invariant.{
  IsLinked, Place, marked_at, Marks, AllKept, Forgets, Kept-trans, Place-same,
}
use mod2gc.Arenas.Allocate.Steps.{Scanned-IsLinked, Scanned-AllKept, Scanned-Marks, Marks-suc, idle}

pub Place-arenas :
    (s : NodeAllocator) (c e : ℕ) (heap : ℕ → Arena)
    → Place s c e
    → Place (record s { arenas = heap }) c e
Place-arenas s c e heap = Place-same s (record s { arenas = heap }) c e refl refl refl

module _ (ops : BitFlags) where
  -- What it means to find the node `r.0` from node `i` of the arena `c` on: it lies ahead, inside an
  -- arena, had no mark if its arena is an old one, and the invariant holds with the cursor behind it.
  pub record Obtained (s : NodeAllocator) (c i : ℕ) (r : NodePtr × NodeAllocator) : Type 0 where
    pub end : ℕ
    pub place : Place r.1 r.0.arena end
    pub room : r.0.index < end
    pub marks : Marks ops r.1 r.0.arena (r.0.index + 1)
    pub linked : IsLinked r.1
    pub kept : AllKept ops s r.1
    pub free : r.0.arena < s.boxes → marked_at ops s r.0.arena r.0.index ≡ false
    pub ahead : (c < r.0.arena) ⊎ ((r.0.arena ≡ c) × (i ≤ r.0.index))
    pub grown : s.boxes ≤ r.1.boxes
    pub old_or_first : (r.0.arena < s.boxes) ⊎ ((r.0.arena ≡ s.boxes) × (r.0.index ≡ 0))
    pub counted : r.1.active_node_count ≡ s.active_node_count
    pub passed :
        (a j : ℕ)
        → a < s.boxes
        → j < arena_size
        → (c < a) ⊎ ((a ≡ c) × (i ≤ j))
        → (a < r.0.arena) ⊎ ((a ≡ r.0.arena) × (j < r.0.index))
        → marked_at ops s a j ≡ true
    pub untouched :
        (a j : ℕ)
        → a < s.boxes
        → (r.0.arena < a) ⊎ ((a ≡ r.0.arena) × (r.0.index ≤ j))
        → (r.1.arenas a).nodes j ≡ (s.arenas a).nodes j

  -- A search that finds a node.
  pub Obtained-of_found :
      (forget : DagNode → DagNode)
      → Forgets ops forget
      → (s : NodeAllocator) (c i e : ℕ) (p : NodePtr) (heap : ℕ → Arena) → IsLinked s
      → Place s c e
      → Marks ops s c i
      → Searched ops forget s.arenas c i e (some p, heap)
      → Obtained s c i (p, record s { arenas = heap })
  Obtained-of_found forget forgets s c i e p heap l place m d = rw d.result.0 (record {
    end = e;
    place = Place-arenas s c e heap place;
    room = d.result.1;
    marks =
        Marks-suc ops (record s { arenas = heap }) c d.stop
          (Scanned-Marks ops s forget forgets d.scanned m)
          (idle ops s forget forgets d.scanned c d.stop d.result.2);
    linked = Scanned-IsLinked ops s forget forgets d.scanned l;
    kept = Scanned-AllKept ops s forget forgets d.scanned;
    free = λ h. d.result.2;
    ahead = inr (refl, d.scanned.forward);
    grown = omega arith;
    old_or_first = inl place.exists;
    counted = refl;
    passed = λ a j h lt from before. ground (arith, d.scanned.marks j, from, before);
    untouched = λ a j h further. ground (arith, d.scanned.nodes a j);
  })

  -- A search that comes to its end, and a node found from there on.
  pub Obtained-of_rest :
      (forget : DagNode → DagNode)
      → Forgets ops forget
      → (s : NodeAllocator) (c i e : ℕ) (heap : ℕ → Arena) (r : NodePtr × NodeAllocator)
      → Searched ops forget s.arenas c i e (none, heap)
      → Obtained (record s { arenas = heap }) c e r
      → Obtained s c i r
  Obtained-of_rest forget forgets s c i e heap r d o = record {
    end = o.end;
    place = o.place;
    room = o.room;
    marks = o.marks;
    linked = o.linked;
    kept = λ a j h.
        Kept-trans ops ((s.arenas a).nodes j) ((heap a).nodes j) ((r.1.arenas a).nodes j)
          (Scanned-AllKept ops s forget forgets d.scanned a j h) (o.kept a j h);
    free = λ h. rw same at (o.free h);
    ahead = ground (arith, d.scanned.forward, d.upto, o.ahead, d.result);
    grown = o.grown;
    old_or_first = o.old_or_first;
    counted = o.counted;
    passed = λ a j h lt from before. elim (Bool-cases ((a == c) && ltb j e)) [
      | inl searched ↦
          let same : a ≡ c = ground arith in
          rw same (d.scanned.marks j (ground (arith, from)) (ground (arith, d.result)))
      | inr rest ↦
          let still : (heap a).nodes j ≡ (s.arenas a).nodes j =
            ground (arith, d.scanned.nodes a j, d.result) in
          rw still at (o.passed a j h lt (ground (arith, from)) before)
    ];
    untouched = λ a j h further. o.untouched a j h further ∙ behind a j further;
  }
    where
      same : (heap r.0.arena).nodes r.0.index ≡ (s.arenas r.0.arena).nodes r.0.index
      same = ground (arith, d.scanned.nodes r.0.arena r.0.index, o.ahead, d.result)

      behind :
          (a j : ℕ)
          → (r.0.arena < a) ⊎ ((a ≡ r.0.arena) × (r.0.index ≤ j))
          → (heap a).nodes j ≡ (s.arenas a).nodes j
      behind a j further = ground (arith, d.scanned.nodes a j, o.ahead, d.result)

  -- A move to more room, and a node found from there on.
  pub Obtained-of_move :
      (s s₁ : NodeAllocator) (c i c₁ i₁ : ℕ) (r : NodePtr × NodeAllocator)
      → s₁.arenas ≡ s.arenas
      → s₁.boxes ≡ s.boxes
      → s₁.active_node_count ≡ s.active_node_count
      → (c < c₁) ⊎ ((c₁ ≡ c) × (i ≤ i₁))
      → ((a j : ℕ)
          → j < arena_size
          → (c < a) ⊎ ((a ≡ c) × (i ≤ j))
          → (c₁ < a) ⊎ ((a ≡ c₁) × (i₁ ≤ j)))
      → Obtained s₁ c₁ i₁ r
      → Obtained s c i r
  Obtained-of_move s s₁ c i c₁ i₁ r same boxes count further gap o = record {
    end = o.end;
    place = o.place;
    room = o.room;
    marks = o.marks;
    linked = o.linked;
    kept = λ a j h. rw (← same) (o.kept a j (rw boxes h));
    free = λ h. rw (← same) (o.free (rw boxes h));
    ahead = ground (arith, o.ahead);
    grown = omega (arith, o.grown);
    old_or_first = rw (← boxes) o.old_or_first;
    counted = o.counted ∙ count;
    passed =
        λ a j h lt from before. rw (← same) (o.passed a j (rw boxes h) lt (gap a j lt from) before);
    untouched = λ a j h further. rw (← same) (o.untouched a j (rw boxes h) further);
  }
