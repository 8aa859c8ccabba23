-- ===== src/Arenas/Allocate/Steps.antt =====
-- The steps of the search for a free node of src/dag_node/allocator/node_allocator.rs keep the
-- invariant: a search within an arena, a move to the next one, and a new one.
use mod2gc.Base.{
  ℕ, ◌+◌, ◌≤◌, ◌≡◌, ◌∙◌, inl, inr, true, false, Option, some, ok, arith, ltb, ◌==◌, Bool-cases,
}
use mod2gc.Flags.{BitFlags}
use mod2gc.Node.{NodePtr, DagNode}
use mod2gc.Arenas.{arena_size, Arena, NodeAllocator}
use mod2gc.Arenas.Search.{ptr, Scanned, Searched, find_free-Searched}
use mod2gc.Arenas.Invariant.{
  IsLinked, marked_at, Marks, AllKept, Forgets, Scanned-unmarked, Scanned-Kept,
}
use mod2gc.Arenas.Allocate.{search}

module _ (ops : BitFlags) (s : NodeAllocator) where
  -- A search from node `i` of the arena `c`.
  pub search-Searched :
      (forget : DagNode → DagNode) (c i e : ℕ)
      → s.next_node ≡ some (ptr c i)
      → s.end_pointer ≡ some (ptr c e)
      → i ≤ e
      → e ≤ arena_size
      → (r : Option NodePtr × (ℕ → Arena)) × (search ops forget s
          ≡ ok (r.0, record s { arenas = r.1 }))
        × Searched ops forget s.arenas c i e r
  unfolding search
  search-Searched forget c i e at ends le in_array =
      let (r, eq, d) =
        find_free-Searched ops forget (arena_size + 1) s.arenas c i e le in_array (omega arith) in
      (r, rw (at, ends, eq), d)

  -- What a search leaves of the invariant, up to the node that it stops at.
  module _ (forget : DagNode → DagNode) (forgets : Forgets ops forget) {heap : ℕ → Arena}
      {c i stop : ℕ} (scan : Scanned ops forget s.arenas c i stop heap) where
    pub Scanned-IsLinked : IsLinked s → IsLinked (record s { arenas = heap })
    Scanned-IsLinked l = record {
      first = l.first;
      last = l.last;
      links = λ a h. scan.links a ∙ l.links a h;
      ends = λ a h. scan.links a ∙ l.ends a h;
      count = l.count;
    }

    pub Scanned-AllKept : AllKept ops s (record s { arenas = heap })
    Scanned-AllKept a j h = Scanned-Kept ops forget forgets scan a j

    -- A node with no mark has none afterwards.
    pub idle :
        (a j : ℕ)
        → marked_at ops s a j ≡ false
        → marked_at ops (record s { arenas = heap }) a j ≡ false
    idle a j h = rw ((Scanned-Kept ops forget forgets scan a j).idle h) h

    pub live :
        (a j : ℕ)
        → marked_at ops (record s { arenas = heap }) a j ≡ true
        → marked_at ops s a j ≡ true
    live a j h = rw ((Scanned-Kept ops forget forgets scan a j).live h) at h

    pub Scanned-Marks : Marks ops s c i → Marks ops (record s { arenas = heap }) c stop
    Scanned-Marks m = record {
      behind_arenas = λ a j lt h. idle a j (m.behind_arenas a j lt h);
      behind_nodes = λ j h. elim (Bool-cases (ltb j i)) [
        | inl before ↦ idle c j (m.behind_nodes j (ground arith))
        | inr passed ↦ Scanned-unmarked ops forget forgets scan j (ground arith) h
      ];
      past = λ p a j lt h. idle a j (m.past p a j lt h);
      active = λ p.
          let t = m.active p in
          record {
            a = t.a;
            j = t.j;
            arena = t.arena;
            node = t.node;
            ahead = t.ahead;
            exists = t.exists;
            in_array = t.in_array;
            bound = λ b k lt h q. t.bound b k lt h (live b k q);
          };
    }

  -- The next node joins those that have no mark.
  pub Marks-suc : (c i : ℕ) → Marks ops s c i → marked_at ops s c i ≡ false → Marks ops s c (i + 1)
  Marks-suc c i m h = record {
    behind_arenas = m.behind_arenas;
    behind_nodes = λ j lt. elim (Bool-cases (j == i)) [
      | inl here ↦ let e : j ≡ i = ground arith in rw e h
      | inr before ↦ m.behind_nodes j (ground arith)
    ];
    past = m.past;
    active = m.active;
  }
