-- ===== src/Arenas/Invariant.antt =====
-- The invariant of `NodeAllocator` of src/dag_node/allocator/node_allocator.rs: the arenas in a row,
-- the cursor in one of them, no mark behind the cursor, and none behind the last active node.
use mod2gc.Base.{
  ℕ, ◌+◌, ◌-◌, ◌%◌, ◌^◌, ◌≤◌, ◌<◌, ◌≡◌, ◌∙◌, refl, ◌⊎◌, inl, inr, Bool, true, false, ◌&&◌, none,
  some, arith, ltb, leb, ◌==◌, if◌then◌else◌, Bool-cases,
}
use mod2gc.Flags.{BitFlags, marked}
use mod2gc.Node.{DagNode, is_marked, unmark, clear_flags}
use mod2gc.Arenas.{arena_size, Arena, NodeAllocator}
use mod2gc.Arenas.Search.{ptr, Scanned}

-- The arenas are linked in the order of their numbers.
pub record IsLinked (s : NodeAllocator) : Type 0 where
  pub first : s.first_arena ≡ (if s.boxes == 0 then none else some 0)
  pub last : s.last_arena ≡ (if s.boxes == 0 then none else some (s.boxes - 1))
  pub links : (a : ℕ) → a + 1 < s.boxes → (s.arenas a).next_arena ≡ some (a + 1)
  pub ends : (a : ℕ) → a + 1 ≡ s.boxes → (s.arenas a).next_arena ≡ none
  pub count : s.arena_count ≡ s.boxes % 2 ^ 32

-- No arena has been made.
pub record IsFresh (s : NodeAllocator) : Type 0 where
  pub no_arena : s.boxes ≡ 0
  pub no_current : s.current_arena ≡ none
  pub no_next : s.next_node ≡ none
  pub no_end : s.end_pointer ≡ none
  pub past : s.current_arena_past_active_arena ≡ true

-- The current arena is `c`, and its search ends at `e`, short of the array's end only in the last.
pub record Place (s : NodeAllocator) (c e : ℕ) : Type 0 where
  pub exists : c < s.boxes
  pub current : s.current_arena ≡ some c
  pub end : s.end_pointer ≡ some (ptr c e)
  pub in_array : e ≤ arena_size
  pub full : (e ≡ arena_size) ⊎ (c + 1 ≡ s.boxes)

-- The links say nothing of the other fields.
pub IsLinked-same :
    (s t : NodeAllocator)
    → t.arenas ≡ s.arenas
    → t.boxes ≡ s.boxes
    → t.first_arena ≡ s.first_arena
    → t.last_arena ≡ s.last_arena
    → t.arena_count ≡ s.arena_count
    → IsLinked s
    → IsLinked t
IsLinked-same s t ea eb ef el ec l = record {
  first = rw (ef, eb) l.first;
  last = rw (el, eb) l.last;
  links = λ a h. rw ea (l.links a (rw eb at h));
  ends = λ a h. rw ea (l.ends a (rw eb at h));
  count = rw (ec, eb) l.count;
}

pub Place-same :
    (s t : NodeAllocator) (c e : ℕ)
    → t.boxes ≡ s.boxes
    → t.current_arena ≡ s.current_arena
    → t.end_pointer ≡ s.end_pointer
    → Place s c e
    → Place t c e
Place-same s t c e eb ec ee p = record {
  exists = rw eb p.exists;
  current = rw ec p.current;
  end = rw ee p.end;
  in_array = p.in_array;
  full = rw eb p.full;
}

module _ (ops : BitFlags) where
  abbrev pub marked_at : NodeAllocator → (a j : ℕ) → Bool
  marked_at s a j = is_marked ops ((s.arenas a).nodes j)

  -- The last active node is `j` of the arena `a`: there is no mark behind it.
  pub record Active (s : NodeAllocator) (c : ℕ) : Type 0 where
    pub a : ℕ
    pub j : ℕ
    pub arena : s.last_active_arena ≡ some a
    pub node : s.last_active_node ≡ some (ptr a j)
    pub ahead : c ≤ a
    pub exists : a < s.boxes
    pub in_array : j < arena_size
    pub bound :
        (b k : ℕ)
        → b < s.boxes
        → k < arena_size
        → marked_at s b k ≡ true
        → (b < a) ⊎ ((b ≡ a) × (k ≤ j))

  -- No mark stands before node `i` of the arena `c`, nor behind the last active node.
  pub record Marks (s : NodeAllocator) (c i : ℕ) : Type 0 where
    pub behind_arenas : (a j : ℕ) → a < c → j < arena_size → marked_at s a j ≡ false
    pub behind_nodes : (j : ℕ) → j < i → marked_at s c j ≡ false
    pub past :
        s.current_arena_past_active_arena ≡ true
        → (a j : ℕ) → a < s.boxes
        → j < arena_size
        → marked_at s a j ≡ false
    pub active : s.current_arena_past_active_arena ≡ false → Active s c

  pub Marks-same :
      (s t : NodeAllocator) (c i : ℕ)
      → t.arenas ≡ s.arenas
      → t.boxes ≡ s.boxes
      → t.current_arena_past_active_arena ≡ s.current_arena_past_active_arena
      → t.last_active_arena ≡ s.last_active_arena
      → t.last_active_node ≡ s.last_active_node
      → Marks s c i
      → Marks t c i
  Marks-same s t c i ea eb ep el en m = record {
    behind_arenas = λ a j lt h. rw ea (m.behind_arenas a j lt h);
    behind_nodes = λ j h. rw ea (m.behind_nodes j h);
    past = λ q a j lt h. rw ea (m.past (rw ep at q) a j (rw eb at lt) h);
    active = λ q.
        let w = m.active (rw ep at q) in
        record {
          a = w.a;
          j = w.j;
          arena = el ∙ w.arena;
          node = en ∙ w.node;
          ahead = w.ahead;
          exists = rw eb w.exists;
          in_array = w.in_array;
          bound = λ b k lt h y. w.bound b k (rw eb at lt) h (rw ea at y);
        };
  }

  -- A node keeps all but its flags; a node with no mark is left alone, and no mark is put.
  pub record Kept (d d' : DagNode) : Type 0 where
    pub symbol : d'.symbol ≡ d.symbol
    pub args : d'.args ≡ d.args
    pub kind : d'.kind ≡ d.kind
    pub idle : is_marked ops d ≡ false → d' ≡ d
    pub live : is_marked ops d' ≡ true → d' ≡ d

  abbrev pub AllKept : (s s' : NodeAllocator) → Type 0
  AllKept s s' = (a j : ℕ) → a < s.boxes → Kept ((s.arenas a).nodes j) ((s'.arenas a).nodes j)

  -- What a node loses when it is passed.
  pub record Forgets (forget : DagNode → DagNode) : Type 0 where
    pub symbol : (d : DagNode) → (forget d).symbol ≡ d.symbol
    pub args : (d : DagNode) → (forget d).args ≡ d.args
    pub kind : (d : DagNode) → (forget d).kind ≡ d.kind
    pub unmarked : (d : DagNode) → is_marked ops (forget d) ≡ false

  pub unmark-Forgets : Forgets (unmark ops)
  unmark-Forgets = record {
    symbol = λ d. refl;
    args = λ d. refl;
    kind = λ d. refl;
    unmarked = λ d. ops.contains-remove_self d.flags marked;
  }

  pub clear_flags-Forgets : Forgets (clear_flags ops)
  clear_flags-Forgets = record {
    symbol = λ d. refl;
    args = λ d. refl;
    kind = λ d. refl;
    unmarked = λ d. ops.contains-empty marked;
  }

  pub Kept-refl : (d : DagNode) → Kept d d
  Kept-refl d = record {
    symbol = refl;
    args = refl;
    kind = refl;
    idle = λ h. refl;
    live = λ h. refl;
  }

  pub Kept-trans : (d e f : DagNode) → Kept d e → Kept e f → Kept d f
  Kept-trans d e f k l = record {
    symbol = l.symbol ∙ k.symbol;
    args = l.args ∙ k.args;
    kind = l.kind ∙ k.kind;
    idle = λ h. let q = k.idle h in l.idle (rw q h) ∙ q;
    live = λ h. let q = l.live h in q ∙ k.live (rw (← q) h);
  }

  Kept-forget :
      (forget : DagNode → DagNode)
      → Forgets forget
      → (d : DagNode) → is_marked ops d ≡ true
      → Kept d (forget d)
  Kept-forget forget forgets d m = record {
    symbol = forgets.symbol d;
    args = forgets.args d;
    kind = forgets.kind d;
    idle = λ h. absurd (ground arith);
    live = λ h. absurd (ground (arith, forgets.unmarked d));
  }

  module _ (forget : DagNode → DagNode) (forgets : Forgets forget) {heap heap' : ℕ → Arena}
      {c i stop : ℕ} (scan : Scanned ops forget heap c i stop heap') where
    -- Behind a search the nodes that it passed have no mark, and all nodes keep what is theirs.
    pub Scanned-unmarked : (j : ℕ) → i ≤ j → j < stop → is_marked ops ((heap' c).nodes j) ≡ false
    Scanned-unmarked j le lt = ground (arith, scan.nodes c j, forgets.unmarked ((heap c).nodes j))

    pub Scanned-Kept : (a j : ℕ) → Kept ((heap a).nodes j) ((heap' a).nodes j)
    Scanned-Kept a j = elim (Bool-cases ((a == c) && (leb i j && ltb j stop))) [
      | inr outside ↦
          let same : (heap' a).nodes j ≡ (heap a).nodes j = scan.nodes a j ∙ rw outside in
          rw same (Kept-refl ((heap a).nodes j))
      | inl inside ↦
          let here : a ≡ c = ground arith in
          let passed : (heap' a).nodes j ≡ forget ((heap a).nodes j) = scan.nodes a j ∙ rw inside in
          rw passed (
            Kept-forget forget forgets ((heap a).nodes j)
              (rw here (scan.marks j (ground arith) (ground arith))))
    ]
