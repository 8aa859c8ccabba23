-- ===== src/Arenas/Sweep/Clears.antt =====
-- What `sweep_arenas` of src/dag_node/allocator/node_allocator.rs leaves: no mark, and a bound on the
-- nodes in use.
use mod2gc.Base.{ℕ, ◌+◌, ◌<◌, ◌≡◌, ◌∙◌, refl, inl, inr, true, false, some, arith, Bool-cases}
use mod2gc.Flags.{BitFlags}
use mod2gc.Node.{DagNode}
use mod2gc.Arenas.{arena_size, NodeAllocator}
use mod2gc.Arenas.Search.{ptr}
use mod2gc.Arenas.Invariant.{marked_at, Marks}
use mod2gc.Arenas.Sweep.{Sweep}
use mod2gc.Arenas.Sweep.Steps.{Sweeping, between, Le, swept_node, swept_node-unmarked}

module _ (ops : BitFlags) where
  -- The same node, but for its flags.
  abbrev pub SameContent : DagNode → DagNode → Type 0
  SameContent d d' = (d'.symbol ≡ d.symbol) × (d'.args ≡ d.args) × (d'.kind ≡ d.kind)

  -- No node of an arena has a mark; node `l` of the arena `m`, the new last active node, is the last
  -- one given out or comes behind it, and no node that had a mark comes behind it.
  pub record Tidy (s : NodeAllocator) (c i : ℕ) (t : NodeAllocator) : Type 0 where
    pub clean : (a j : ℕ) → a < s.boxes → j < arena_size → marked_at ops t a j ≡ false
    pub m : ℕ
    pub l : ℕ
    pub active_arena : t.last_active_arena ≡ some m
    pub active_node : t.last_active_node ≡ some (ptr m l)
    pub exists : m < s.boxes
    pub in_array : l < arena_size
    pub covers_given : Le c i m (l + 1)
    pub covers_live :
        (a j : ℕ) → a < s.boxes → j < arena_size → marked_at ops s a j ≡ true → Le a j m l
    pub content :
        (a j : ℕ) → j < arena_size → SameContent ((s.arenas a).nodes j) ((t.arenas a).nodes j)
    pub links : (a : ℕ) → (t.arenas a).next_arena ≡ (s.arenas a).next_arena
    pub fields : t ≡ record s {
      arenas = t.arenas;
      last_active_arena = t.last_active_arena;
      last_active_node = t.last_active_node;
    }

  pub start_Sweeping :
      (s : NodeAllocator) (c i : ℕ)
      → i < arena_size
      → Sweeping ops s.arenas c (i + 1) c (i + 1) (record {
        heap = s.arenas;
        cursor = ptr c (i + 1);
        active_arena = some c;
        active_node = some (ptr c i);
      })
  start_Sweeping s c i h = record {
    cursor = refl;
    m = c;
    l = i;
    in_array = h;
    active_arena = refl;
    active_node = refl;
    start = inr (refl, omega arith);
    forward = inr (refl, omega arith);
    before = inr (refl, omega arith);
    nodes = λ a j g. ground arith;
    links = λ a. refl;
    bound = λ a j g in_range. absurd (ground arith);
  }

  -- What a sweep that has come behind every mark leaves.
  pub Tidy-of_Sweeping :
      (s : NodeAllocator) (c i e k : ℕ) (w : Sweep)
      → Marks ops s c i
      → e < s.boxes
      → ((a j : ℕ)
          → a < s.boxes
          → j < arena_size
          → marked_at ops s a j ≡ true
          → between c i e k a j ≡ true)
      → Sweeping ops s.arenas c i e k w
      → Tidy s c i (record s {
        arenas = w.heap;
        last_active_arena = w.active_arena;
        last_active_node = w.active_node;
      })
  Tidy-of_Sweeping s c i e k w m lt covered d = record {
    clean = λ a j h g. elim (Bool-cases (between c i e k a j)) [
      | inl inside ↦
          let now : (w.heap a).nodes j ≡ swept_node ops ((s.arenas a).nodes j) =
            d.nodes a j g ∙ rw inside in
          rw now (swept_node-unmarked ops ((s.arenas a).nodes j))
      | inr outside ↦
          let now : (w.heap a).nodes j ≡ (s.arenas a).nodes j = d.nodes a j g ∙ rw outside in
          rw now (elim (Bool-cases (marked_at ops s a j)) [
            | inr clean ↦ clean
            | inl live ↦ absurd (ground (arith, covered a j h g live))
          ])
    ];
    m = d.m;
    l = d.l;
    active_arena = d.active_arena;
    active_node = d.active_node;
    exists = ground (arith, d.before);
    in_array = d.in_array;
    covers_given = d.start;
    covers_live = λ a j h g live. d.bound a j g (covered a j h g live) live;
    content = λ a j g. ground (arith, d.nodes a j g);
    links = d.links;
    fields = refl;
  }
