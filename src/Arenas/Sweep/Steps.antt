-- ===== src/Arenas/Sweep/Steps.antt =====
-- What the loops of `sweep_arenas` of src/dag_node/allocator/node_allocator.rs keep to: the nodes
-- passed are swept, and the last one found in use lies before the cursor.
use mod2gc.Base.{
  ℕ, ◌+◌, ◌≤◌, ◌<◌, ◌≡◌, ◌∙◌, refl, ◌⊎◌, inl, inr, Bool, true, false, ◌&&◌, ◌||◌, some, arith, ltb,
  leb, ◌==◌, if◌then◌else◌, Bool-cases,
}
use mod2gc.Flags.{BitFlags, marked}
use mod2gc.Node.{NodePtr, DagNode, is_marked, unmark, clear_flags, needs_destruction}
use mod2gc.Arenas.{arena_size, Arena, drop_in_place, set_node}
use mod2gc.Arenas.Search.{ptr}
use mod2gc.Arenas.Sweep.{Sweep, sweep_node}

-- Nodes in the order of the sweep.
abbrev pub Le : (a j b k : ℕ) → Type 0
Le a j b k = (a < b) ⊎ ((a ≡ b) × (j ≤ k))

-- Node `j` of the arena `a` lies from node `i` of `c` on, and before node `k` of `b`.
abbrev pub between : (c i b k a j : ℕ) → Bool
between c i b k a j = (ltb c a || ((a == c) && leb i j)) && (ltb a b || ((a == b) && ltb j k))

module _ (ops : BitFlags) where
  abbrev pub swept_node : DagNode → DagNode
  swept_node d = if is_marked ops d then unmark ops d else clear_flags ops d

  pub swept_node-unmarked : (d : DagNode) → is_marked ops (swept_node d) ≡ false
  swept_node-unmarked d =
      ground (arith, ops.contains-remove_self d.flags marked, ops.contains-empty marked)

  -- The sweep of `heap` from node `i` of the arena `c` has come to node `k` of `b`; the last node
  -- found in use is node `l` of `m`, or the node before the start.
  pub record Sweeping (heap : ℕ → Arena) (c i b k : ℕ) (w : Sweep) : Type 0 where
    pub cursor : w.cursor ≡ ptr b k
    pub m : ℕ
    pub l : ℕ
    pub in_array : l < arena_size
    pub active_arena : w.active_arena ≡ some m
    pub active_node : w.active_node ≡ some (ptr m l)
    pub start : Le c i m (l + 1)
    pub forward : Le c i b k
    pub before : Le m (l + 1) b k
    pub nodes :
        (a j : ℕ)
        → j < arena_size
        → (w.heap a).nodes j
          ≡ (if between c i b k a j then swept_node ((heap a).nodes j) else (heap a).nodes j)
    pub links : (a : ℕ) → (w.heap a).next_arena ≡ (heap a).next_arena
    pub bound :
        (a j : ℕ)
        → j < arena_size
        → between c i b k a j ≡ true
        → is_marked ops ((heap a).nodes j) ≡ true
        → Le a j m l

  no_drop :
      (heap : ℕ → Arena) (p : NodePtr) (t : Bool)
      → (if t then drop_in_place heap p else heap) ≡ heap
  no_drop heap p true = refl
  no_drop heap p false = refl

  between_self : (c i b k : ℕ) → between c i b k b k ≡ false
  between_self c i b k = ground arith

  -- The nodes, after one more is swept.
  nodes-step :
      (heap : ℕ → Arena) (c i b k : ℕ) (w : Sweep) (s : Sweeping heap c i b k w) (a j : ℕ)
      → j < arena_size
      → (set_node w.heap (ptr b k) (swept_node ((heap b).nodes k)) a).nodes j
        ≡ (if between c i b (k + 1) a j then swept_node ((heap a).nodes j) else (heap a).nodes j)
  nodes-step heap c i b k w s a j h = ground (arith, s.nodes a j, s.forward)

  links-step :
      (heap : ℕ → Arena) (p : NodePtr) (d : DagNode) (a : ℕ)
      → (set_node heap p d a).next_arena ≡ (heap a).next_arena
  links-step heap p d a = ground arith

  sweep_node_used :
      (w : Sweep) (b k : ℕ)
      → w.cursor ≡ ptr b k
      → is_marked ops ((w.heap b).nodes k) ≡ true
      → sweep_node ops w ≡ record {
        heap = set_node w.heap (ptr b k) (swept_node ((w.heap b).nodes k));
        cursor = ptr b (k + 1);
        active_arena = some b;
        active_node = some (ptr b k);
      }
  unfolding sweep_node
  sweep_node_used w b k at used = rw (at, used)

  sweep_node_free :
      (w : Sweep) (b k : ℕ)
      → w.cursor ≡ ptr b k
      → is_marked ops ((w.heap b).nodes k) ≡ false
      → sweep_node ops w ≡ record w {
        heap = set_node w.heap (ptr b k) (swept_node ((w.heap b).nodes k));
        cursor = ptr b (k + 1);
      }
  unfolding sweep_node
  sweep_node_free w b k at free =
      rw (at, free, no_drop w.heap (ptr b k) (needs_destruction ((w.heap b).nodes k)))

  pub sweep_node-Sweeping :
      (heap : ℕ → Arena) (c i b k : ℕ) (w : Sweep)
      → Sweeping heap c i b k w
      → k < arena_size
      → Sweeping heap c i b (k + 1) (sweep_node ops w)
  sweep_node-Sweeping heap c i b k w s room = elim (Bool-cases (is_marked ops ((heap b).nodes k))) [
    | inl used ↦
        rw (sweep_node_used w b k s.cursor (rw same used), same)
          (record {
            cursor = refl;
            m = b;
            l = k;
            in_array = room;
            active_arena = refl;
            active_node = refl;
            start = ground (arith, s.forward);
            forward = ground (arith, s.forward);
            before = inr (refl, omega arith);
            nodes = nodes-step heap c i b k w s;
            links = λ a. links-step w.heap (ptr b k) (swept_node ((heap b).nodes k)) a ∙ s.links a;
            bound = λ a j h in_range live. ground arith;
          })
    | inr free ↦
        rw (sweep_node_free w b k s.cursor (rw same free), same)
          (record {
            cursor = refl;
            m = s.m;
            l = s.l;
            in_array = s.in_array;
            active_arena = s.active_arena;
            active_node = s.active_node;
            start = s.start;
            forward = ground (arith, s.forward);
            before = ground (arith, s.before);
            nodes = nodes-step heap c i b k w s;
            links = λ a. links-step w.heap (ptr b k) (swept_node ((heap b).nodes k)) a ∙ s.links a;
            bound = λ a j h in_range live. elim (Bool-cases (between c i b k a j)) [
              | inl earlier ↦ s.bound a j h earlier live
              | inr here ↦ absurd (ground (arith, free))
            ];
          })
  ]
    where
      same : (w.heap b).nodes k ≡ (heap b).nodes k
      same = s.nodes b k room ∙ rw (between_self c i b k)
