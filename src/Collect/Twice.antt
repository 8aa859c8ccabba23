-- ===== src/Collect/Twice.antt =====
-- Two collections with no allocation between them, of src/dag_node/allocator/node_allocator.rs.
use mod2gc.Base.{
  ℕ, ◌+◌, ◌%◌, ◌^◌, ◌≡◌, ◌∙◌, refl, ap, sym, subst, Bool, true, false, none, some, Outcome, ok,
  ◌>>=◌, >>=-eq-ok, undefined, exited, ◌==◌, if◌then◌else◌, is_null, ok_injective,
}
use mod2gc.Flags.{BitFlags}
use mod2gc.Node.{DagNode}
use mod2gc.Arenas.{ArenaPtr, NodeAllocator, first_node, end_of}
use mod2gc.Arenas.Sweep.{sweep_arenas}
use mod2gc.Arenas.Sweep.Tidies.{sweep_arenas-undefined}
use mod2gc.Storage.{sweep_garbage}
use mod2gc.Symbol.{Symbol}
use mod2gc.Dag.{Heap, mark_node}
use mod2gc.Roots.{Roots, mark_roots}
use mod2gc.Collect.{
  Collector, grow, reset_cursor, finish, after_marks, after_sweep, before_marks, collect_garbage,
}

-- The cursor stands at the first node of the first arena.
abbrev pub AtStart : NodeAllocator → Type 0
AtStart s = (a : ℕ) × (s.first_arena ≡ some a) × (s.next_node ≡ some (first_node a))

-- The reset, by the first arena.
abbrev reset_at : NodeAllocator → ℕ → NodeAllocator
reset_at s a = record s {
  current_arena_past_active_arena = false;
  current_arena = some a;
  next_node = some (first_node a);
  end_pointer = some (end_of s.arenas a);
  need_to_collect_garbage = false;
}

abbrev reset_from : NodeAllocator → ArenaPtr → Outcome NodeAllocator
reset_from s p = elim p [ none ↦ undefined | some a ↦ ok (reset_at s a) ]

reset_from-AtStart :
    (s t : NodeAllocator) (p : ArenaPtr) → s.first_arena ≡ p → reset_from s p ≡ ok t → AtStart t
reset_from-AtStart s t none f e = absurd cc
reset_from-AtStart s t (some a) f e =
    let same : reset_at s a ≡ t = ok_injective e in
    (
      a,
      ap (λ (u : NodeAllocator). u.first_arena) (sym same) ∙ f,
      ap (λ (u : NodeAllocator). u.next_node) (sym same),
    )

reset_cursor-AtStart : (s t : NodeAllocator) → reset_cursor s ≡ ok t → AtStart t
unfolding reset_cursor
reset_cursor-AtStart s t e = reset_from-AtStart s t s.first_arena refl e

finish-AtStart :
    (junk : ℕ → ℕ → DagNode) (ideal : ℕ) (s t : NodeAllocator)
    → finish junk ideal s ≡ ok t
    → AtStart t
unfolding finish
finish-AtStart junk ideal s t e =
    let (g, _, last) = >>=-eq-ok (grow junk (ideal + 1) ideal s) reset_cursor e in
    reset_cursor-AtStart g t last

quit_or-AtStart :
    (quit : Bool) (m : Outcome NodeAllocator) (t : NodeAllocator)
    → ((t : NodeAllocator) → m ≡ ok t → AtStart t)
    → (if quit then exited else m) ≡ ok t
    → AtStart t
quit_or-AtStart true m t h e = absurd cc
quit_or-AtStart false m t h e = h t e

module _ (ops : BitFlags) (base : ℕ → ℕ) (junk : ℕ → ℕ → DagNode) (symbols : ℕ → Symbol)
    (ideal_arena_count : ℕ → ℕ) (roots : Roots) where
  after_marks-AtStart :
      (n : ℕ) (h : Heap) (t : Collector)
      → after_marks ops base junk symbols ideal_arena_count roots n h ≡ ok t
      → AtStart t.heap.nodes
  unfolding after_marks
  after_marks-AtStart n h t e =
      let (b, _, e₁) = >>=-eq-ok (sweep_garbage h.memory.storage) _ e in
      let next = finish junk (ideal_arena_count h.nodes.active_node_count) h.nodes in
      let quits = n == h.nodes.early_quit in
      let (s, f, e₂) =
        >>=-eq-ok (if quits then exited else next)
          (λ s. ok (record {
            heap = record { nodes = s; memory = record h.memory { storage = b } };
            gc_count = n;
          }))
          e₁ in
      let same : t.heap.nodes ≡ s = ap (λ (c : Collector). c.heap.nodes) (sym (ok_injective e₂)) in
      subst AtStart (sym same) (
        quit_or-AtStart quits next s
          (λ t e. finish-AtStart junk (ideal_arena_count h.nodes.active_node_count) h.nodes t e) f)

  collected-AtStart :
      (s t : Collector)
      → sweep_arenas ops s.heap.nodes
          >>= after_sweep ops base junk symbols ideal_arena_count roots s
        ≡ ok t
      → AtStart t.heap.nodes
  unfolding after_sweep
  collected-AtStart s t e =
      let (n, _, e₁) =
        >>=-eq-ok (sweep_arenas ops s.heap.nodes)
          (after_sweep ops base junk symbols ideal_arena_count roots s) e in
      let count = (s.gc_count + 1) % 2 ^ 64 in
      let (m, _, e₂) =
        >>=-eq-ok
          (mark_roots (mark_node ops base junk symbols) roots
            (before_marks ops base junk symbols ideal_arena_count roots s.heap n))
          (after_marks ops base junk symbols ideal_arena_count roots count) e₁ in
      after_marks-AtStart count m t e₂

  -- If there is an arena and a collection returns, then a second collection right after it is
  -- undefined: the sweep of the arenas steps to before the first node.
  pub collect_garbage_twice :
      (s t : Collector)
      → is_null s.heap.nodes.first_arena ≡ false
      → collect_garbage ops base junk symbols ideal_arena_count roots s ≡ ok t
      → collect_garbage ops base junk symbols ideal_arena_count roots t ≡ undefined
  unfolding collect_garbage
  collect_garbage_twice s t some_arena e =
      let go : Collector → Outcome Collector = λ s.
        sweep_arenas ops s.heap.nodes
        >>= after_sweep ops base junk symbols ideal_arena_count roots s in
      let (a, first, next) =
        collected-AtStart s t (ap (λ b. if b then ok s else go s) (sym some_arena) ∙ e) in
      ap (λ p. if is_null p then ok t else go t) first
      ∙ ap (λ m. m >>= after_sweep ops base junk symbols ideal_arena_count roots t)
          (sweep_arenas-undefined ops t.heap.nodes a 0 next)
