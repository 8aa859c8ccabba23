-- ===== src/Arenas/Sweep/Loops.antt =====
-- The loops of `sweep_arenas` of src/dag_node/allocator/node_allocator.rs end where they should.
use mod2gc.Base.{
  ℕ, zero, suc, ◌+◌, ◌-◌, ◌≤◌, ◌<◌, ◌≡◌, ◌∙◌, refl, ap, inl, inr, Bool, true, false, not, some, ok,
  Returns, arith, ltb, leb, ◌==◌, Bool-cases, ==-refl, lt→leb, max,
}
use mod2gc.Flags.{BitFlags}
use mod2gc.Node.{NodePtr, same_node}
use mod2gc.Arenas.{arena_size, Arena, end_node, first_node}
use mod2gc.Arenas.Search.{ptr}
use mod2gc.Arenas.Sweep.{Sweep, sweep_node, sweep_nodes, sweep_to_active, sweep_last}
use mod2gc.Arenas.Sweep.Steps.{Sweeping, sweep_node-Sweeping, between}

module _ (ops : BitFlags) (heap : ℕ → Arena) (c i : ℕ) where
  -- A node loop within the arena `b`, whose test is that the index is below `stop`.
  sweep_nodes-Sweeping :
      (continues : NodePtr → Bool) (b stop : ℕ)
      → stop ≤ arena_size
      → (fuel k : ℕ) → ((j : ℕ) → k ≤ j → j ≤ stop → continues (ptr b j) ≡ ltb j stop)
      → k ≤ stop
      → stop - k < fuel
      → (w : Sweep) → Sweeping ops heap c i b k w
      → Returns (Sweeping ops heap c i b stop) (sweep_nodes ops continues fuel w)
  unfolding sweep_nodes
  sweep_nodes-Sweeping continues b stop in_array zero k test le enough w s = absurd (omega arith)
  sweep_nodes-Sweeping continues b stop in_array (suc fuel) k test le enough w s =
      elim (Bool-cases (ltb k stop)) [
        | inl more ↦
            let go : continues w.cursor ≡ true =
              ap continues s.cursor ∙ test k (omega arith) le ∙ more in
            let inside : leb arena_size w.cursor.index ≡ false =
              ap (λ p. leb arena_size p.index) s.cursor ∙ lt→leb arena_size k (ground arith) in
            let (r, e, t) =
              sweep_nodes-Sweeping continues b stop in_array fuel (k + 1)
                (λ j h l. test j (omega arith) l) (ground arith) (ground arith) (sweep_node ops w)
                (sweep_node-Sweeping ops heap c i b k w s (ground arith)) in
            (r, rw (go, inside) e, t)
        | inr done ↦
            let at_stop : k ≡ stop = ground arith in
            let ends : continues w.cursor ≡ false =
              ap continues s.cursor ∙ test k (omega arith) le ∙ done in
            (w, rw ends, rw at_stop at s)
      ]

  -- The cursor goes to the next arena.
  Sweeping-next :
      (b : ℕ) (w : Sweep)
      → Sweeping ops heap c i b arena_size w
      → Sweeping ops heap c i (b + 1) 0 (record w { cursor = first_node (b + 1) })
  Sweeping-next b w s = record {
    cursor = refl;
    m = s.m;
    l = s.l;
    in_array = s.in_array;
    active_arena = s.active_arena;
    active_node = s.active_node;
    start = s.start;
    forward = inl (ground (arith, s.forward));
    before = inl (ground (arith, s.before));
    nodes = λ a j h. s.nodes a j h ∙ rw (same a j h);
    links = s.links;
    bound = λ a j h in_range live. s.bound a j h (same a j h ∙ in_range) live;
  }
    where
      same : (a j : ℕ) → j < arena_size → between c i b arena_size a j ≡ between c i (b + 1) 0 a j
      same a j h = ground arith

  abbrev not_end : ℕ → NodePtr → Bool
  not_end b p = not (same_node (some p) (some (end_node b)))

  -- A round of the arena loop.
  sweep_to_active-suc :
      (last fuel b d : ℕ) (w r q : Sweep)
      → (b == last) ≡ false
      → sweep_nodes ops (not_end b) (arena_size + 1) w ≡ ok r
      → (r.heap b).next_arena ≡ some d
      → sweep_to_active ops (some last) fuel (some d) (record r { cursor = first_node d }) ≡ ok q
      → sweep_to_active ops (some last) (suc fuel) (some b) w ≡ ok q
  unfolding sweep_to_active
  sweep_to_active-suc last fuel b d w r q more e next e' = rw (more, e, next) e'

  module _ (boxes : ℕ) (links : (a : ℕ) → a + 1 < boxes → (heap a).next_arena ≡ some (a + 1))
      (last : ℕ) (exists : last < boxes) where
    -- What the arena loop comes to: the last active arena, at its first node or where it began.
    pub record Reached (b k : ℕ) (w : Sweep) : Type 0 where
      pub index : ℕ
      pub index_in : index ≤ arena_size
      pub sweeping : Sweeping ops heap c i last index w

    pub sweep_to_active-Reached :
        (fuel b k : ℕ) (w : Sweep)
        → b ≤ last
        → last - b < fuel
        → k ≤ arena_size
        → Sweeping ops heap c i b k w
        → Returns (Reached b k) (sweep_to_active ops (some last) fuel (some b) w)
    unfolding sweep_to_active
    sweep_to_active-Reached zero b k w le enough in_array s = absurd (omega arith)
    sweep_to_active-Reached (suc fuel) b k w le enough in_array s = elim (Bool-cases (b == last)) [
      | inl here ↦
          let at_last : b ≡ last = ground arith in
          (w, rw here, record { index = k; index_in = in_array; sweeping = rw at_last at s })
      | inr more ↦
          let (r, e, t) =
            sweep_nodes-Sweeping (not_end b) b arena_size (omega arith) (arena_size + 1) k
              (λ j h l. ground arith) in_array (omega arith) w s in
          let next : (r.heap b).next_arena ≡ some (b + 1) = t.links b ∙ links b (ground arith) in
          let (q, e', u) =
            sweep_to_active-Reached fuel (b + 1) 0 (record r { cursor = first_node (b + 1) })
              (ground arith) (ground arith) (omega arith) (Sweeping-next b r t) in
          (
            q,
            sweep_to_active-suc last fuel b (b + 1) w r q more e next e',
            record { index = u.index; index_in = u.index_in; sweeping = u.sweeping },
          )
    ]

  -- The last loop comes to behind the last active node.
  pub sweep_last-Sweeping :
      (last j k : ℕ) (w : Sweep)
      → j < arena_size
      → k ≤ arena_size
      → Sweeping ops heap c i last k w
      → Returns (Sweeping ops heap c i last (max k (j + 1))) (sweep_last ops (some (ptr last j)) w)
  unfolding sweep_last
  sweep_last-Sweeping last j k w node_in in_array s =
      let here : (w.cursor.arena == last) ≡ true =
        ap (λ p. p.arena == last) s.cursor ∙ ==-refl last in
      let (r, e, t) =
        sweep_nodes-Sweeping (λ p. leb p.index j) last (max k (j + 1)) (omega arith)
          (arena_size + 1) k (λ l h g. ground arith) (omega arith) (omega arith) w s in
      (r, rw here e, t)
