-- ===== src/Arenas/Sweep/Tidies.antt =====
-- `sweep_arenas` of src/dag_node/allocator/node_allocator.rs, called after some allocation and called
-- right after a collection.
use mod2gc.Base.{
  Bool, ℕ, ◌+◌, ◌<◌, ◌≡◌, ◌∙◌, refl, ap, inl, inr, false, some, Outcome, ok, ◌>>=◌, undefined,
  Returns, arith, if◌then◌else◌, Bool-cases, max,
}
use mod2gc.Flags.{BitFlags}
use mod2gc.Node.{DagNodePtr, add, NodePtr}
use mod2gc.Arenas.{ArenaPtr, arena_size, NodeAllocator}
use mod2gc.Arenas.Search.{ptr}
use mod2gc.Arenas.Allocate.Safety.{Started}
use mod2gc.Arenas.Sweep.{Sweep, sub_one, sweep_to_active, sweep_last, sweep_arenas}
use mod2gc.Arenas.Sweep.Loops.{sweep_to_active-Reached, sweep_last-Sweeping}
use mod2gc.Arenas.Sweep.Clears.{Tidy, start_Sweeping, Tidy-of_Sweeping}

module _ (ops : BitFlags) (s : NodeAllocator) (c i : ℕ) where
  abbrev start : Sweep
  start = record {
    heap = s.arenas;
    cursor = ptr c (i + 1);
    active_arena = some c;
    active_node = some (ptr c i);
  }

  abbrev put_back : Sweep → NodeAllocator
  put_back w = record s {
    arenas = w.heap;
    last_active_arena = w.active_arena;
    last_active_node = w.active_node;
  }

  -- What `sweep_arenas` does from its cursor on, by the fields that it reads.
  abbrev rest :
      (before : NodePtr) (here : ArenaPtr) (past : Bool) (arena : ArenaPtr) (last : DagNodePtr)
      → Outcome NodeAllocator
  rest before here past arena last =
      let w₀ : Sweep = record {
        heap = s.arenas;
        cursor = add before 1;
        active_arena = here;
        active_node = some before;
      } in
      ((if past
          then ok w₀
          else sweep_to_active ops arena (s.boxes + 1) here w₀ >>= sweep_last ops last)
        >>= (λ w. ok (put_back w)))

  sub_one-suc : sub_one (some (ptr c (i + 1))) ≡ ok (ptr c i)
  unfolding sub_one
  sub_one-suc = ground arith

  sweep_arenas-rest :
      {here : ArenaPtr} {past : Bool} {arena : ArenaPtr} {last : DagNodePtr}
      → s.next_node ≡ some (ptr c (i + 1))
      → s.current_arena ≡ here
      → s.current_arena_past_active_arena ≡ past
      → s.last_active_arena ≡ arena
      → s.last_active_node ≡ last
      → sweep_arenas ops s ≡ rest (ptr c i) here past arena last
  unfolding sweep_arenas
  sweep_arenas-rest {here} {past} {arena} {last} next e₁ e₂ e₃ e₄ =
      let all : DagNodePtr → Outcome NodeAllocator = λ q. sub_one q >>= (λ p.
        rest p s.current_arena s.current_arena_past_active_arena s.last_active_arena
          s.last_active_node) in
      ap all next
      ∙ ap
          (λ m. m >>= (λ p.
            rest p s.current_arena s.current_arena_past_active_arena s.last_active_arena
              s.last_active_node))
          sub_one-suc
      ∙ ap
          (λ x.
            rest (ptr c i) x s.current_arena_past_active_arena s.last_active_arena
              s.last_active_node)
          e₁
      ∙ ap (λ x. rest (ptr c i) here x s.last_active_arena s.last_active_node) e₂
      ∙ ap (λ x. rest (ptr c i) here past x s.last_active_node) e₃
      ∙ ap (rest (ptr c i) here past arena) e₄

  rest-short :
      (a j : ℕ) (w r : Sweep)
      → sweep_to_active ops (some a) (s.boxes + 1) (some c) start ≡ ok w
      → sweep_last ops (some (ptr a j)) w ≡ ok r
      → rest (ptr c i) (some c) false (some a) (some (ptr a j)) ≡ ok (put_back r)
  rest-short a j w r e e' =
      ap (λ m. (m >>= sweep_last ops (some (ptr a j))) >>= (λ w. ok (put_back w))) e
      ∙ ap (λ m. m >>= (λ w. ok (put_back w))) e'

  -- From a state that satisfies the invariant, with the cursor in an arena behind its first node,
  -- `sweep_arenas` ends, and no node of an arena has a mark then; nodes lose no more than flags;
  -- the last active node is the last node given out or one behind it, and no node that had a mark
  -- lies behind it.
  pub sweep_arenas-Tidy :
      Started ops s c (i + 1) → i < arena_size → Returns (Tidy ops s c (i + 1)) (sweep_arenas ops s)
  sweep_arenas-Tidy st h = elim (Bool-cases s.current_arena_past_active_arena) [
    | inl past ↦ (
      put_back start,
      sweep_arenas-rest st.next st.place.current past refl refl,
      Tidy-of_Sweeping ops s c (i + 1) c (i + 1) start st.marks st.place.exists
          (λ a j g k live. absurd (ground (arith, st.marks.past past a j g k)))
          (start_Sweeping ops s c i h),
    )
    | inr short ↦
        let p = st.marks.active short in
        let (w, e, q) =
          sweep_to_active-Reached ops s.arenas c (i + 1) s.boxes st.linked.links p.a p.exists
            (s.boxes + 1) c (i + 1) start p.ahead (omega (arith, st.place.exists)) (omega arith)
            (start_Sweeping ops s c i h) in
        let (r, e', d) =
          sweep_last-Sweeping ops s.arenas c (i + 1) p.a p.j q.index w p.in_array q.index_in
            q.sweeping in
        (
          put_back r,
          sweep_arenas-rest st.next st.place.current short p.arena p.node
              ∙ rest-short p.a p.j w r e e',
          Tidy-of_Sweeping ops s c (i + 1) p.a (max q.index (p.j + 1)) r st.marks p.exists
              (λ a j g k live. ground (
                arith,
                p.bound a j g k live,
                st.marks.behind_arenas a j,
                st.marks.behind_nodes j,
                p.ahead,
              ))
              d,
        )
  ]

  -- With the cursor at the first node of an arena, as a collection leaves it, the step to the node
  -- before the cursor makes `sweep_arenas` undefined.
  pub sweep_arenas-undefined : s.next_node ≡ some (ptr c 0) → sweep_arenas ops s ≡ undefined
  unfolding sweep_arenas sub_one
  sweep_arenas-undefined next = rw next refl
