-- ===== src/Arenas/Allocate/Moves.antt =====
-- The moves of `slow_new_dag_node` of src/dag_node/allocator/node_allocator.rs to more room keep the
-- invariant: into the reserve, to the next arena, and to a new one.
use mod2gc.Base.{
  ℕ, ◌+◌, ◌-◌, ◌≤◌, ◌<◌, ◌≡◌, ◌∙◌, refl, inl, inr, true, false, ◌||◌, none, some, arith, ◌==◌,
  if◌then◌else◌, Bool-cases, same_ptr,
}
use mod2gc.Flags.{BitFlags}
use mod2gc.Arenas.{arena_size, reserve_size, NodeAllocator}
use mod2gc.Arenas.Invariant.{IsLinked, Place, marked_at, Active, Marks, IsLinked-same, Marks-same}
use mod2gc.Arenas.Allocate.{use_reserve, use_next_arena}

-- The end of the arena behind `c` keeps a reserve exactly if that is the last one.
abbrev pub next_end : NodeAllocator → ℕ → ℕ
next_end s c = if c + 2 == s.boxes then arena_size - reserve_size else arena_size

module _ (ops : BitFlags) (s : NodeAllocator) (c e : ℕ) (l : IsLinked s) (p : Place s c e)
    (m : Marks ops s c e) where
  -- Where the flag that the current arena is past the last active one stays down, the last active
  -- arena is a later one.
  pub later-Active :
      (same_ptr s.current_arena s.last_active_arena || s.current_arena_past_active_arena) ≡ false
      → (t : Active ops s c) × (c + 1 ≤ t.a)
  later-Active down =
      let t = m.active (ground arith) in (t, ground (arith, t.arena, t.ahead, p.current))

  -- Where the flag goes up, no node has a mark: the current arena was the last active one.
  pub none_marked :
      e ≡ arena_size
      → (same_ptr s.current_arena s.last_active_arena || s.current_arena_past_active_arena) ≡ true
      → (a j : ℕ) → a < s.boxes
      → j < arena_size
      → marked_at ops s a j ≡ false
  none_marked full up a j lt h = elim (Bool-cases s.current_arena_past_active_arena) [
    | inl past ↦ m.past past a j lt h
    | inr not_past ↦
        let t = m.active not_past in
        let here : t.a ≡ c = ground (arith, t.arena, p.current) in
        elim (Bool-cases (marked_at ops s a j)) [
          | inr clean ↦ clean
          | inl dirty ↦ elim (t.bound a j lt h dirty) [
            | inl before ↦ m.behind_arenas a j (omega (arith, here)) h
            | inr q ↦
                let same : a ≡ c = q.0 ∙ here in rw same (m.behind_nodes j (omega (arith, full)))
          ]
        ]
  ]

  pub use_reserve-IsLinked : IsLinked (use_reserve s c)
  unfolding use_reserve
  use_reserve-IsLinked = IsLinked-same s (use_reserve s c) refl refl refl refl refl l

  pub use_reserve-Place : Place (use_reserve s c) c arena_size
  unfolding use_reserve
  use_reserve-Place = record {
    exists = p.exists;
    current = p.current;
    end = refl;
    in_array = omega arith;
    full = inl refl;
  }

  pub use_reserve-Marks : Marks ops (use_reserve s c) c e
  unfolding use_reserve
  use_reserve-Marks = Marks-same ops s (use_reserve s c) c e refl refl refl refl refl m

  module _ (more : c + 1 < s.boxes) where
    pub full : e ≡ arena_size
    full = ground (arith, p.full)

    pub use_next_arena-IsLinked : IsLinked (use_next_arena s (c + 1))
    unfolding use_next_arena
    use_next_arena-IsLinked = IsLinked-same s (use_next_arena s (c + 1)) refl refl refl refl refl l

    pub use_next_arena-Place : Place (use_next_arena s (c + 1)) (c + 1) (next_end s c)
    unfolding use_next_arena
    use_next_arena-Place = elim (Bool-cases (c + 2 == s.boxes)) [
      | inl last ↦
          let null : (s.arenas (c + 1)).next_arena ≡ none = l.ends (c + 1) (ground arith) in
          record {
            exists = more;
            current = refl;
            end = rw (null, last);
            in_array = rw last (omega arith);
            full = inr (ground arith);
          }
      | inr inner ↦
          let next : (s.arenas (c + 1)).next_arena ≡ some (c + 1 + 1) =
            l.links (c + 1) (ground arith) in
          record {
            exists = more;
            current = refl;
            end = rw (next, inner);
            in_array = rw inner (omega arith);
            full = inl (rw inner);
          }
    ]

    pub use_next_arena-Marks : Marks ops (use_next_arena s (c + 1)) (c + 1) 0
    unfolding use_next_arena
    use_next_arena-Marks = record {
      behind_arenas = λ a j lt h. elim (Bool-cases (a == c)) [
        | inl here ↦
            let same : a ≡ c = ground arith in rw same (m.behind_nodes j (omega (arith, full)))
        | inr before ↦ m.behind_arenas a j (ground arith) h
      ];
      behind_nodes = λ j h. absurd (omega arith);
      past = none_marked full;
      active = λ q.
          let (t, later) = later-Active q in
          record {
            a = t.a;
            j = t.j;
            arena = t.arena;
            node = t.node;
            ahead = later;
            exists = t.exists;
            in_array = t.in_array;
            bound = t.bound;
          };
    }
