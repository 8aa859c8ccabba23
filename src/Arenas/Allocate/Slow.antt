-- ===== src/Arenas/Allocate/Slow.antt =====
-- `slow_new_dag_node` of src/dag_node/allocator/node_allocator.rs ends, and what it finds.
use mod2gc.Base.{
  ℕ, zero, suc, ◌+◌, ◌-◌, ◌*◌, ◌≤◌, ◌<◌, ◌≡◌, ◌∙◌, refl, ap, inl, inr, true, false, Option, none,
  some, Outcome, ok, ◌>>=◌, Returns, arith, ltb, ◌==◌, if◌then◌else◌, Bool-cases, ==-refl,
}
use mod2gc.Flags.{BitFlags}
use mod2gc.Node.{NodePtr, DagNode, unmark}
use mod2gc.Arenas.{arena_size, Arena, NodeAllocator}
use mod2gc.Arenas.Search.{ptr, Searched}
use mod2gc.Arenas.Invariant.{
  IsLinked, Place, Marks, unmark-Forgets, IsLinked-same, Place-same, Marks-same,
}
use mod2gc.Arenas.Allocate.{search, advance, slow_loop, extend, use_reserve, use_next_arena}
use mod2gc.Arenas.Allocate.Steps.{search-Searched, Scanned-IsLinked, Scanned-Marks, Marks-suc}
use mod2gc.Arenas.Allocate.Moves
use mod2gc.Arenas.Allocate.Extend.{
  NoMarks, extend-IsLinked, extend-Place, extend-AllKept, extend-Marks, extend-first, boxes-extend,
  counted-extend,
}
use mod2gc.Arenas.Allocate.Obtained.{
  Place-arenas, Obtained, Obtained-of_found, Obtained-of_rest, Obtained-of_move,
}

module _ (ops : BitFlags) (junk : ℕ → ℕ → DagNode) where
  -- The rounds that may be left: two for each arena, the reserve among them.
  abbrev pub rounds : NodeAllocator → (c e : ℕ) → ℕ
  rounds s c e = 2 * (s.boxes - c) + (if e == arena_size then 0 else 1)

  abbrev pub Continues : (fuel : ℕ) → Type 0
  Continues fuel =
      (s : NodeAllocator) (c e : ℕ)
      → IsLinked s
      → Place s c e
      → Marks ops s c e
      → rounds s c e ≤ fuel
      → Returns (Obtained ops s c e) (slow_loop ops junk fuel s)

  -- What follows the search of a round.
  abbrev pub rest_of_round :
      (fuel : ℕ) → Option NodePtr × NodeAllocator → Outcome (NodePtr × NodeAllocator)
  rest_of_round fuel r = elim r.0 [ some p ↦ ok (p, r.1) | none ↦ slow_loop ops junk fuel r.1 ]

  abbrev pub rest_of_advance :
      (fuel : ℕ) → Option NodePtr × NodeAllocator → Outcome (NodePtr × NodeAllocator)
  rest_of_advance fuel r = elim r.0 [
    | some p ↦ ok (p, r.1)
    | none ↦ search ops (unmark ops) r.1 >>= rest_of_round fuel
  ]

  pub slow_loop-suc :
      (fuel : ℕ) (s : NodeAllocator) {r : Option NodePtr × NodeAllocator}
      → advance junk s ≡ r
      → slow_loop ops junk (suc fuel) s ≡ rest_of_advance fuel r
  unfolding slow_loop
  slow_loop-suc fuel s e = ap (rest_of_advance fuel) e

  round-Obtained :
      (fuel : ℕ)
      → Continues fuel
      → (s : NodeAllocator) (c i e : ℕ) → IsLinked s
      → Place s c e
      → Marks ops s c i
      → s.next_node ≡ some (ptr c i)
      → i ≤ e
      → rounds s c e ≤ fuel
      → Returns (Obtained ops s c i) (search ops (unmark ops) s >>= rest_of_round fuel)
  round-Obtained fuel continues s c i e l p m at le enough =
      let (r, eq, d) = search-Searched ops s (unmark ops) c i e at p.end le p.in_array in
      split r.0 r.1 eq d
    where
      split :
          (found : Option NodePtr) (heap : ℕ → Arena)
          → search ops (unmark ops) s ≡ ok (found, record s { arenas = heap })
          → Searched ops (unmark ops) s.arenas c i e (found, heap)
          → Returns (Obtained ops s c i) (search ops (unmark ops) s >>= rest_of_round fuel)
      split (some q) heap eq d = (
        (q, record s { arenas = heap }),
        rw eq,
        Obtained-of_found ops (unmark ops) (unmark-Forgets ops) s c i e q heap l p m d,
      )
      split none heap eq d =
          let s' : NodeAllocator = record s { arenas = heap } in
          let l' = Scanned-IsLinked ops s (unmark ops) (unmark-Forgets ops) d.scanned l in
          let m' : Marks ops s' c e =
            rw d.result at (Scanned-Marks ops s (unmark ops) (unmark-Forgets ops) d.scanned m) in
          let (r, eq', o) = continues s' c e l' (Place-arenas s c e heap p) m' enough in
          (r, rw eq eq', Obtained-of_rest ops (unmark ops) (unmark-Forgets ops) s c i e heap r d o)

  -- The new arena's first node, behind a list that is used up.
  extend-Obtained :
      (clean : NoMarks ops junk) (s : NodeAllocator) (c : ℕ)
      → IsLinked s
      → Place s c arena_size
      → Marks ops s c arena_size
      → c + 1 ≡ s.boxes
      → Obtained ops s c arena_size (extend junk s)
  unfolding extend
  extend-Obtained clean s c l p m at_end =
      let start = extend-Marks ops junk clean s l c p m at_end in
      record {
        end = arena_size;
        place = extend-Place ops junk clean s l;
        room = omega arith;
        marks =
            Marks-suc ops (extend junk s).1 s.boxes 0 start
              (extend-first ops junk clean s l c p m at_end);
        linked = extend-IsLinked ops junk clean s l;
        kept = extend-AllKept ops junk clean s l;
        free = λ h. absurd (omega arith);
        ahead = inl (omega arith);
        grown = omega (arith, boxes-extend ops junk clean s l);
        old_or_first = inr (refl, refl);
        counted = counted-extend junk s;
        passed = λ a j h lt from before. absurd (ground (arith, from));
        untouched = λ a j h further. absurd (omega arith);
      }

  abbrev wanting : NodeAllocator → NodeAllocator
  wanting s = record s { need_to_collect_garbage = true }

  flag-IsLinked : (s : NodeAllocator) → IsLinked s → IsLinked (wanting s)
  flag-IsLinked s = IsLinked-same s (wanting s) refl refl refl refl refl

  flag-Place : (s : NodeAllocator) (c e : ℕ) → Place s c e → Place (wanting s) c e
  flag-Place s c e = Place-same s (wanting s) c e refl refl refl

  flag-Marks : (s : NodeAllocator) (c e : ℕ) → Marks ops s c e → Marks ops (wanting s) c e
  flag-Marks s c e = Marks-same ops s (wanting s) c e refl refl refl refl refl

  module _ (s : NodeAllocator) (c e : ℕ) (l : IsLinked s) (p : Place s c e) where
    advance_next : c + 1 < s.boxes → advance junk s ≡ (none, use_next_arena s (c + 1))
    unfolding advance
    advance_next more = rw (p.current, l.links c more)

    advance_reserve :
        c + 1 ≡ s.boxes
        → (e == arena_size) ≡ false
        → advance junk s ≡ (none, use_reserve (wanting s) c)
    unfolding advance
    advance_reserve last short = rw (p.current, l.ends c last, p.end, ==-refl c, short)

    advance-extend :
        c + 1 ≡ s.boxes
        → (e == arena_size) ≡ true
        → advance junk s ≡ (some (extend junk (wanting s)).0, (extend junk (wanting s)).1)
    unfolding advance
    advance-extend last full = rw (p.current, l.ends c last, p.end, ==-refl c, full)

  module _ (clean : NoMarks ops junk) (fuel : ℕ) (continues : Continues fuel) (s : NodeAllocator)
      (c e : ℕ) (l : IsLinked s) (p : Place s c e) (m : Marks ops s c e)
      (enough : rounds s c e ≤ suc fuel) where
    next-Obtained : c + 1 < s.boxes → Returns (Obtained ops s c e) (slow_loop ops junk (suc fuel) s)
    unfolding use_next_arena
    next-Obtained more =
        let s₁ = use_next_arena s (c + 1) in
        let full = Moves.full ops s c e l p m more in
        let (r, eq, o) =
          round-Obtained fuel continues s₁ (c + 1) 0 (Moves.next_end s c)
            (Moves.use_next_arena-IsLinked ops s c e l p m more)
            (Moves.use_next_arena-Place ops s c e l p m more)
            (Moves.use_next_arena-Marks ops s c e l p m more) refl (omega arith)
            (ground (arith, full)) in
        (
          r,
          slow_loop-suc fuel s (advance_next s c e l p more) ∙ eq,
          Obtained-of_move ops s s₁ c e (c + 1) 0 r refl refl refl (inl (omega arith))
              (λ a j lt from. ground (arith, full, from)) o,
        )

    reserve-Obtained :
        c + 1 ≡ s.boxes
        → (e == arena_size) ≡ false
        → Returns (Obtained ops s c e) (slow_loop ops junk (suc fuel) s)
    unfolding use_reserve
    reserve-Obtained last short =
        let s₀ = wanting s in
        let s₁ = use_reserve s₀ c in
        let l₀ = flag-IsLinked s l in
        let p₀ = flag-Place s c e p in
        let m₀ = flag-Marks s c e m in
        let (r, eq, o) =
          round-Obtained fuel continues s₁ c e arena_size
            (Moves.use_reserve-IsLinked ops s₀ c e l₀ p₀ m₀)
            (Moves.use_reserve-Place ops s₀ c e l₀ p₀ m₀)
            (Moves.use_reserve-Marks ops s₀ c e l₀ p₀ m₀) p.end p.in_array (ground arith) in
        (
          r,
          slow_loop-suc fuel s (advance_reserve s c e l p last short) ∙ eq,
          Obtained-of_move ops s s₁ c e c e r refl refl refl (inr (refl, omega arith))
              (λ a j lt from. from) o,
        )

    extend_case :
        c + 1 ≡ s.boxes
        → (e == arena_size) ≡ true
        → Returns (Obtained ops s c e) (slow_loop ops junk (suc fuel) s)
    extend_case last full =
        let at_size : e ≡ arena_size = ground arith in
        let p₁ : Place (wanting s) c arena_size = rw at_size at (flag-Place s c e p) in
        let m₁ : Marks ops (wanting s) c arena_size = rw at_size at (flag-Marks s c e m) in
        let o = extend-Obtained clean (wanting s) c (flag-IsLinked s l) p₁ m₁ last in
        (
          extend junk (wanting s),
          slow_loop-suc fuel s (advance-extend s c e l p last full),
          Obtained-of_move ops s (wanting s) c e c arena_size (extend junk (wanting s)) refl refl
              refl (inr (refl, p.in_array)) (λ a j lt from. ground (arith, from)) o,
        )

  -- With a round for each arena and each reserve, the slow path finds a node.
  pub slow_loop-Obtained : (clean : NoMarks ops junk) (fuel : ℕ) → Continues fuel
  slow_loop-Obtained clean zero s c e l p m enough = absurd (omega (arith, p.exists))
  slow_loop-Obtained clean (suc fuel) s c e l p m enough = elim (Bool-cases (ltb (c + 1) s.boxes)) [
    | inl more ↦
        next-Obtained clean fuel (slow_loop-Obtained clean fuel) s c e l p m enough (ground arith)
    | inr last ↦
        let at_last : c + 1 ≡ s.boxes = ground (arith, p.exists) in
        elim (Bool-cases (e == arena_size)) [
          | inl full ↦
              extend_case clean fuel (slow_loop-Obtained clean fuel) s c e l p m enough at_last full
          | inr short ↦
              reserve-Obtained clean fuel (slow_loop-Obtained clean fuel) s c e l p m enough at_last
                short
        ]
  ]
