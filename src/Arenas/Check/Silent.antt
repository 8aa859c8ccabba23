-- ===== src/Arenas/Check/Silent.antt =====
-- `check_invariant` and `check_arenas` of src/dag_node/allocator/node_allocator.rs from the states in
-- which they are called.
use mod2gc.Base.{
  ℕ, ◌+◌, ◌^◌, ◌<◌, ◌≡◌, ◌∙◌, refl, ap, inl, inr, true, false, none, some, List, [], ◌∷◌, ok, ◌>>=◌,
  Returns, arith, ◌==◌, if◌then◌else◌,
}
use mod2gc.Flags.{BitFlags}
use mod2gc.Arenas.{arena_size, NodeAllocator}
use mod2gc.Arenas.Search.{ptr}
use mod2gc.Arenas.Invariant.{IsLinked}
use mod2gc.Arenas.Allocate.Safety.{Started}
use mod2gc.Arenas.Sweep.{sweep_arenas}
use mod2gc.Arenas.Sweep.Tidies.{sweep_arenas-Tidy}
use mod2gc.Arenas.Check.{check_from, given_nodes, check_invariant, check_arenas}
use mod2gc.Arenas.Check.Report.{Listed, Seen, check_from-Reports}
use mod2gc.Arenas.Invariant.{Place}

module _ (ops : BitFlags) where
  first_arena_of : (s : NodeAllocator) (c : ℕ) → IsLinked s → c < s.boxes → s.first_arena ≡ some 0
  first_arena_of s c linked exists =
      let some_arena : (s.boxes == 0) ≡ false = ground (arith, exists) in
      linked.first ∙ ap (λ t. if t then none else some 0) some_arena

  -- If the arenas, fewer than 2 ^ 32, are linked, and the cursor stands in the current one, then
  -- `check_invariant` ends, and reports just the nodes with a mark that lie before the cursor,
  -- each by the number of its arena and its own.
  pub check_invariant_lem :
      (s : NodeAllocator) (c i e : ℕ)
      → IsLinked s
      → Place s c e
      → s.next_node ≡ some (ptr c i)
      → s.boxes < 2 ^ 32
      → Returns
          (λ xs.
            (b j : ℕ) → (Listed xs b j → Seen ops s c i b j) × (Seen ops s c i b j → Listed xs b j))
          (check_invariant ops s)
  unfolding check_invariant
  check_invariant_lem s c i e linked place next small =
      let first = first_arena_of s c linked place.exists in
      let (xs, f, reports) =
        check_from-Reports ops s c i (given_nodes ops s) linked place.exists small place.current
          (λ a lt. before_current s c a place.current lt) (at_current s c i place.current next)
          (s.boxes + 1) 0 (omega arith) (omega (arith, place.exists)) in
      (
        xs,
        ap (λ p. check_from ops (given_nodes ops s) (s.boxes + 1) s p 0) first ∙ f,
        λ b j. ((λ l. ((reports b j).0 l).1), (λ seen. (reports b j).1 (omega arith) seen)),
      )
    where
      before_current :
          (s : NodeAllocator) (c a : ℕ)
          → s.current_arena ≡ some c
          → a < c
          → given_nodes ops s a ≡ ok arena_size
      before_current s c a current lt =
          let other : (a == c) ≡ false = ground arith in rw (current, other) refl

      at_current :
          (s : NodeAllocator) (c i : ℕ)
          → s.current_arena ≡ some c
          → s.next_node ≡ some (ptr c i)
          → given_nodes ops s c ≡ ok i
      at_current s c i current next =
          let same : (c == c) ≡ true = ground arith in rw (current, next, same) refl

  nothing : (xs : List (ℕ × ℕ)) → ((b j : ℕ) → ¬ (Listed xs b j)) → xs ≡ []
  nothing [] h = refl
  nothing (x ∷ xs) h = absurd (h x.0 x.1 (inl (refl, refl)))

  -- In a state that satisfies the invariant of the allocator, with the cursor in one of fewer than
  -- 2 ^ 32 arenas, `check_invariant` ends with nothing to report.
  pub check_invariant-silent :
      (s : NodeAllocator) (c i : ℕ)
      → Started ops s c i
      → s.boxes < 2 ^ 32
      → check_invariant ops s ≡ ok []
  check_invariant-silent s c i st small =
      let (xs, e, reports) = check_invariant_lem s c i st.end st.linked st.place st.next small in
      e
      ∙ ap ok (
          nothing xs (λ b j l.
            let (place, m) = (reports b j).0 l in
            elim place [
              | inl (lt, lt') ↦ (let dead = st.marks.behind_arenas b j lt lt' in cc (dead, m))
              | inr (same, lt) ↦ (let dead = st.marks.behind_nodes j lt in cc (dead, rw same at m))
            ]))

  -- From a state that satisfies the invariant, with the cursor behind the first node of one of
  -- fewer than 2 ^ 32 arenas, `sweep_arenas` and then `check_arenas` end with nothing to report.
  pub sweep_then_check :
      (s : NodeAllocator) (c i : ℕ)
      → Started ops s c (i + 1)
      → i < arena_size
      → s.boxes < 2 ^ 32
      → (sweep_arenas ops s >>= check_arenas ops) ≡ ok []
  unfolding check_arenas
  sweep_then_check s c i st lt small =
      let (t, e, tidy) = sweep_arenas-Tidy ops s c i st lt in
      let boxes : t.boxes ≡ s.boxes = ap (λ (s : NodeAllocator). s.boxes) tidy.fields in
      let current : t.current_arena ≡ some c =
        ap (λ (s : NodeAllocator). s.current_arena) tidy.fields ∙ st.place.current in
      let linked : IsLinked t = record {
        first = ap (λ (s : NodeAllocator). s.first_arena) tidy.fields ∙ rw boxes st.linked.first;
        last = ap (λ (s : NodeAllocator). s.last_arena) tidy.fields ∙ rw boxes st.linked.last;
        links = λ a h. tidy.links a ∙ st.linked.links a (rw boxes at h);
        ends = λ a h. tidy.links a ∙ st.linked.ends a (rw boxes at h);
        count = ap (λ (s : NodeAllocator). s.arena_count) tidy.fields ∙ rw boxes st.linked.count;
      } in
      let exists : c < t.boxes = rw boxes st.place.exists in
      let (xs, f, reports) =
        check_from-Reports ops t c arena_size (λ a. ok arena_size) linked exists (rw boxes small)
          current (λ a lt. refl) refl (t.boxes + 1) 0 (omega arith) (omega (arith, exists)) in
      ap (λ m. m >>= check_arenas ops) e
      ∙ ap (λ p. check_from ops (λ a. ok arena_size) (t.boxes + 1) t p 0)
          (first_arena_of t c linked exists)
      ∙ f
      ∙ ap ok (
          nothing xs (λ b j l.
            let (_, (place, m)) = (reports b j).0 l in
            let dead =
              tidy.clean b j (ground (arith, place, st.place.exists)) (ground (arith, place)) in
            cc (dead, m)))
