-- ===== src/Arenas/Allocate/Safety.antt =====
-- What `allocate_dag_node` of src/dag_node/allocator/node_allocator.rs promises.
use mod2gc.Base.{
  ℕ, suc, ◌+◌, ◌-◌, ◌*◌, ◌%◌, ◌^◌, ◌≤◌, ◌<◌, ◌≡◌, ◌∙◌, refl, ap, ◌⊎◌, inr, true, false, ◌&&◌,
  Option, none, some, Outcome, ok, ◌>>=◌, Returns, arith, is_null,
}
use mod2gc.Flags.{BitFlags}
use mod2gc.Node.{NodePtr, DagNode, clear_flags}
use mod2gc.Arenas.{arena_size, reserve_size, Arena, NodeAllocator}
use mod2gc.Arenas.Search.{ptr, Searched}
use mod2gc.Arenas.Invariant.{
  IsLinked, Place, marked_at, Marks, AllKept, IsFresh, clear_flags-Forgets, IsLinked-same,
  Place-same, Marks-same,
}
use mod2gc.Arenas.Allocate.{
  search, advance, slow_new_dag_node, next_free, allocate_dag_node, first_allocation,
  allocate_new_arena,
}
use mod2gc.Arenas.Allocate.Steps.{search-Searched, Scanned-IsLinked, Scanned-Marks, Marks-suc}
use mod2gc.Arenas.Allocate.Extend.{NoMarks, allocate_new_arena-IsLinked, none_marked_new}
use mod2gc.Arenas.Allocate.Obtained.{Obtained, Obtained-of_found, Obtained-of_rest, Place-arenas}
use mod2gc.Arenas.Allocate.Slow.{slow_loop-Obtained, slow_loop-suc}

module _ (ops : BitFlags) where
  -- The allocator stands at node `i` of the arena `c`.
  pub record Started (s : NodeAllocator) (c i : ℕ) : Type 0 where
    pub end : ℕ
    pub linked : IsLinked s
    pub place : Place s c end
    pub next : s.next_node ≡ some (ptr c i)
    pub order : i ≤ end
    pub marks : Marks ops s c i

  -- What `allocate_dag_node` gives: a node of an arena, from the cursor on, that had no mark if its
  -- arena is an old one; no node loses more than its flags, and neither does one with no mark, nor the
  -- node given or one behind it.
  pub record Given (s : NodeAllocator) (c i : ℕ) (r : NodePtr × NodeAllocator) : Type 0 where
    pub started : Started r.1 r.0.arena (r.0.index + 1)
    pub ahead : (c < r.0.arena) ⊎ ((r.0.arena ≡ c) × (i ≤ r.0.index))
    pub in_array : r.0.index < arena_size
    pub exists : r.0.arena < r.1.boxes
    pub free : r.0.arena < s.boxes → marked_at ops s r.0.arena r.0.index ≡ false
    pub kept : AllKept ops s r.1
    pub grown : s.boxes ≤ r.1.boxes
    pub old_or_first : (r.0.arena < s.boxes) ⊎ ((r.0.arena ≡ s.boxes) × (r.0.index ≡ 0))
    pub counted : r.1.active_node_count ≡ (s.active_node_count + 1) % 2 ^ 64
    pub passed :
        (a j : ℕ)
        → a < s.boxes
        → j < arena_size
        → (c < a) ⊎ ((a ≡ c) × (i ≤ j))
        → (a < r.0.arena) ⊎ ((a ≡ r.0.arena) × (j < r.0.index))
        → marked_at ops s a j ≡ true
    pub untouched :
        (a j : ℕ)
        → a < s.boxes
        → (r.0.arena < a) ⊎ ((a ≡ r.0.arena) × (r.0.index ≤ j))
        → (r.1.arenas a).nodes j ≡ (s.arenas a).nodes j

module _ (ops : BitFlags) (junk : ℕ → ℕ → DagNode) (clean : NoMarks ops junk)
    (s : NodeAllocator) where
  -- The cursor is set behind the node that was found.
  Given-of_Obtained :
      (c i : ℕ) (r : NodePtr × NodeAllocator)
      → next_free ops junk s ≡ ok r
      → Obtained ops s c i r
      → Returns (Given ops s c i) (allocate_dag_node ops junk s)
  unfolding allocate_dag_node
  Given-of_Obtained c i r e o =
      let t : NodeAllocator = record r.1 {
        next_node = some (ptr r.0.arena (r.0.index + 1));
        active_node_count = (r.1.active_node_count + 1) % 2 ^ 64;
      } in
      (
        (r.0, t),
        rw e,
        record {
          started = record {
            end = o.end;
            linked = IsLinked-same r.1 t refl refl refl refl refl o.linked;
            place = Place-same r.1 t r.0.arena o.end refl refl refl o.place;
            next = refl;
            order = omega (arith, o.room);
            marks = Marks-same ops r.1 t r.0.arena (r.0.index + 1) refl refl refl refl refl o.marks;
          };
          ahead = o.ahead;
          in_array = omega (arith, o.room, o.place.in_array);
          exists = o.place.exists;
          free = o.free;
          kept = o.kept;
          grown = o.grown;
          old_or_first = o.old_or_first;
          counted = rw o.counted;
          passed = o.passed;
          untouched = o.untouched;
        },
      )

  -- What follows the fast search.
  abbrev rest_of_fast : Option NodePtr × NodeAllocator → Outcome (NodePtr × NodeAllocator)
  rest_of_fast r = elim r.0 [ some p ↦ ok (p, r.1) | none ↦ slow_new_dag_node ops junk r.1 ]

  next_free-search :
      {r : Option NodePtr × NodeAllocator}
      → (is_null s.next_node && is_null s.end_pointer) ≡ false
      → search ops (clear_flags ops) s ≡ ok r
      → next_free ops junk s ≡ rest_of_fast r
  unfolding next_free
  next_free-search begun e = rw begun (ap (λ m. m >>= rest_of_fast) e)

  fast_path :
      (c i : ℕ)
      → Started ops s c i
      → (found : Option NodePtr) (heap : ℕ → Arena)
      → search ops (clear_flags ops) s ≡ ok (found, record s { arenas = heap })
      → (end : ℕ) → Place s c end
      → Searched ops (clear_flags ops) s.arenas c i end (found, heap)
      → Returns (Obtained ops s c i) (next_free ops junk s)
  unfolding slow_new_dag_node
  fast_path c i st (some q) heap eq end p d = (
    (q, record s { arenas = heap }),
    next_free-search (rw st.next) eq,
    Obtained-of_found ops (clear_flags ops) (clear_flags-Forgets ops) s c i end q heap st.linked p
        st.marks d,
  )
  fast_path c i st none heap eq end p d =
      let s' : NodeAllocator = record s { arenas = heap } in
      let forgets = clear_flags-Forgets ops in
      let l' = Scanned-IsLinked ops s (clear_flags ops) forgets d.scanned st.linked in
      let m' : Marks ops s' c end =
        rw d.result at (Scanned-Marks ops s (clear_flags ops) forgets d.scanned st.marks) in
      let (r, eq', o) =
        slow_loop-Obtained ops junk clean (2 * s.boxes + 2) s' c end l'
          (Place-arenas s c end heap p) m' (ground arith) in
      (
        r,
        next_free-search (rw st.next) eq ∙ eq',
        Obtained-of_rest ops (clear_flags ops) forgets s c i end heap r d o,
      )

  -- From a state that satisfies the invariant with the cursor in an arena, and with no mark in the
  -- memory of new arenas, `allocate_dag_node` ends with a node; it lies inside an arena, from the
  -- cursor on, and had no mark if its arena is an old one, while each node of an old arena between
  -- the cursor and it had one; no node loses more than its flags, neither one without a mark nor
  -- one from the node given on is changed, the count goes up by one, and the invariant holds with
  -- the cursor behind the node.
  pub allocate_dag_node-Given :
      (c i : ℕ) → Started ops s c i → Returns (Given ops s c i) (allocate_dag_node ops junk s)
  allocate_dag_node-Given c i st =
      let (r, eq, d) =
        search-Searched ops s (clear_flags ops) c i st.end st.next st.place.end st.order
          st.place.in_array in
      let (q, e, o) = fast_path c i st r.0 r.1 eq st.end st.place d in Given-of_Obtained c i q e o

  -- The very first node.
  next_free-first : IsFresh s → next_free ops junk s ≡ ok (first_allocation junk s)
  unfolding next_free slow_new_dag_node
  next_free-first f =
      let null : (is_null s.next_node && is_null s.end_pointer) ≡ true =
        ground (arith, f.no_next, f.no_end) in
      let more : 2 * s.boxes + 2 ≡ suc (2 * s.boxes + 1) = omega arith in
      rw (null, more) (slow_loop-suc ops junk (2 * s.boxes + 1) s (first f.no_current))
    where
      first :
          s.current_arena ≡ none
          → advance junk s ≡ (some (first_allocation junk s).0, (first_allocation junk s).1)
      first e = unfold advance in rw e

  first-Obtained : IsLinked s → IsFresh s → Obtained ops s 0 0 (first_allocation junk s)
  unfolding first_allocation
  first-Obtained l f =
      let t = (first_allocation junk s).1 in
      let bare =
        none_marked_new ops junk clean s l (λ a j lt h. absurd (omega (arith, f.no_arena))) in
      let boxes : (allocate_new_arena junk s).boxes ≡ s.boxes + 1 =
        unfold allocate_new_arena in refl in
      record {
        end = arena_size - reserve_size;
        place = record {
          exists = omega (arith, boxes);
          current = refl;
          end = refl;
          in_array = omega arith;
          full = inr (omega (arith, boxes));
        };
        room = omega arith;
        marks =
            Marks-suc ops t s.boxes 0
              (record {
                behind_arenas = λ a j lt h. bare a j (omega arith) h;
                behind_nodes = λ j h. absurd (omega arith);
                past = λ q a j lt h. bare a j (omega (arith, boxes)) h;
                active = λ q. absurd (ground (arith, stays));
              })
              (bare s.boxes 0 (omega arith) (omega arith));
        linked =
            IsLinked-same (allocate_new_arena junk s) t refl refl refl refl refl
              (allocate_new_arena-IsLinked junk s l);
        kept = λ a j h. absurd (omega (arith, f.no_arena));
        free = λ h. absurd (omega arith);
        ahead = inr (f.no_arena, omega arith);
        grown = omega (arith, boxes);
        old_or_first = inr (refl, refl);
        counted = unfold allocate_new_arena in refl;
        passed = λ a j h. absurd (omega (arith, f.no_arena));
        untouched = λ a j h. absurd (omega (arith, f.no_arena));
      }
    where
      stays : (allocate_new_arena junk s).current_arena_past_active_arena ≡ true
      stays = unfold allocate_new_arena in f.past

  -- From the state with no arena `allocate_dag_node` ends with the first node of a first arena.
  pub allocate_dag_node_first :
      IsLinked s → IsFresh s → Returns (Given ops s 0 0) (allocate_dag_node ops junk s)
  allocate_dag_node_first l f =
      Given-of_Obtained 0 0 (first_allocation junk s) (next_free-first f) (first-Obtained l f)
