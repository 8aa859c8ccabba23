-- ===== src/Arenas/Allocate/Extend.antt =====
-- A new arena of src/dag_node/allocator/node_allocator.rs goes behind the others, and its nodes are
-- what its memory holds.
use mod2gc.Base.{
  ℕ, ◌+◌, ◌-◌, ◌%◌, ◌^◌, ◌<◌, ◌≡◌, ◌∙◌, refl, sym, ap, inl, inr, true, false, ◌||◌, none, some,
  arith, ◌==◌, if◌then◌else◌, Bool-cases, same_ptr,
}
use mod2gc.Flags.{BitFlags}
use mod2gc.Node.{DagNode, is_marked}
use mod2gc.Arenas.{arena_size, NodeAllocator}
use mod2gc.Arenas.Invariant.{IsLinked, Place, marked_at, Marks, AllKept, Kept-refl, IsLinked-same}
use mod2gc.Arenas.Allocate.{allocate_new_arena, extend, note_past_active}
use mod2gc.Arenas.Allocate.Moves.{later-Active, none_marked}

module _ (junk : ℕ → ℕ → DagNode) (s : NodeAllocator) (l : IsLinked s) where
  pub nodes_old :
      (a : ℕ) → a < s.boxes → ((allocate_new_arena junk s).arenas a).nodes ≡ (s.arenas a).nodes
  unfolding allocate_new_arena
  nodes_old a h = ground (arith, l.last)

  pub nodes_new : ((allocate_new_arena junk s).arenas s.boxes).nodes ≡ junk s.boxes
  unfolding allocate_new_arena
  nodes_new = ground (arith, l.last)

  next_old :
      (a : ℕ) → a + 1 < s.boxes → ((allocate_new_arena junk s).arenas a).next_arena ≡ some (a + 1)
  unfolding allocate_new_arena
  next_old a h = ground (arith, l.last, l.links a)

  next_last :
      (a : ℕ) → a + 1 ≡ s.boxes → ((allocate_new_arena junk s).arenas a).next_arena ≡ some s.boxes
  unfolding allocate_new_arena
  next_last a h = ground (arith, l.last)

  next_new : ((allocate_new_arena junk s).arenas s.boxes).next_arena ≡ none
  unfolding allocate_new_arena
  next_new = ground (arith, l.last)

  boxes_new : (allocate_new_arena junk s).boxes ≡ s.boxes + 1
  unfolding allocate_new_arena
  boxes_new = refl

  pub allocate_new_arena-IsLinked : IsLinked (allocate_new_arena junk s)
  allocate_new_arena-IsLinked = record {
    first = first;
    last = last;
    links = λ a h. elim (Bool-cases (a + 1 == s.boxes)) [
      | inl end ↦ let here : a + 1 ≡ s.boxes = ground arith in next_last a here ∙ ap some (sym here)
      | inr inner ↦ next_old a (ground (arith, boxes_new))
    ];
    ends = λ a h. let here : a ≡ s.boxes = omega (arith, boxes_new) in rw here next_new;
    count = count;
  }
    where
      first :
          (allocate_new_arena junk s).first_arena
          ≡ (if (allocate_new_arena junk s).boxes == 0 then none else some 0)
      first = unfold allocate_new_arena in ground (arith, l.first, l.last)

      last : (allocate_new_arena junk s).last_arena ≡ (
          if (allocate_new_arena junk s).boxes == 0
          then none
          else some ((allocate_new_arena junk s).boxes - 1))
      last = unfold allocate_new_arena in ground arith

      count : (allocate_new_arena junk s).arena_count ≡ (allocate_new_arena junk s).boxes % 2 ^ 32
      count = unfold allocate_new_arena in omega (arith, l.count)

  pub allocate_new_arena-AllKept : (ops : BitFlags) → AllKept ops s (allocate_new_arena junk s)
  allocate_new_arena-AllKept ops a j h = rw (nodes_old a h) (Kept-refl ops ((s.arenas a).nodes j))

-- The memory of a new arena shows no mark, as that of pages the system hands out zeroed does.
abbrev pub NoMarks : BitFlags → (ℕ → ℕ → DagNode) → Type 0
NoMarks ops junk = (k j : ℕ) → is_marked ops (junk k j) ≡ false

module _ (ops : BitFlags) (junk : ℕ → ℕ → DagNode) (clean : NoMarks ops junk) (s : NodeAllocator)
    (l : IsLinked s) where
  -- Where the arenas that there are have no mark, neither has the list with the new one.
  pub none_marked_new :
      ((a j : ℕ) → a < s.boxes → j < arena_size → marked_at ops s a j ≡ false)
      → (a j : ℕ) → a < s.boxes + 1
      → j < arena_size
      → marked_at ops (allocate_new_arena junk s) a j ≡ false
  none_marked_new bare a j lt h = elim (Bool-cases (a == s.boxes)) [
    | inl here ↦
        let same : a ≡ s.boxes = ground arith in rw (same, nodes_new junk s l) (clean s.boxes j)
    | inr old ↦ rw (nodes_old junk s l a (ground arith)) (bare a j (ground arith) h)
  ]

note_past_active-IsLinked : (s : NodeAllocator) → IsLinked s → IsLinked (note_past_active s)
note_past_active-IsLinked s = IsLinked-same s (note_past_active s) refl refl refl refl refl

module _ (ops : BitFlags) (junk : ℕ → ℕ → DagNode) (clean : NoMarks ops junk) (s : NodeAllocator)
    (l : IsLinked s) where
  noted : IsLinked (note_past_active s)
  noted = note_past_active-IsLinked s l

  pub extend-IsLinked : IsLinked (extend junk s).1
  unfolding extend
  extend-IsLinked =
      IsLinked-same (allocate_new_arena junk (note_past_active s)) (extend junk s).1 refl refl refl
        refl refl (allocate_new_arena-IsLinked junk (note_past_active s) noted)

  pub extend-Place : Place (extend junk s).1 s.boxes arena_size
  unfolding extend boxes_new
  extend-Place = record {
    exists = omega (arith, boxes_new junk (note_past_active s) noted);
    current = refl;
    end = refl;
    in_array = omega arith;
    full = inl refl;
  }

  pub extend-AllKept : AllKept ops s (extend junk s).1
  unfolding extend
  extend-AllKept = allocate_new_arena-AllKept junk (note_past_active s) noted ops

  module _ (c : ℕ) (p : Place s c arena_size) (m : Marks ops s c arena_size)
      (at_end : c + 1 ≡ s.boxes) where
    up : (same_ptr s.current_arena s.last_active_arena || s.current_arena_past_active_arena) ≡ true
    up =
        elim (Bool-cases
          (same_ptr s.current_arena s.last_active_arena || s.current_arena_past_active_arena)) [
            | inl yes' ↦ yes'
            | inr down ↦
                let (t, later) = later-Active ops s c arena_size l p m down in
                absurd (omega (arith, t.exists, later))
          ]

    bare :
        (a j : ℕ)
        → a < s.boxes + 1
        → j < arena_size
        → marked_at ops (allocate_new_arena junk (note_past_active s)) a j ≡ false
    bare =
        none_marked_new ops junk clean (note_past_active s) noted
          (none_marked ops s c arena_size l p m refl up)

    pub extend-Marks : Marks ops (extend junk s).1 s.boxes 0
    unfolding extend
    extend-Marks = record {
      behind_arenas = λ a j lt h. bare a j (omega arith) h;
      behind_nodes = λ j h. absurd (omega arith);
      past = λ q a j lt h. bare a j (omega (arith, boxes_new junk (note_past_active s) noted)) h;
      active = λ q. absurd (ground (arith, stays));
    }
      where
        stays :
            (allocate_new_arena junk (note_past_active s)).current_arena_past_active_arena ≡ true
        stays = unfold allocate_new_arena in up

    pub extend-first : marked_at ops (extend junk s).1 s.boxes 0 ≡ false
    unfolding extend
    extend-first = bare s.boxes 0 (omega arith) (omega arith)

  pub boxes-extend : (extend junk s).1.boxes ≡ s.boxes + 1
  unfolding extend allocate_new_arena
  boxes-extend = refl

pub counted-extend :
    (junk : ℕ → ℕ → DagNode) (s : NodeAllocator)
    → (extend junk s).1.active_node_count ≡ s.active_node_count
unfolding extend allocate_new_arena
counted-extend junk s = refl
