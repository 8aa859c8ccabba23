-- ===== src/Roots.antt =====
-- src/dag_node/root_container.rs: the roots of the collector, a doubly linked list of boxes.
pub mod Segments
pub mod Laws
pub mod Unlink
pub mod Refine
mod Tests
use mod2gc.Base.{
  ℕ, zero, suc, ◌+◌, Option, none, some, Outcome, ok, panic, out_of_fuel, ◌>>=◌, update,
}
use mod2gc.Node.{NodePtr, DagNodePtr}

-- A pointer to a `RootContainer` is its number in the order of creation, `none` for null.
abbrev pub RootPtr : Type 0
RootPtr = Option ℕ

pub record RootContainer : Type 0 where
  pub next : RootPtr
  pub prev : RootPtr
  pub node : DagNodePtr

-- The static `LIST_HEAD`, and the containers that have been boxed: `boxes` of them.
pub record Roots : Type 0 where
  pub list_head : RootPtr
  pub containers : ℕ → RootContainer
  pub boxes : ℕ

abbrev pub set_prev : (ℕ → RootContainer) → RootPtr → RootPtr → ℕ → RootContainer
set_prev heap none q = heap
set_prev heap (some b) q = update heap b (record (heap b) { prev = q })

abbrev pub set_next : (ℕ → RootContainer) → RootPtr → RootPtr → ℕ → RootContainer
set_next heap none q = heap
set_next heap (some b) q = update heap b (record (heap b) { next = q })

-- The container's own links are written first, then the back link of the old head.
unfoldable pub link : Roots → ℕ → Roots
link s c =
    let heap =
      update s.containers c (record (s.containers c) { prev = none; next = s.list_head }) in
    record s { containers = set_prev heap s.list_head (some c); list_head = some c }

-- The head is written only where there is no container before this one.
pub unlink : Roots → ℕ → Roots
unlink s c =
    let next = (s.containers c).next in
    let heap = set_prev s.containers next (s.containers c).prev in
    let prev = (heap c).prev in
    record s {
      containers = set_next heap prev (heap c).next;
      list_head = elim prev [ some _ ↦ s.list_head | none ↦ next ];
    }

-- `RootContainer::new`, which gives the number of the new box.
unfoldable pub new : Roots → DagNodePtr → Outcome (ℕ × Roots)
new s none = panic
new s (some p) =
    let heap = update s.containers s.boxes (record { next = none; prev = none; node = some p }) in
    ok (s.boxes, link (record s { containers = heap; boxes = s.boxes + 1 }) s.boxes)

-- `Drop for RootContainer`.
pub drop : Roots → ℕ → Roots
drop s c = elim (s.containers c).node [ none ↦ s | some _ ↦ unlink s c ]

-- `mark` is `DagNode::mark`, with the state that it works on.
module _ {ℓ} {S : Type ℓ} (mark : NodePtr → S → Outcome S) where
  pub mark_root : RootContainer → S → Outcome S
  mark_root r s = elim r.node [ none ↦ ok s | some p ↦ mark p s ]

  -- The loop of `mark_roots`.
  unfoldable pub mark_from : (fuel : ℕ) → (ℕ → RootContainer) → RootPtr → S → Outcome S
  mark_from zero heap root s = out_of_fuel
  mark_from (suc fuel) heap none s = ok s
  mark_from (suc fuel) heap (some c) s = mark_root (heap c) s >>= mark_from fuel heap (heap c).next

  unfoldable pub mark_roots : Roots → S → Outcome S
  mark_roots r s = mark_from (r.boxes + 1) r.containers r.list_head s
