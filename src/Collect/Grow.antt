-- ===== src/Collect/Grow.antt =====
-- The end of `collect_garbage` of src/dag_node/allocator/node_allocator.rs: new arenas, and the cursor
-- at the first node.
use mod2gc.Base.{
  ℕ, zero, suc, ◌+◌, ◌-◌, ◌^◌, ◌≤◌, ◌<◌, ◌≡◌, ◌∙◌, refl, ap, sym, ◌⊎◌, inl, inr, true, false, none,
  some, Returns, Returns-bind, arith, ltb, ◌==◌, if◌then◌else◌, is_null, Bool-cases, max,
}
use mod2gc.Flags.{BitFlags}
use mod2gc.Node.{DagNode, is_marked}
use mod2gc.Arenas.{arena_size, reserve_size, NodeAllocator, first_node, end_of}
use mod2gc.Arenas.Search.{ptr}
use mod2gc.Arenas.Invariant.{IsLinked, marked_at, IsLinked-same}
use mod2gc.Arenas.Allocate.{allocate_new_arena}
use mod2gc.Arenas.Allocate.Extend.{NoMarks, allocate_new_arena-IsLinked, nodes_old, nodes_new}
use mod2gc.Arenas.Allocate.Safety.{Started}
use mod2gc.Collect.{grow, reset_cursor, finish}

module _ (ops : BitFlags) where
  -- Every node with a mark stands at the last active node or before it.
  pub record Covered (s : NodeAllocator) (m l : ℕ) : Type 0 where
    pub arena : s.last_active_arena ≡ some m
    pub node : s.last_active_node ≡ some (ptr m l)
    pub exists : m < s.boxes
    pub in_array : l < arena_size
    pub bound :
        (a j : ℕ)
        → a < s.boxes
        → j < arena_size
        → marked_at ops s a j ≡ true
        → (a < m) ⊎ ((a ≡ m) × (j ≤ l))

module _ (ops : BitFlags) (junk : ℕ → ℕ → DagNode) (clean : NoMarks ops junk) where
  Covered-new :
      (s : NodeAllocator) (m l : ℕ)
      → IsLinked s
      → Covered ops s m l
      → Covered ops (allocate_new_arena junk s) m l
  Covered-new s m l h d = record {
    arena = unfold allocate_new_arena in d.arena;
    node = unfold allocate_new_arena in d.node;
    exists = omega (arith, d.exists, boxes);
    in_array = d.in_array;
    bound = λ a j lt g live. elim (Bool-cases (a == s.boxes)) [
      | inl here ↦
          let same : a ≡ s.boxes = ground arith in
          let dead : is_marked ops (((allocate_new_arena junk s).arenas s.boxes).nodes j) ≡ false =
            ap (λ f. is_marked ops (f j)) (nodes_new junk s h) ∙ clean s.boxes j in
          absurd (ground (arith, rw same at live, dead))
      | inr old ↦ d.bound a j (ground (arith, boxes)) g (
          sym (ap (λ f. is_marked ops (f j)) (nodes_old junk s h a (ground (arith, boxes)))) ∙ live)
    ];
  }
    where
      boxes : (allocate_new_arena junk s).boxes ≡ s.boxes + 1
      boxes = unfold allocate_new_arena in refl

  -- What the loop leaves.
  pub record Grown (s : NodeAllocator) (ideal m l : ℕ) (t : NodeAllocator) : Type 0 where
    pub linked : IsLinked t
    pub covered : Covered ops t m l
    pub boxes : t.boxes ≡ max s.boxes ideal
    pub old : (a : ℕ) → a < s.boxes → (t.arenas a).nodes ≡ (s.arenas a).nodes
    pub fresh : (a j : ℕ) → s.boxes ≤ a → a < t.boxes → marked_at ops t a j ≡ false

  grow-Grown :
      (fuel ideal m l : ℕ) (s : NodeAllocator)
      → IsLinked s
      → Covered ops s m l
      → s.boxes < 2 ^ 32
      → ideal < 2 ^ 32
      → ideal - s.boxes < fuel
      → Returns (Grown s ideal m l) (grow junk fuel ideal s)
  unfolding grow
  grow-Grown zero ideal m l s h d small small' f = absurd (omega arith)
  grow-Grown (suc fuel) ideal m l s h d small small' f =
      elim (Bool-cases (ltb s.arena_count ideal)) [
        | inr enough ↦ (
          s,
          rw enough refl,
          record {
            linked = h;
            covered = d;
            boxes = ground (arith, h.count);
            old = λ a lt. refl;
            fresh = λ a j le lt. absurd (omega arith);
          },
        )
        | inl more ↦
            let boxes : (allocate_new_arena junk s).boxes ≡ s.boxes + 1 =
              unfold allocate_new_arena in refl in
            let fewer : s.boxes < ideal = ground (arith, h.count) in
            let (t, e, g) =
              grow-Grown fuel ideal m l (allocate_new_arena junk s)
                (allocate_new_arena-IsLinked junk s h) (Covered-new s m l h d)
                (omega (arith, boxes)) small' (omega (arith, boxes)) in
            (
              t,
              rw more e,
              record {
                linked = g.linked;
                covered = g.covered;
                boxes = omega (arith, g.boxes, boxes);
                old = λ a lt. g.old a (omega (arith, boxes)) ∙ nodes_old junk s h a lt;
                fresh = λ a j le lt. elim (Bool-cases (a == s.boxes)) [
                  | inl here ↦
                      let same : a ≡ s.boxes = ground arith in
                      rw same (
                        ap (λ f. is_marked ops (f j))
                          (g.old s.boxes (omega (arith, boxes)) ∙ nodes_new junk s h)
                        ∙ clean s.boxes j)
                  | inr later ↦ g.fresh a j (ground (arith, boxes)) lt
                ];
              },
            )
      ]

  reset_cursor-Started :
      (m l : ℕ) (s : NodeAllocator)
      → IsLinked s
      → Covered ops s m l
      → Returns
          (λ t. Started ops t 0 0 × (t.boxes ≡ s.boxes) × (t.arenas ≡ s.arenas))
          (reset_cursor s)
  unfolding reset_cursor
  reset_cursor-Started m l s h d =
      let some_arena : (s.boxes == 0) ≡ false = ground (arith, d.exists) in
      let first : s.first_arena ≡ some 0 =
        h.first ∙ ap (λ t. if t then none else some 0) some_arena in
      let t : NodeAllocator = record s {
        current_arena_past_active_arena = false;
        current_arena = some 0;
        next_node = some (first_node 0);
        end_pointer = some (end_of s.arenas 0);
        need_to_collect_garbage = false;
      } in
      (
        t,
        rw first refl,
        (
          record {
            end = if is_null (s.arenas 0).next_arena then arena_size - reserve_size else arena_size;
            linked = IsLinked-same s t refl refl refl refl refl h;
            place = record {
              exists = omega (arith, d.exists);
              current = refl;
              end = refl;
              in_array = ground arith;
              full = elim (Bool-cases (1 == s.boxes)) [
                | inl last ↦ inr (ground arith)
                | inr more ↦
                    let next : (s.arenas 0).next_arena ≡ some 1 =
                      h.links 0 (ground (arith, d.exists)) in
                    inl (ap (λ p. if is_null p then arena_size - reserve_size else arena_size) next)
              ];
            };
            next = refl;
            order = omega arith;
            marks = record {
              behind_arenas = λ a j lt g. absurd (omega arith);
              behind_nodes = λ j g. absurd (omega arith);
              past = λ q a j lt g. cc;
              active = λ q. record {
                a = m;
                j = l;
                arena = d.arena;
                node = d.node;
                ahead = omega arith;
                exists = d.exists;
                in_array = d.in_array;
                bound = d.bound;
              };
            };
          },
          refl,
          refl,
        ),
      )

  -- What the end of a collection leaves.
  pub record Finished (s : NodeAllocator) (ideal : ℕ) (t : NodeAllocator) : Type 0 where
    pub started : Started ops t 0 0
    pub boxes : t.boxes ≡ max s.boxes ideal
    pub old : (a : ℕ) → a < s.boxes → (t.arenas a).nodes ≡ (s.arenas a).nodes
    pub fresh : (a j : ℕ) → s.boxes ≤ a → a < t.boxes → marked_at ops t a j ≡ false

  pub finish-Finished :
      (ideal m l : ℕ) (s : NodeAllocator)
      → IsLinked s
      → Covered ops s m l
      → s.boxes < 2 ^ 32
      → ideal < 2 ^ 32
      → Returns (Finished s ideal) (finish junk ideal s)
  unfolding finish
  finish-Finished ideal m l s h d small small' =
      Returns-bind (Grown s ideal m l) _ (grow junk (ideal + 1) ideal s) reset_cursor
        (grow-Grown (ideal + 1) ideal m l s h d small small' (omega arith))
        (λ t g.
          let (u, e, (st, b, same)) = reset_cursor-Started m l t g.linked g.covered in
          (
            u,
            e,
            record {
              started = st;
              boxes = b ∙ g.boxes;
              old = λ a lt. ap (λ f. (f a).nodes) same ∙ g.old a lt;
              fresh = λ a j le lt.
                  ap (λ f. is_marked ops ((f a).nodes j)) same ∙ g.fresh a j le (rw (← b) lt);
            },
          ))

  -- If the arenas are linked, each marked node stands at the last active node or before it, and
  -- memory of new arenas shows no mark, then the end of a collection returns: there are as many
  -- arenas as before or as the ideal count says, whichever is more (both below 2 ^ 32), and the
  -- allocator satisfies its invariant with the cursor at the first node.
  pub finish-Started :
      (ideal m l : ℕ) (s : NodeAllocator)
      → IsLinked s
      → Covered ops s m l
      → s.boxes < 2 ^ 32
      → ideal < 2 ^ 32
      → Returns (λ t. Started ops t 0 0 × (t.boxes ≡ max s.boxes ideal)) (finish junk ideal s)
  finish-Started ideal m l s h d small small' =
      let (t, e, f) = finish-Finished ideal m l s h d small small' in (t, e, (f.started, f.boxes))
