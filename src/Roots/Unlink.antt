-- ===== src/Roots/Unlink.antt =====
-- `unlink` of src/dag_node/root_container.rs takes one root out of the list.
use mod2gc.Base.{
  ℕ, ◌<◌, ◌≤◌, ◌≡◌, ◌∙◌, refl, ap, sym, subst, none, some, List, [], ◌∷◌, ◌++◌, arith, All, All-map,
  Below, All-Below, Below-front, Below-without, Below-of_append,
}
use mod2gc.Roots.{RootPtr, RootContainer, Roots, set_prev, set_next, unlink}
use mod2gc.Roots.Segments.{Seg, Seg-append, Seg-Cut, Seg-same}
use mod2gc.Roots.Laws.{
  IsRoots, same_below, Seg-set_prev, Seg-set_next, set_prev-above, set_prev-node, set_next-node,
  Rooted,
}

-- Where a segment that is not empty ends.
last-some :
    (heap : ℕ → RootContainer) (a p m q : RootPtr) (x : ℕ) (xs : List ℕ)
    → Seg heap a p (x ∷ xs) m q
    → (z : ℕ) × (m ≡ some z) × ((P : ℕ → Type 0) → All P (x ∷ xs) → P z)
last-some heap a p m q x [] s = (x, sym s.2.0, λ P h. h.0)
last-some heap a p m q x (y ∷ ys) s =
    let (z, e, inside) = last-some heap (some x) (heap x).next m q y ys s.2 in
    (z, e, λ P h. inside P h.1)

-- The head of the list when the container behind `m` is taken out.
abbrev head_after : (head m next : RootPtr) → RootPtr
head_after head m next = elim m [ some _ ↦ head | none ↦ next ]

-- What `unlink` writes, by the container's own links.
abbrev joined_at : Roots → (m next : RootPtr) → Roots
joined_at s m next = record s {
  containers = set_next (set_prev s.containers next m) m next;
  list_head = head_after s.list_head m next;
}

unlink-joined_at :
    (s : Roots) (c : ℕ)
    → set_prev s.containers (s.containers c).next (s.containers c).prev c ≡ s.containers c
    → unlink s c ≡ joined_at s (s.containers c).prev (s.containers c).next
unfolding unlink
unlink-joined_at s c same =
    let n = (s.containers c).next in
    let heap = set_prev s.containers n (s.containers c).prev in
    ap
      (λ (v : RootContainer). record s {
        containers = set_next heap v.prev v.next;
        list_head = head_after s.list_head v.prev n;
      })
      same

-- The links on the two sides of the container, joined.
joined :
    (heap : ℕ → RootContainer) (head m next q b : RootPtr) (n c : ℕ) (xs ys : List ℕ)
    → Seg heap none head xs m q
    → Seg heap m next ys b none
    → Below n xs
    → All (λ x. c < x) xs
    → Below c ys
    → (b' : RootPtr) × Seg (set_next heap m next) none (head_after head m next) (xs ++ ys) b' none
joined heap head m next q b n c [] ys front back o above below =
    subst
      (λ m.
        Seg heap m next ys b none
        → (b' : RootPtr) × Seg (set_next heap m next) none (head_after head m next) ys b' none)
      front.0 (λ t. (b, t)) back
joined heap head m next q b n c (x ∷ xs) ys front back o above below =
    let (z, e, inside) = last-some heap none head m q x xs front in
    let smaller : All (λ y. y < z) ys =
      All-map (λ y. y < c) _ ys (λ y h. omega (arith, inside (λ x. c < x) above))
        (All-Below c ys below) in
    let heap' = set_next heap (some z) next in
    let front' : Seg heap' none head (x ∷ xs) (some z) next =
      Seg-set_next heap n none head z q next x xs o (rw e at front) in
    let back' : Seg heap' (some z) next ys b none =
      Seg-same heap heap' ys (some z) next b none
        (same_below heap z (record (heap z) { next = next }) ys smaller) (rw e at back) in
    subst
      (λ m.
        (b' : RootPtr) × Seg (set_next heap m next) none (head_after head m next) ((x ∷ xs) ++ ys)
          b' none)
      (sym e) (b, Seg-append heap' (x ∷ xs) ys none head (some z) next b none front' back')

All-without :
    (P : ℕ → Type 0) (xs : List ℕ) (c : ℕ) (ys : List ℕ) → All P (xs ++ c ∷ ys) → All P (xs ++ ys)
All-without P [] c ys h = h.1
All-without P (x ∷ xs) c ys h = (h.0, All-without P xs c ys h.1)

Below-first : (n : ℕ) (xs ys : List ℕ) → Below n (xs ++ ys) → Below n xs
Below-first n [] ys h = tt
Below-first n (x ∷ xs) ys h = (h.0, Below-first x xs ys h.1)

-- A root is taken out of the list, wherever it stands; the others stay, in their order.
pub unlink-IsRoots :
    (s : Roots) (xs : List ℕ) (c : ℕ) (ys : List ℕ)
    → IsRoots s (xs ++ c ∷ ys)
    → IsRoots (unlink s c) (xs ++ ys)
unlink-IsRoots s xs c ys r =
    let h = s.containers in
    let cut = Seg-Cut h xs (c ∷ ys) none s.list_head r.last none r.seg in
    let n = (h c).next in
    let m = (h c).prev in
    let below : Below c ys = (Below-of_append s.boxes xs (c ∷ ys) r.ordered).1 in
    let above = Below-front s.boxes xs c ys r.ordered in
    let after : Seg h (some c) n ys r.last none = cut.back.2 in
    let (b, back) = Seg-set_prev h c (some c) n r.last m none ys below after refl in
    let heap = set_prev h n m in
    let untouched : (x : ℕ) → c ≤ x → heap x ≡ h x =
      λ x le. set_prev-above h c x (some c) n r.last m none ys below le after refl in
    let front : Seg heap none s.list_head xs m cut.point =
      Seg-same h heap xs none s.list_head m cut.point
        (All-map _ _ xs (λ x l. untouched x (omega arith)) above)
        (rw (← cut.back.1) at cut.front) in
    let (l, seg) =
      joined heap s.list_head m n cut.point b s.boxes c xs ys front back
        (Below-first s.boxes xs (c ∷ ys) r.ordered) above below in
    let result : IsRoots (joined_at s m n) (xs ++ ys) = record {
      last = l;
      seg = seg;
      ordered = Below-without s.boxes xs c ys r.ordered;
      rooted =
          All-map (Rooted h) (Rooted (set_next heap m n)) (xs ++ ys)
            (λ x p. (p.0, set_next-node heap m n x ∙ set_prev-node h n m x ∙ p.1))
            (All-without (Rooted h) xs c ys r.rooted);
    } in
    rw (unlink-joined_at s c (untouched c (omega arith))) result
