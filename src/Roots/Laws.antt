-- ===== src/Roots/Laws.antt =====
-- `link`, `unlink`, `new`, `drop` and `mark_roots` of src/dag_node/root_container.rs as operations on
-- a list of roots.
use mod2gc.Base.{
  ℕ, ◌<◌, ◌≤◌, ◌≡◌, ◌∙◌, refl, ap, sym, subst, none, some, List, [], ◌∷◌, arith, update,
  update_self, update-ne, All, All-map, All-zip, Below, All-Below,
}
use mod2gc.Node.{NodePtr}
use mod2gc.Roots.{RootPtr, RootContainer, Roots, set_prev, set_next, link}
use mod2gc.Roots.Segments.{Seg, Seg-same, last-All, some_injective}

-- The list of roots holds the containers `xs`, the newest first, each with a node; the links lead
-- both ways through them.
pub record IsRoots (s : Roots) (xs : List ℕ) : Type 0 where
  pub last : RootPtr
  pub seg : Seg s.containers none s.list_head xs last none
  pub ordered : Below s.boxes xs
  pub rooted : All (λ x. (p : NodePtr) × ((s.containers x).node ≡ some p)) xs

-- Writes to a container that is larger, or smaller, than all of a list.
pub same_below :
    (heap : ℕ → RootContainer) (c : ℕ) (v : RootContainer) (xs : List ℕ)
    → All (λ x. x < c) xs
    → All (λ x. update heap c v x ≡ heap x) xs
same_below heap c v xs h = All-map (λ x. x < c) _ xs (λ x l. update-ne heap c x v (ground arith)) h

pub same_above :
    (heap : ℕ → RootContainer) (c : ℕ) (v : RootContainer) (xs : List ℕ)
    → All (λ x. c < x) xs
    → All (λ x. update heap c v x ≡ heap x) xs
same_above heap c v xs h = All-map (λ x. c < x) _ xs (λ x l. update-ne heap c x v (ground arith)) h

-- The back link of a segment's first container is written.
pub Seg-set_prev :
    (heap : ℕ → RootContainer) (n : ℕ) (a p b q r : RootPtr) (xs : List ℕ)
    → Below n xs
    → Seg heap a p xs b r
    → r ≡ none
    → (b' : RootPtr) × Seg (set_prev heap p q) q p xs b' r
Seg-set_prev heap n a none b q r [] o s e = (q, (refl, s.1))
Seg-set_prev heap n a (some y) b q r [] o s e = (q, (refl, s.1))
Seg-set_prev heap n a p b q r (x ∷ xs) o s e =
    let heap' = update heap x (record (heap x) { prev = q }) in
    let at : heap' x ≡ record (heap x) { prev = q } =
      update_self heap x (record (heap x) { prev = q }) in
    let rest : Seg heap' (some x) (heap x).next xs b r =
      Seg-same heap heap' xs (some x) (heap x).next b r
        (same_below heap x (record (heap x) { prev = q }) xs (All-Below x xs o.1)) s.2 in
    let whole : Seg heap' q (some x) (x ∷ xs) b r =
      (refl, ap (λ (c : RootContainer). c.prev) at, rw at rest) in
    (b, subst (λ p. Seg (set_prev heap p q) q p (x ∷ xs) b r) (sym s.0) whole)

-- The link behind a segment's last container is written.
pub Seg-set_next :
    (heap : ℕ → RootContainer) (n : ℕ) (a p : RootPtr) (z : ℕ) (q r : RootPtr) (x : ℕ) (xs : List ℕ)
    → Below n (x ∷ xs)
    → Seg heap a p (x ∷ xs) (some z) q
    → Seg (set_next heap (some z) r) a p (x ∷ xs) (some z) r
Seg-set_next heap n a p z q r x [] o s =
    let at = update_self heap x (record (heap x) { next = r }) in
    let one : Seg (set_next heap (some x) r) a p (x ∷ []) (some x) r = (
      s.0,
      ap (λ (c : RootContainer). c.prev) at ∙ s.1,
      (refl, ap (λ (c : RootContainer). c.next) at),
    ) in
    rw (← some_injective s.2.0) one
Seg-set_next heap n a p z q r x (y ∷ ys) o s =
    let v = record (heap z) { next = r } in
    let rest = Seg-set_next heap x (some x) (heap x).next z q r y ys o.1 s.2 in
    let below : z < x =
      last-All heap (λ b. b < x) y ys (heap y).next q z s.2.2 (All-Below x (y ∷ ys) o.1).0
        (All-Below x (y ∷ ys) o.1).1 in
    let at : update heap z v x ≡ heap x = update-ne heap z x v (ground arith) in
    (s.0, ap (λ (c : RootContainer). c.prev) at ∙ s.1, rw at rest)

-- Writing the back link of a segment's first container leaves the larger ones alone.
pub set_prev-above :
    (heap : ℕ → RootContainer) (n c : ℕ) (a p b q r : RootPtr) (xs : List ℕ)
    → Below n xs
    → n ≤ c
    → Seg heap a p xs b r
    → r ≡ none
    → set_prev heap p q c ≡ heap c
set_prev-above heap n c a p b q r [] o le s e =
    subst (λ p. set_prev heap p q c ≡ heap c) (sym (s.1 ∙ e)) refl
set_prev-above heap n c a p b q r (x ∷ xs) o le s e =
    let other : update heap x (record (heap x) { prev = q }) c ≡ heap c =
      update-ne heap x c (record (heap x) { prev = q }) (ground arith) in
    subst (λ p. set_prev heap p q c ≡ heap c) (sym s.0) other

pub set_prev-node :
    (heap : ℕ → RootContainer) (p q : RootPtr) (x : ℕ) → (set_prev heap p q x).node ≡ (heap x).node
set_prev-node heap none q x = refl
set_prev-node heap (some y) q x = ground arith

pub set_next-node :
    (heap : ℕ → RootContainer) (p q : RootPtr) (x : ℕ) → (set_next heap p q x).node ≡ (heap x).node
set_next-node heap none q x = refl
set_next-node heap (some y) q x = ground arith

abbrev pub Rooted : (ℕ → RootContainer) → ℕ → Type 0
Rooted heap x = (p : NodePtr) × ((heap x).node ≡ some p)

-- The container is put before the first one, and the others keep their order.
pub link-IsRoots :
    (s : Roots) (c : ℕ) (xs : List ℕ) (p : NodePtr)
    → IsRoots s xs
    → Below c xs
    → c < s.boxes
    → (s.containers c).node ≡ some p
    → IsRoots (link s c) (c ∷ xs)
unfolding link
link-IsRoots s c xs p r o lt e =
    let v = record (s.containers c) { prev = none; next = s.list_head } in
    let heap₀ = update s.containers c v in
    let seg₀ =
      Seg-same s.containers heap₀ xs none s.list_head r.last none
        (same_below s.containers c v xs (All-Below c xs o)) r.seg in
    let (b, seg) = Seg-set_prev heap₀ c none s.list_head r.last (some c) none xs o seg₀ refl in
    let heap = set_prev heap₀ s.list_head (some c) in
    let at : heap c ≡ v =
      set_prev-above heap₀ c c none s.list_head r.last (some c) none xs o (omega arith) seg₀ refl
      ∙ update_self s.containers c v in
    record {
      last = b;
      seg = (refl, ap (λ (c : RootContainer). c.prev) at, rw at seg);
      ordered = (lt, o);
      rooted = (
        (p, ap (λ (c : RootContainer). c.node) at ∙ e),
        All-map _ (Rooted heap) xs
            (λ x h. (
              h.1.0,
              set_prev-node heap₀ s.list_head (some c) x
                  ∙ ap (λ (c : RootContainer). c.node) h.0
                  ∙ h.1.1,
            ))
            (All-zip _ _ xs (same_below s.containers c v xs (All-Below c xs o)) r.rooted),
      );
    }
