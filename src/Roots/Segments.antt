-- ===== src/Roots/Segments.antt =====
-- Parts of the doubly linked list of src/dag_node/root_container.rs as lists of container numbers.
use mod2gc.Base.{ℕ, ◌≡◌, refl, ◌∙◌, ap, some, List, [], ◌∷◌, ◌++◌, All}
use mod2gc.Roots.{RootPtr, RootContainer}

-- From the pointer `p`, behind the container `before`, the links lead both ways through `xs`, whose
-- last container is `last`, to the pointer `q`.
abbrev pub Seg :
    (heap : ℕ → RootContainer) (before p : RootPtr) (xs : List ℕ) (last q : RootPtr) → Type 0
Seg heap before p [] last q = (before ≡ last) × (p ≡ q)
Seg heap before p (x ∷ xs) last q =
    (p ≡ some x) × ((heap x).prev ≡ before) × Seg heap (some x) (heap x).next xs last q

pub Seg-append :
    (heap : ℕ → RootContainer) (xs ys : List ℕ) (a p m q b r : RootPtr)
    → Seg heap a p xs m q
    → Seg heap m q ys b r
    → Seg heap a p (xs ++ ys) b r
Seg-append heap [] ys a p m q b r s t = rw (s.0, s.1) t
Seg-append heap (x ∷ xs) ys a p m q b r s t =
    (s.0, s.1, Seg-append heap xs ys (some x) (heap x).next m q b r s.2 t)

-- A segment that is cut in two.
pub record Cut (heap : ℕ → RootContainer) (a p : RootPtr) (xs ys : List ℕ) (b r : RootPtr)
    : Type 0 where
  pub middle : RootPtr
  pub point : RootPtr
  pub front : Seg heap a p xs middle point
  pub back : Seg heap middle point ys b r

pub Seg-Cut :
    (heap : ℕ → RootContainer) (xs ys : List ℕ) (a p b r : RootPtr)
    → Seg heap a p (xs ++ ys) b r
    → Cut heap a p xs ys b r
Seg-Cut heap [] ys a p b r s = record { middle = a; point = p; front = (refl, refl); back = s }
Seg-Cut heap (x ∷ xs) ys a p b r s =
    let c = Seg-Cut heap xs ys (some x) (heap x).next b r s.2 in
    record { middle = c.middle; point = c.point; front = (s.0, s.1, c.front); back = c.back }

-- A segment is left alone by writes to other containers.
pub Seg-same :
    (heap heap' : ℕ → RootContainer) (xs : List ℕ) (a p b r : RootPtr)
    → All (λ x. heap' x ≡ heap x) xs
    → Seg heap a p xs b r
    → Seg heap' a p xs b r
Seg-same heap heap' [] a p b r e s = s
Seg-same heap heap' (x ∷ xs) a p b r e s = (
  s.0,
  ap (λ (c : RootContainer). c.prev) e.0 ∙ s.1,
  rw e.0 (Seg-same heap heap' xs (some x) (heap x).next b r e.1 s.2),
)

pub some_injective : {x z : ℕ} → ◌≡◌ {A = RootPtr} (some x) (some z) → x ≡ z
some_injective e = cc

-- The last container of a segment that is not empty has what all of them have.
pub last-All :
    (heap : ℕ → RootContainer) (P : ℕ → Type 0) (x : ℕ) (xs : List ℕ) (p r : RootPtr) (z : ℕ)
    → Seg heap (some x) p xs (some z) r
    → P x
    → All P xs
    → P z
last-All heap P x [] p r z s h all = rw (← some_injective s.0) h
last-All heap P x (y ∷ ys) p r z s h all = last-All heap P y ys (heap y).next r z s.2 all.0 all.1
