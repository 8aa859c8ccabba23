-- ===== src/Roots/Refine.antt =====
-- src/dag_node/root_container.rs refines a list of roots: `new`, `drop` and `mark_roots`.
use mod2gc.Base.{
  ℕ, zero, suc, ◌+◌, ◌<◌, ◌≡◌, ◌∙◌, refl, ap, sym, subst, >>=-cong, Below-mono, none, some, List,
  [], ◌∷◌, ◌++◌, Outcome, ok, ◌>>=◌, Returns, arith, update, update_self, All, All-map, All-zip,
  All-of_append, length, All-Below, length-Below,
}
use mod2gc.Node.{NodePtr, DagNodePtr}
use mod2gc.Roots.{
  RootPtr, RootContainer, Roots, set_prev, link, unlink, new, drop, mark_root, mark_from,
  mark_roots,
}
use mod2gc.Roots.Segments.{Seg, Seg-same}
use mod2gc.Roots.Laws.{IsRoots, same_below, link-IsRoots, Rooted, set_prev-node, set_next-node}
use mod2gc.Roots.Unlink.{unlink-IsRoots}

abbrev pub put : DagNodePtr → List NodePtr → List NodePtr
put none ps = ps
put (some p) ps = p ∷ ps

-- The nodes that a list of containers holds.
abbrev pub nodes_of : (ℕ → RootContainer) → List ℕ → List NodePtr
nodes_of heap [] = []
nodes_of heap (x ∷ xs) = put (heap x).node (nodes_of heap xs)

nodes_of-same :
    (h h' : ℕ → RootContainer) (xs : List ℕ)
    → All (λ x. (h' x).node ≡ (h x).node) xs
    → nodes_of h' xs ≡ nodes_of h xs
nodes_of-same h h' [] e = refl
nodes_of-same h h' (x ∷ xs) e =
    ap (λ n. put n (nodes_of h' xs)) e.0 ∙ ap (put (h x).node) (nodes_of-same h h' xs e.1)

put-append : (n : DagNodePtr) (ps qs : List NodePtr) → put n (ps ++ qs) ≡ put n ps ++ qs
put-append none ps qs = refl
put-append (some p) ps qs = refl

nodes_of-append :
    (h : ℕ → RootContainer) (xs ys : List ℕ)
    → nodes_of h (xs ++ ys) ≡ nodes_of h xs ++ nodes_of h ys
nodes_of-append h [] ys = refl
nodes_of-append h (x ∷ xs) ys =
    ap (put (h x).node) (nodes_of-append h xs ys)
    ∙ put-append (h x).node (nodes_of h xs) (nodes_of h ys)

nodes_of-rooted :
    (h : ℕ → RootContainer) (x : ℕ) (p : NodePtr) (xs : List ℕ)
    → (h x).node ≡ some p
    → nodes_of h (x ∷ xs) ≡ p ∷ nodes_of h xs
nodes_of-rooted h x p xs e = ap (λ n. put n (nodes_of h xs)) e

link-node : (s : Roots) (c x : ℕ) → ((link s c).containers x).node ≡ (s.containers x).node
unfolding link
link-node s c x =
    let v = record (s.containers c) { prev = none; next = s.list_head } in
    set_prev-node (update s.containers c v) s.list_head (some c) x ∙ ground arith

unlink-node : (s : Roots) (c x : ℕ) → ((unlink s c).containers x).node ≡ (s.containers x).node
unfolding unlink
unlink-node s c x =
    let heap = set_prev s.containers (s.containers c).next (s.containers c).prev in
    set_next-node heap (heap c).prev (heap c).next x
    ∙ set_prev-node s.containers (s.containers c).next (s.containers c).prev x

-- The list has the containers `xs`, which hold the nodes `ps`.
pub record Holds (s : Roots) (xs : List ℕ) (ps : List NodePtr) : Type 0 where
  pub roots : IsRoots s xs
  pub nodes : nodes_of s.containers xs ≡ ps

all : {P : ℕ → Type 0} → ((x : ℕ) → P x) → (xs : List ℕ) → All P xs
all f [] = tt
all f (x ∷ xs) = (f x, all f xs)

-- From a list of roots, `RootContainer::new` with a node succeeds and gives a container that is
-- the new head of a well-formed doubly linked list: the list of the nodes held has that node in
-- front of the others, in their order.
pub new-Holds :
    (s : Roots) (xs : List ℕ) (ps : List NodePtr) (p : NodePtr)
    → Holds s xs ps
    → Returns (λ r. Holds r.1 (r.0 ∷ xs) (p ∷ ps)) (new s (some p))
unfolding new
new-Holds s xs ps p r =
    let b = s.boxes in
    let v : RootContainer = record { next = none; prev = none; node = some p } in
    let heap = update s.containers b v in
    let s₀ : Roots = record s { containers = heap; boxes = b + 1 } in
    let same = same_below s.containers b v xs (All-Below b xs r.roots.ordered) in
    let here : (heap b).node ≡ some p =
      ap (λ (c : RootContainer). c.node) (update_self s.containers b v) in
    let r₀ : IsRoots s₀ xs = record {
      last = r.roots.last;
      seg = Seg-same s.containers heap xs none s.list_head r.roots.last none same r.roots.seg;
      ordered = Below-mono b (b + 1) xs (omega arith) r.roots.ordered;
      rooted =
          All-map _ (Rooted heap) xs
            (λ x h. (h.1.0, ap (λ (c : RootContainer). c.node) h.0 ∙ h.1.1))
            (All-zip _ _ xs same r.roots.rooted);
    } in
    (
      (b, link s₀ b),
      refl,
      record {
        roots = link-IsRoots s₀ b xs p r₀ r.roots.ordered (omega arith) here;
        nodes =
            nodes_of-same heap (link s₀ b).containers (b ∷ xs) (all (link-node s₀ b) (b ∷ xs))
            ∙ nodes_of-rooted heap b p xs here
            ∙ ap (λ t. p ∷ t)
                (nodes_of-same s.containers heap xs
                    (All-map _ _ xs (λ x h. ap (λ (c : RootContainer). c.node) h) same)
                  ∙ r.nodes);
      },
    )

drop-unlink :
    (s : Roots) (c : ℕ) (p : NodePtr) → (s.containers c).node ≡ some p → drop s c ≡ unlink s c
unfolding drop
drop-unlink s c p e = ap (λ n. elim n [ none ↦ s | some _ ↦ unlink s c ]) e

-- Dropping a root anywhere in the doubly linked list leaves a well-formed doubly linked list of
-- the others, in their order and with their nodes.
pub drop-Holds :
    (s : Roots) (xs : List ℕ) (c : ℕ) (ys : List ℕ)
    → IsRoots s (xs ++ c ∷ ys)
    → Holds (drop s c) (xs ++ ys) (nodes_of s.containers xs ++ nodes_of s.containers ys)
drop-Holds s xs c ys r =
    let (p, e) = (All-of_append (Rooted s.containers) xs (c ∷ ys) r.rooted).0 in
    subst (λ t. Holds t (xs ++ ys) (nodes_of s.containers xs ++ nodes_of s.containers ys))
      (sym (drop-unlink s c p e))
      (record {
        roots = unlink-IsRoots s xs c ys r;
        nodes =
            nodes_of-same s.containers (unlink s c).containers (xs ++ ys)
              (all (unlink-node s c) (xs ++ ys))
            ∙ nodes_of-append s.containers xs ys;
      })

module _ {ℓ} {S : Type ℓ} (mark : NodePtr → S → Outcome S) where
  -- The nodes of a list are marked, one after another.
  abbrev pub mark_each : List NodePtr → S → Outcome S
  mark_each [] t = ok t
  mark_each (p ∷ ps) t = mark p t >>= mark_each ps

  mark_from-mark_each :
      (fuel : ℕ) (heap : ℕ → RootContainer) (a p b : RootPtr) (xs : List ℕ) (t : S)
      → Seg heap a p xs b none
      → All (Rooted heap) xs
      → length xs < fuel
      → mark_from mark fuel heap p t ≡ mark_each (nodes_of heap xs) t
  unfolding mark_from mark_root
  mark_from-mark_each zero heap a p b xs t s h f = absurd (omega arith)
  mark_from-mark_each (suc fuel) heap a p b [] t s h f = rw s.1
  mark_from-mark_each (suc fuel) heap a p b (x ∷ xs) t s h f =
      rw (s.0, h.0.1)
        (>>=-cong (mark h.0.0 t) (mark_from mark fuel heap (heap x).next)
          (mark_each (nodes_of heap xs))
          (λ u. mark_from-mark_each fuel heap (some x) (heap x).next b xs u s.2 h.1 (omega arith)))

  -- On a well-formed list of roots `mark_roots` is the visit of each node that the list holds, one
  -- after another from the newest to the oldest, whatever a visit does.
  pub mark_roots-mark_each :
      (s : Roots) (xs : List ℕ) (ps : List NodePtr) (t : S)
      → Holds s xs ps
      → mark_roots mark s t ≡ mark_each ps t
  unfolding mark_roots
  mark_roots-mark_each s xs ps t r =
      mark_from-mark_each (s.boxes + 1) s.containers none s.list_head r.roots.last xs t r.roots.seg
        r.roots.rooted (omega (arith, length-Below s.boxes xs r.roots.ordered))
      ∙ ap (λ ps. mark_each ps t) r.nodes
