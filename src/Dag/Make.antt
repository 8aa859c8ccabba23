-- ===== src/Dag/Make.antt =====
-- The arguments that `with_args` of src/dag_node/node.rs makes.
use mod2gc.Base.{
  ℕ, ◌+◌, ◌*◌, ◌^◌, ◌≤◌, ◌<◌, ◌≡◌, ◌∙◌, refl, sym, subst, inl, inr, true, false, ◌||◌, List, [],
  ◌∷◌, ◌++◌, ok, Returns, arith, length, length-append, max, ltb, Bool-cases,
}
use mathlib.Core.List.{append-nil, append_assoc}
use mod2gc.Flags.{BitFlags}
use mod2gc.Node.{DagNodePtr, DagNodeArgument, no_args, single, many, DagNode}
use mod2gc.Symbol.{Symbol}
use mod2gc.Storage.{Address}
use mod2gc.Storage.Invariant.{Held, Disjoint}
use mod2gc.Storage.History.{Sound}
use mod2gc.Vector.{Memory, vector_size, with_capacity}
use mod2gc.Vector.Owns.{Grows, same_address-false}
use mod2gc.Vector.Make.{Made, with_capacity-Made}
use mod2gc.Vector.Change.{Pushed, push_lem}
use mod2gc.Dag.{push_all, make_args}
use mod2gc.Dag.Graph.{Shape}

-- A vector of children has room for two.
abbrev pub Wide : ℕ → DagNodeArgument → Type 0
Wide n no_args = Unit
Wide n (single q) = Unit
Wide n (many v) = 1 < n

-- A push to a new vector leaves what was there before alone.
Made-Pushed :
    (m m₁ m₂ : Memory) (v : Address) (ys : List DagNodePtr) (cap : ℕ) (x : DagNodePtr)
    → (d : Made m ys cap (v, m₁)) → Pushed m₁ v d.owns.ptr ys cap x m₂
    → Made m (ys ++ x ∷ []) cap (v, m₂)
Made-Pushed m m₁ m₂ v ys cap x d p = record {
  owns = p.owns;
  grows = record {
    held = λ a n h. subst (λ s. Held s a n) (sym p.changed.storage) (d.grows.held a n h);
    vectors = λ a h.
        p.changed.vectors a (
          same_address-false a v vector_size vector_size (d.clear a vector_size h).0 (omega arith)
            (omega arith))
        ∙ d.grows.vectors a h;
    slots = λ a h. p.changed.slots a (d.clear a 8 h).1 ∙ d.grows.slots a h;
    sound = subst Sound (sym p.changed.storage) d.grows.sound;
  };
  clear = λ a n h.
      let (first, last) = d.clear a n h in
      (first, subst (λ q. Disjoint a n q (8 * cap)) (sym p.same_slots) last);
}

push_all-Made :
    (m m₁ : Memory) (v : Address) (ys xs : List DagNodePtr) (cap : ℕ)
    → Made m ys cap (v, m₁)
    → length ys + length xs ≤ cap
    → Returns (λ t. Made m (ys ++ xs) cap (v, t)) (push_all v xs m₁)
unfolding push_all
push_all-Made m m₁ v ys [] cap d le = (m₁, refl, rw append-nil d)
push_all-Made m m₁ v ys (x ∷ xs) cap d le =
    let (t, e, p) = push_lem m₁ v ys cap d.owns x (omega arith) in
    let (u, f, w) =
      push_all-Made m t v (ys ++ x ∷ []) xs cap (Made-Pushed m m₁ t v ys cap x d p)
        (omega (arith, length-append ys (x ∷ []))) in
    (u, rw e f, subst (λ zs. Made m zs cap (v, u)) (append_assoc ys (x ∷ []) xs) w)

module _ (ops : BitFlags) (base : ℕ → ℕ) (junk : ℕ → ℕ → DagNode) (symbols : ℕ → Symbol) where
  make_args-many :
      (arity : ℕ) (args : List DagNodePtr) (m : Memory) (v : Address) (m₁ m₂ : Memory)
      → (ltb 1 arity || ltb 1 (length args)) ≡ true
      → with_capacity base (max arity (length args)) m ≡ ok (v, m₁)
      → push_all v args m₁ ≡ ok m₂
      → make_args ops base junk symbols arity args m ≡ ok (many v, m₂)
  unfolding make_args
  make_args-many arity args m v m₁ m₂ b e f = rw (b, e, f) refl

  make_args-few :
      (arity : ℕ) (args : List DagNodePtr) (m : Memory)
      → (ltb 1 arity || ltb 1 (length args)) ≡ false
      → Sound m.storage
      → Returns
          (λ r.
            Grows m r.1
            × Shape r.1 (max arity (length args)) r.0 args
            × Wide (max arity (length args)) r.0)
          (make_args ops base junk symbols arity args m)
  unfolding make_args
  make_args-few arity [] m b sound = (
    (no_args, m),
    rw b refl,
    (
      record { held = λ a n k. k; vectors = λ a k. refl; slots = λ a k. refl; sound = sound },
      refl,
      tt,
    ),
  )
  make_args-few arity (x ∷ []) m b sound = (
    (single x, m),
    rw b refl,
    (
      record { held = λ a n k. k; vectors = λ a k. refl; slots = λ a k. refl; sound = sound },
      refl,
      tt,
    ),
  )
  make_args-few arity (x ∷ y ∷ xs) m b sound = absurd (ground (arith, b))

  pub make_args-Shape :
      (arity : ℕ) (args : List DagNodePtr) (m : Memory)
      → Sound m.storage
      → arity < 2 ^ 57
      → length args < 2 ^ 57
      → Returns
          (λ r.
            Grows m r.1
            × Shape r.1 (max arity (length args)) r.0 args
            × Wide (max arity (length args)) r.0)
          (make_args ops base junk symbols arity args m)
  make_args-Shape arity args m sound small small' =
      elim (Bool-cases (ltb 1 arity || ltb 1 (length args))) [
        | inr few ↦ make_args-few arity args m few sound
        | inl more ↦
            let (r, e, d) =
              with_capacity-Made base m sound (max arity (length args)) (omega arith) in
            let (t, f, w) =
              push_all-Made m r.1 r.0 [] args (max arity (length args)) d (omega arith) in
            (
              (many r.0, t),
              make_args-many arity args m r.0 r.1 t more e f,
              (w.grows, w.owns, ground (arith, more)),
            )
      ]
