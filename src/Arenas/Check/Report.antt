-- ===== src/Arenas/Check/Report.antt =====
-- What `check_invariant` and `check_arenas` of src/dag_node/allocator/node_allocator.rs report.
use mod2gc.Base.{
  ℕ, zero, suc, ◌+◌, ◌-◌, ◌%◌, ◌^◌, ◌≤◌, ◌<◌, ◌≡◌, ◌∙◌, refl, ap, sym, subst, ◌⊎◌, inl, inr, Bool,
  true, false, some, List, [], ◌∷◌, ◌++◌, Outcome, ok, ◌>>=◌, Returns, arith, ◌==◌, if◌then◌else◌,
  Bool-cases,
}
use mod2gc.Flags.{BitFlags}
use mod2gc.Node.{DagNode, is_marked}
use mod2gc.Arenas.{arena_size, NodeAllocator}
use mod2gc.Arenas.Invariant.{IsLinked, marked_at}
use mod2gc.Arenas.Check.{check_nodes, check_from}

-- The node `j` of the arena `a` is in the list.
abbrev pub Listed : List (ℕ × ℕ) → ℕ → ℕ → Type 0
Listed [] a j = ⊥
Listed (x ∷ xs) a j = ((x.0 ≡ a) × (x.1 ≡ j)) ⊎ Listed xs a j

Listed-first : (xs ys : List (ℕ × ℕ)) (a j : ℕ) → Listed xs a j → Listed (xs ++ ys) a j
Listed-first [] ys a j l = absurd l
Listed-first (x ∷ xs) ys a j (inl e) = inl e
Listed-first (x ∷ xs) ys a j (inr l) = inr (Listed-first xs ys a j l)

Listed-last : (xs ys : List (ℕ × ℕ)) (a j : ℕ) → Listed ys a j → Listed (xs ++ ys) a j
Listed-last [] ys a j l = l
Listed-last (x ∷ xs) ys a j l = inr (Listed-last xs ys a j l)

Listed-of_append :
    (xs ys : List (ℕ × ℕ)) (a j : ℕ) → Listed (xs ++ ys) a j → Listed xs a j ⊎ Listed ys a j
Listed-of_append [] ys a j l = inr l
Listed-of_append (x ∷ xs) ys a j (inl e) = inl (inl e)
Listed-of_append (x ∷ xs) ys a j (inr l) = elim (Listed-of_append xs ys a j l) [
  | inl m ↦ inl (inr m)
  | inr m ↦ inr m
]

module _ (ops : BitFlags) where
  check_nodes-finds :
      (nodes : ℕ → DagNode) (k i left j : ℕ)
      → i ≤ j
      → j < i + left
      → is_marked ops (nodes j) ≡ true
      → Listed (check_nodes ops nodes k i left) k j
  unfolding check_nodes
  check_nodes-finds nodes k i zero j le lt m = absurd (omega arith)
  check_nodes-finds nodes k i (suc left) j le lt m = elim (Bool-cases (i == j)) [
    | inl here ↦
        let same : i ≡ j = ground arith in
        let live : is_marked ops (nodes i) ≡ true = rw same m in rw live (inl (refl, same))
    | inr later ↦
        let rest = check_nodes-finds nodes k (i + 1) left j (ground arith) (omega arith) m in
        elim (Bool-cases (is_marked ops (nodes i))) [
          | inl live ↦ rw live (inr rest)
          | inr idle ↦ rw idle rest
        ]
  ]

  check_nodes-found :
      (nodes : ℕ → DagNode) (k i left a j : ℕ)
      → Listed (check_nodes ops nodes k i left) a j
      → (a ≡ k) × (i ≤ j) × (j < i + left) × (is_marked ops (nodes j) ≡ true)
  unfolding check_nodes
  check_nodes-found nodes k i zero a j l = absurd l
  check_nodes-found nodes k i (suc left) a j l = elim (Bool-cases (is_marked ops (nodes i))) [
    | inr idle ↦
        let (same, le, lt, m) = check_nodes-found nodes k (i + 1) left a j (rw idle at l) in
        (same, omega arith, omega arith, m)
    | inl live ↦ elim (rw live at l) [
      | inl (e, f) ↦ (sym e, omega (arith, f), omega (arith, f), rw (← f) live)
      | inr l' ↦
          let (same, le, lt, m) = check_nodes-found nodes k (i + 1) left a j l' in
          (same, omega arith, omega arith, m)
    ]
  ]

  -- The loop over the arenas reports the marked nodes that it comes to, and nothing else.
  abbrev pub Seen : NodeAllocator → (c n b j : ℕ) → Type 0
  Seen s c n b j =
      (((b < c) × (j < arena_size)) ⊎ ((b ≡ c) × (j < n))) × (marked_at ops s b j ≡ true)

  -- A list of just the marked nodes from the arena `a` on.
  abbrev pub Reports : NodeAllocator → (c n a : ℕ) → List (ℕ × ℕ) → Type 0
  Reports s c n a xs =
      (b j : ℕ)
      → (Listed xs b j → (a ≤ b) × Seen s c n b j) × (a ≤ b → Seen s c n b j → Listed xs b j)

  module _ (s : NodeAllocator) (c n : ℕ) (bound_of : ℕ → Outcome ℕ) (linked : IsLinked s)
      (exists : c < s.boxes) (small : s.boxes < 2 ^ 32) (current : s.current_arena ≡ some c)
      (full : (a : ℕ) → a < c → bound_of a ≡ ok arena_size) (last : bound_of c ≡ ok n) where
    -- The round of one arena.
    check_from-eq :
        (fuel a k m : ℕ) (on : Bool)
        → bound_of a ≡ ok m
        → (a == c) ≡ on
        → check_from ops bound_of (suc fuel) s (some a) k ≡ (
            if on
            then ok (check_nodes ops (s.arenas a).nodes k 0 m)
            else (check_from ops bound_of fuel s (s.arenas a).next_arena ((k + 1) % 2 ^ 32)
                >>= λ xs. ok (check_nodes ops (s.arenas a).nodes k 0 m ++ xs)))
    unfolding check_from
    check_from-eq fuel a k m on e here = rw (e, current, here) refl

    pub check_from-Reports :
        (fuel a : ℕ)
        → a ≤ c
        → c - a < fuel
        → Returns (Reports s c n a) (check_from ops bound_of fuel s (some a) a)
    check_from-Reports zero a le f = absurd (omega arith)
    check_from-Reports (suc fuel) a le f = elim (Bool-cases (a == c)) [
      | inl here ↦
          let same : a ≡ c = ground arith in
          let bound : bound_of a ≡ ok n = ap bound_of same ∙ last in
          (
            check_nodes ops (s.arenas a).nodes a 0 n,
            check_from-eq fuel a a n true bound here,
            λ b j. (
              (λ l.
                  let (e, _, lt, m) = check_nodes-found (s.arenas a).nodes a 0 n b j l in
                  (omega (arith, e), (inr (e ∙ same, omega (arith, lt)), rw e m))),
              (λ ge (place, m).
                  let e : b ≡ a = ground (arith, place, same) in
                  let lt : j < n = ground (arith, place, same) in
                  subst (λ b. Listed (check_nodes ops (s.arenas a).nodes a 0 n) b j) (sym e)
                    (check_nodes-finds (s.arenas a).nodes a 0 n j (omega arith) (omega (arith, lt))
                      (rw (← e) m))),
            ),
          )
      | inr later ↦
          let before : a < c = ground arith in
          let (xs, e, reports) = check_from-Reports fuel (a + 1) (omega arith) (omega arith) in
          let next : (s.arenas a).next_arena ≡ some (a + 1) =
            linked.links a (omega (arith, exists)) in
          let number : (a + 1) % 2 ^ 32 ≡ a + 1 = omega (arith, exists, small) in
          let found = check_nodes ops (s.arenas a).nodes a 0 arena_size in
          (
            found ++ xs,
            check_from-eq fuel a a arena_size false (full a before) later
                ∙ ap
                    (λ p. check_from ops bound_of fuel s p ((a + 1) % 2 ^ 32) >>= λ xs.
                      ok (found ++ xs))
                    next
                ∙ ap
                    (λ k.
                      check_from ops bound_of fuel s (some (a + 1)) k >>= λ xs. ok (found ++ xs))
                    number
                ∙ ap (λ m. m >>= λ xs. ok (found ++ xs)) e,
            λ b j. (
              (λ l. elim (Listed-of_append found xs b j l) [
                | inl l' ↦
                    let (e, _, lt, m) =
                      check_nodes-found (s.arenas a).nodes a 0 arena_size b j l' in
                    (omega (arith, e), (inl (omega (arith, e), omega (arith, lt)), rw e m))
                | inr l' ↦ (let (ge, seen) = (reports b j).0 l' in (omega (arith, ge), seen))
              ]),
              (λ ge seen. elim (Bool-cases (b == a)) [
                | inl at ↦
                    let e : b ≡ a = ground arith in
                    let lt : j < arena_size =
                      (let place = seen.0 in ground (arith, place, e, before)) in
                    subst (λ b. Listed (found ++ xs) b j) (sym e)
                      (Listed-first found xs a j (
                        check_nodes-finds (s.arenas a).nodes a 0 arena_size j (omega arith)
                          (omega (arith, lt)) (rw (← e) seen.1)))
                | inr other ↦
                    Listed-last found xs b j ((reports b j).1 (ground (arith, ge, other)) seen)
              ]),
            ),
          )
    ]
