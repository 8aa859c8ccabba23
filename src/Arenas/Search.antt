-- ===== src/Arenas/Search.antt =====
-- The lazy sweep of src/dag_node/allocator/node_allocator.rs: what a search for a free node changes,
-- and what it finds.
use mod2gc.Base.{
  ℕ, zero, suc, ◌+◌, ◌-◌, ◌≤◌, ◌<◌, ◌≡◌, refl, inl, inr, true, false, ◌&&◌, Option, none, some,
  Returns, arith, ltb, leb, ◌==◌, if◌then◌else◌, Bool-cases, ==-refl, lt→leb,
}
use mod2gc.Flags.{BitFlags}
use mod2gc.Node.{NodePtr, DagNode, is_marked}
use mod2gc.Arenas.{arena_size, Arena, set_node, find_free}

abbrev pub ptr : ℕ → ℕ → NodePtr
ptr a i = record { arena = a; index = i }

module _ (ops : BitFlags) (forget : DagNode → DagNode) where
  -- The search has passed the nodes from `i` up to `stop` of the arena `c`, which were marked.
  pub record Scanned (heap : ℕ → Arena) (c i stop : ℕ) (heap' : ℕ → Arena) : Type 0 where
    pub forward : i ≤ stop
    pub nodes :
        (a j : ℕ)
        → (heap' a).nodes j ≡ (
            if (a == c) && (leb i j && ltb j stop)
            then forget ((heap a).nodes j)
            else (heap a).nodes j)
    pub links : (a : ℕ) → (heap' a).next_arena ≡ (heap a).next_arena
    pub marks : (j : ℕ) → i ≤ j → j < stop → is_marked ops ((heap c).nodes j) ≡ true

  -- A node is found before `e` and is not marked, or the search has come to `e`.
  abbrev pub Result : (ℕ → Arena) → (c e stop : ℕ) → Option NodePtr → Type 0
  Result heap c e stop none = stop ≡ e
  Result heap c e stop (some p) =
      (p ≡ ptr c stop) × (stop < e) × (is_marked ops ((heap c).nodes stop) ≡ false)

  pub record Searched (heap : ℕ → Arena) (c i e : ℕ) (r : Option NodePtr × (ℕ → Arena))
      : Type 0 where
    pub stop : ℕ
    pub scanned : Scanned heap c i stop r.1
    pub upto : stop ≤ e
    pub result : Result heap c e stop r.0

  Scanned-refl : (heap : ℕ → Arena) (c i : ℕ) → Scanned heap c i i heap
  Scanned-refl heap c i = record {
    forward = omega arith;
    nodes = λ a j. ground arith;
    links = λ a. refl;
    marks = λ j h k. absurd (omega arith);
  }

  Scanned-step :
      (heap : ℕ → Arena) (c i stop : ℕ) (heap' : ℕ → Arena)
      → is_marked ops ((heap c).nodes i) ≡ true
      → Scanned (set_node heap (ptr c i) (forget ((heap c).nodes i))) c (i + 1) stop heap'
      → Scanned heap c i stop heap'
  Scanned-step heap c i stop heap' m d = record {
    forward = omega (arith, d.forward);
    nodes = λ a j. ground (arith, d.nodes a j, d.forward);
    links = λ a. ground (arith, d.links a);
    marks = λ j h k. ground (arith, d.marks j);
  }

  Result-step :
      (heap : ℕ → Arena) (c i e stop : ℕ) (d : DagNode) (found : Option NodePtr)
      → i + 1 ≤ stop
      → Result (set_node heap (ptr c i) d) c e stop found
      → Result heap c e stop found
  Result-step heap c i e stop d none le r = r
  Result-step heap c i e stop d (some p) le r = (r.0, r.1, ground (arith, r.2))

  -- With a round for each node up to an end inside the array, the search for a free node ends
  -- inside the array, at an unmarked node or at the end; it changes the nodes that it passes,
  -- which were marked, and no other.
  pub find_free-Searched :
      (fuel : ℕ) (heap : ℕ → Arena) (c i e : ℕ)
      → i ≤ e
      → e ≤ arena_size
      → e - i < fuel
      → Returns (Searched heap c i e) (find_free ops forget fuel heap (ptr c i) (some (ptr c e)))
  unfolding find_free
  find_free-Searched zero heap c i e le in_array f = absurd (omega arith)
  find_free-Searched (suc fuel) heap c i e le in_array f = elim (Bool-cases (i == e)) [
    | inl at_end ↦ (
      (none, heap),
      rw (==-refl c, at_end),
      record { stop = i; scanned = Scanned-refl heap c i; upto = le; result = ground arith },
    )
    | inr before ↦
        rw (==-refl c, before, lt→leb arena_size i (ground arith))
          (elim (Bool-cases (is_marked ops ((heap c).nodes i))) [
            | inr free ↦ (
              (some (ptr c i), heap),
              rw free (ground arith),
              record {
                stop = i;
                scanned = Scanned-refl heap c i;
                upto = le;
                result = (refl, ground arith, free);
              },
            )
            | inl used ↦
                let heap₁ = set_node heap (ptr c i) (forget ((heap c).nodes i)) in
                let (r, eq, d) =
                  find_free-Searched fuel heap₁ c (i + 1) e (ground arith) in_array
                    (ground arith) in
                (
                  r,
                  rw used eq,
                  record {
                    stop = d.stop;
                    scanned = Scanned-step heap c i d.stop r.1 used d.scanned;
                    upto = d.upto;
                    result =
                        Result-step heap c i e d.stop (forget ((heap c).nodes i)) r.0
                          d.scanned.forward d.result;
                  },
                )
          ])
  ]
