-- ===== src/Vector/Make.antt =====
-- New vectors of src/dag_node/allocator/node_vector.rs: `with_capacity` and `from_slice`.
use mod2gc.Base.{
  ℕ, zero, suc, ◌+◌, ◌*◌, ◌≤◌, ◌<◌, ◌^◌, ◌≡◌, ◌∙◌, refl, inl, inr, true, false, List, [], ok,
  Returns, arith, ltb, ◌==◌, Bool-cases,
}
use mod2gc.Node.{DagNodePtr}
use mod2gc.Storage.{Address, Storage, allocate_storage, usize}
use mod2gc.Storage.Invariant.{Held, Disjoint}
use mod2gc.Storage.Allocate.{allocate_storage-Stored}
use mod2gc.Storage.History.{Sound}
use mod2gc.Vector.{
  Slice, NodeVector, Memory, same_address, write, vector_size, slot, set, with_capacity, copy_items,
}
use mod2gc.Vector.Owns.{Owns, Grows, same_address-false}

-- A vector that did not stand in the memory `m`: its blocks are clear of those handed out before.
pub record Made (m : Memory) (xs : List DagNodePtr) (cap : ℕ) (r : Address × Memory) : Type 0 where
  pub owns : Owns r.1 r.0 xs cap
  pub grows : Grows m r.1
  pub clear :
      (a : Address) (n : ℕ)
      → Held m.storage a n
      → Disjoint a n r.0 vector_size × Disjoint a n owns.ptr (8 * cap)

-- The vector that `with_capacity` puts at `v`.
abbrev pub empty_vector : (p : Address) (cap : ℕ) → NodeVector
empty_vector p cap = record { length = 0; capacity = cap; slice = record { ptr = p; len = cap } }

with_capacity-eq :
    (base : ℕ → ℕ) (m : Memory) (cap n : ℕ) (r q : Address × Storage)
    → allocate_storage base m.storage vector_size ≡ ok r
    → usize (cap * 8) ≡ n
    → allocate_storage base r.1 n ≡ ok q
    → with_capacity base cap m
      ≡ ok (r.0, record m { storage = q.1; vectors = write m.vectors r.0 (empty_vector q.0 cap) })
unfolding with_capacity
with_capacity-eq base m cap n r q e size e' = rw (e, size, e') refl

module _ (base : ℕ → ℕ) (m : Memory) (sound : Sound m.storage) (cap : ℕ)
    (small : cap < 2 ^ 57) where
  -- An empty vector in blocks of its own.
  pub with_capacity-Made : Returns (Made m [] cap) (with_capacity base cap m)
  with_capacity-Made =
      let (r, e, d) =
        allocate_storage-Stored base m.storage sound.front sound.unused vector_size sound.valid refl
          (omega arith) in
      let size : usize (cap * 8) ≡ 8 * cap = omega arith in
      let (q, e', d') =
        allocate_storage-Stored base r.1 d.front sound.unused (8 * cap) d.valid (omega arith)
          (omega arith) in
      let m' : Memory = record m {
        storage = q.1;
        vectors = write m.vectors r.0 (empty_vector q.0 cap);
      } in
      (
        (r.0, m'),
        with_capacity-eq base m cap (8 * cap) r q e size e',
        record {
          owns = record {
            ptr = q.0;
            header = ground arith;
            fits = omega arith;
            small = small;
            held = (d'.keeps r.0 vector_size d.held).0;
            held_slots = d'.held;
            items = λ i h. absurd (omega arith);
          };
          grows = record {
            held = λ a n h. (d'.keeps a n (d.keeps a n h).0).0;
            vectors = λ a h.
                rw
                  (same_address-false a r.0 vector_size vector_size (d.keeps a vector_size h).1
                    (omega arith) (omega arith))
                  refl;
            slots = λ a h. refl;
            sound = record { front = d'.front; unused = sound.unused; valid = d'.valid };
          };
          clear = λ a n h. ((d.keeps a n h).1, (d'.keeps a n (d.keeps a n h).0).1);
        },
      )

-- An address that is none of the slots.
abbrev pub Outside : Slice → Address → Type 0
Outside d a = (j : ℕ) → j < d.len → same_address a (slot d.ptr j) ≡ false

-- The slots from `i` on hold the values, and nothing else is written.
pub record Filled (m : Memory) (d : Slice) (i left : ℕ) (vals : ℕ → DagNodePtr) (m' : Memory)
    : Type 0 where
  pub slots : Address → DagNodePtr
  pub same : m' ≡ record m { slots = slots }
  pub inside : (j : ℕ) → i ≤ j → j < i + left → slots (slot d.ptr j) ≡ vals j
  pub outside :
      (a : Address)
      → ((j : ℕ) → i ≤ j → j < i + left → same_address a (slot d.ptr j) ≡ false)
      → slots a ≡ m.slots a

-- One slot is written, and then the rest.
Filled-suc :
    (m : Memory) (d : Slice) (i left : ℕ) (vals : ℕ → DagNodePtr) (m' : Memory)
    → Filled (record m { slots = write m.slots (slot d.ptr i) (vals i) }) d (i + 1) left vals m'
    → Filled m d i (suc left) vals m'
Filled-suc m d i left vals m' f = record {
  slots = f.slots;
  same = f.same;
  inside = λ j le lt. elim (Bool-cases (i == j)) [
    | inl here ↦
        let eq : i ≡ j = ground arith in
        let at : f.slots (slot d.ptr i) ≡ vals i =
          f.outside (slot d.ptr i) (λ k h g. ground arith) ∙ ground arith in
        rw (← eq) at
    | inr later ↦ f.inside j (ground arith) (omega arith)
  ];
  outside = λ a h.
      f.outside a (λ j le lt. h j (omega arith) (omega arith))
      ∙ (let other : same_address a (slot d.ptr i) ≡ false = h i (omega arith) (omega arith) in
          rw other refl);
}

-- The loop fills its slots, if what it reads is not among them.
pub copy_items-Filled :
    (item : Memory → ℕ → DagNodePtr) (d : Slice) (vals : ℕ → DagNodePtr) (i left : ℕ) (m : Memory)
    → i + left ≤ d.len
    → ((f : Address → DagNodePtr)
        → ((a : Address) → Outside d a → f a ≡ m.slots a)
        → (j : ℕ) → j < i + left
        → item (record m { slots = f }) j ≡ vals j)
    → Returns (Filled m d i left vals) (copy_items item d i left m)
unfolding copy_items set
copy_items-Filled item d vals i zero m le stable = (
  m,
  refl,
  record {
    slots = m.slots;
    same = refl;
    inside = λ j h g. absurd (omega arith);
    outside = λ a h. refl;
  },
)
copy_items-Filled item d vals i (suc left) m le stable =
    let m₁ : Memory = record m { slots = write m.slots (slot d.ptr i) (vals i) } in
    let value : item m i ≡ vals i = stable m.slots (λ a h. refl) i (omega arith) in
    let (r, e, f) = copy_items-Filled item d vals (i + 1) left m₁ (omega arith) (λ g h j lt.
      stable g (λ a out. h a out ∙ (let other = out i (omega arith) in rw other refl)) j
        (omega arith)) in
    let room : ltb i d.len ≡ true = ground arith in
    (r, rw (room, value) e, Filled-suc m d i left vals r f)
