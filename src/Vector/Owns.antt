-- ===== src/Vector/Owns.antt =====
-- What it means that a vector of src/dag_node/allocator/node_vector.rs stands in memory with given
-- items, and when a change of the memory keeps it.
use mod2gc.Base.{
  ℕ, zero, suc, ◌+◌, ◌*◌, ◌≤◌, ◌<◌, ◌^◌, ◌≡◌, ◌∙◌, refl, false, none, List, [], ◌∷◌, arith, length,
}
use mod2gc.Node.{DagNodePtr}
use mod2gc.Storage.{Address, Storage}
use mod2gc.Storage.Invariant.{Held, Disjoint}
use mod2gc.Storage.History.{Sound}
use mod2gc.Vector.{Memory, same_address, vector_size, slot, items_from}

-- The item at an index, null behind the end.
abbrev pub nth : List DagNodePtr → ℕ → DagNodePtr
nth [] i = none
nth (x ∷ xs) zero = x
nth (x ∷ xs) (suc i) = nth xs i

-- The vector at `v` has the items `xs` and room for `cap`; its header and its slots are two blocks
-- that have been handed out.
pub record Owns (m : Memory) (v : Address) (xs : List DagNodePtr) (cap : ℕ) : Type 0 where
  pub ptr : Address
  pub header :
      m.vectors v
      ≡ record { length = length xs; capacity = cap; slice = record { ptr = ptr; len = cap } }
  pub fits : length xs ≤ cap
  pub small : cap < 2 ^ 57
  pub held : Held m.storage v vector_size
  pub held_slots : Held m.storage ptr (8 * cap)
  pub items : (i : ℕ) → i < length xs → m.slots (slot ptr i) ≡ nth xs i

-- Blocks handed out stay so, and what they hold is left alone.
pub record Grows (m m' : Memory) : Type 0 where
  pub held : (a : Address) (n : ℕ) → Held m.storage a n → Held m'.storage a n
  pub vectors : (a : Address) → Held m.storage a vector_size → m'.vectors a ≡ m.vectors a
  pub slots : (a : Address) → Held m.storage a 8 → m'.slots a ≡ m.slots a
  pub sound : Sound m'.storage

pub Grows-trans : (m m' m'' : Memory) → Grows m m' → Grows m' m'' → Grows m m''
Grows-trans m m' m'' g h = record {
  held = λ a n k. h.held a n (g.held a n k);
  vectors = λ a k. h.vectors a (g.held a vector_size k) ∙ g.vectors a k;
  slots = λ a k. h.slots a (g.held a 8 k) ∙ g.slots a k;
  sound = h.sound;
}

-- A slot of a block that is held.
pub slot-Held :
    (s : Storage) (p : Address) (cap i : ℕ) → Held s p (8 * cap) → i < cap → Held s (slot p i) 8
slot-Held s p cap i h lt = record { exists = h.exists; passed = omega (arith, h.passed) }

pub Owns-Grows :
    (m m' : Memory) (v : Address) (xs : List DagNodePtr) (cap : ℕ)
    → Grows m m'
    → Owns m v xs cap
    → Owns m' v xs cap
Owns-Grows m m' v xs cap g o = record {
  ptr = o.ptr;
  header = g.vectors v o.held ∙ o.header;
  fits = o.fits;
  small = o.small;
  held = g.held v vector_size o.held;
  held_slots = g.held o.ptr (8 * cap) o.held_slots;
  items = λ i h.
      g.slots (slot o.ptr i) (slot-Held m.storage o.ptr cap i o.held_slots (omega (arith, o.fits)))
      ∙ o.items i h;
}

-- The items that a walk over the slots gives.
pub items_from_lem :
    (slots : Address → DagNodePtr) (p : Address) (i : ℕ) (xs : List DagNodePtr)
    → ((j k : ℕ) → k ≡ i + j → j < length xs → slots (slot p k) ≡ nth xs j)
    → items_from slots p i (length xs) ≡ xs
items_from_lem slots p i [] h = refl
items_from_lem slots p i (x ∷ xs) h =
    let here : slots (slot p i) ≡ x = h 0 i (omega arith) (omega arith) in
    rw
      (
        here,
        items_from_lem slots p (i + 1) xs
            (λ j k e lt. h (suc j) k (omega (arith, e)) (omega (arith, lt))),
      )
      refl

-- Addresses of two disjoint blocks differ.
pub same_address-false :
    (a b : Address) (n k : ℕ) → Disjoint a n b k → 0 < n → 0 < k → same_address a b ≡ false
same_address-false a b n k d p q = ground arith
