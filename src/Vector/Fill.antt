-- ===== src/Vector/Fill.antt =====
-- A new vector of src/dag_node/allocator/node_vector.rs is filled: `from_slice`.
use mod2gc.Base.{
  ℕ, ◌*◌, ◌≤◌, ◌<◌, ◌^◌, ◌≡◌, ◌∙◌, refl, ap, sym, subst, false, List, [], ok, Returns, arith,
  length,
}
use mod2gc.Node.{DagNodePtr}
use mod2gc.Storage.{Address}
use mod2gc.Storage.Invariant.{Disjoint}
use mod2gc.Storage.History.{Sound}
use mod2gc.Vector.{
  Slice, NodeVector, Memory, same_address, vector_size, slot, set_length, with_capacity, copy_items,
  from_slice,
}
use mod2gc.Vector.Owns.{nth, Owns, Grows, same_address-false}
use mod2gc.Vector.Make.{Made, with_capacity-Made, Outside, Filled, copy_items-Filled}

-- An address of another block is none of the slots.
pub outside_block :
    (a p : Address) (cap j : ℕ)
    → Disjoint a 8 p (8 * cap)
    → j < cap
    → same_address a (slot p j) ≡ false
outside_block a p cap j d lt = ground arith

-- The header's length is written at `v`.
pub header_length :
    (m : Memory) (v : Address) (n : ℕ)
    → (set_length m v n).vectors v ≡ record (m.vectors v) { length = n }
header_length m v n = ground arith

pub header_other :
    (m : Memory) (v a : Address) (n : ℕ)
    → same_address a v ≡ false
    → (set_length m v n).vectors a ≡ m.vectors a
header_other m v a n e = rw e refl

-- The first items of a vector.
pub Owns-set_length :
    (m : Memory) (v : Address) (xs ys : List DagNodePtr) (cap : ℕ)
    → Owns m v xs cap
    → length ys ≤ length xs
    → ((j : ℕ) → j < length ys → nth xs j ≡ nth ys j)
    → Owns (set_length m v (length ys)) v ys cap
Owns-set_length m v xs ys cap o le same = record {
  ptr = o.ptr;
  header =
      header_length m v (length ys)
      ∙ ap (λ (h : NodeVector). record h { length = length ys }) o.header;
  fits = omega (arith, o.fits);
  small = o.small;
  held = record { exists = o.held.exists; passed = o.held.passed };
  held_slots = record { exists = o.held_slots.exists; passed = o.held_slots.passed };
  items = λ i h. o.items i (omega arith) ∙ same i h;
}

module _ (m m₁ : Memory) (v : Address) (xs : List DagNodePtr) (cap : ℕ)
    (made : Made m xs cap (v, m₁)) where
  -- Its slots may be written.
  pub Made-slots :
      (f : Address → DagNodePtr)
      → ((a : Address) → Outside (record { ptr = made.owns.ptr; len = cap }) a → f a ≡ m₁.slots a)
      → Grows m (record m₁ { slots = f })
  Made-slots f h = record {
    held =
        λ a n k. let g = made.grows.held a n k in record { exists = g.exists; passed = g.passed };
    vectors = made.grows.vectors;
    slots = λ a k.
        h a (λ j lt. outside_block a made.owns.ptr cap j (made.clear a 8 k).1 lt)
        ∙ made.grows.slots a k;
    sound = made.grows.sound;
  }

  -- So may its length.
  pub Made-set_length :
      (ys : List DagNodePtr)
      → length ys ≤ length xs
      → ((j : ℕ) → j < length ys → nth xs j ≡ nth ys j)
      → Made m ys cap (v, set_length m₁ v (length ys))
  unfolding Owns-set_length
  Made-set_length ys le same = record {
    owns = Owns-set_length m₁ v xs ys cap made.owns le same;
    grows = record {
      held =
          λ a n k. let g = made.grows.held a n k in record { exists = g.exists; passed = g.passed };
      vectors = λ a k.
          header_other m₁ v a (length ys) (
            same_address-false a v vector_size vector_size (made.clear a vector_size k).0
              (omega arith) (omega arith))
          ∙ made.grows.vectors a k;
      slots = made.grows.slots;
      sound = made.grows.sound;
    };
    clear = made.clear;
  }

module _ (m m₁ : Memory) (v : Address) (cap : ℕ) (made : Made m [] cap (v, m₁)) where
  -- The slots are filled, and the length is set.
  pub Made-Filled :
      (xs : List DagNodePtr) (n : ℕ) (vals : ℕ → DagNodePtr) (m₂ : Memory)
      → Filled m₁ (record { ptr = made.owns.ptr; len = cap }) 0 n vals m₂
      → length xs ≤ n
      → n ≤ cap
      → ((j : ℕ) → j < length xs → vals j ≡ nth xs j)
      → Made m xs cap (v, set_length m₂ v (length xs))
  Made-Filled xs n vals m₂ f le room same =
      let g =
        Made-slots m m₁ v [] cap made f.slots
          (λ a out. f.outside a (λ j h k. out j (omega arith))) in
      let filled : Memory = record m₁ { slots = f.slots } in
      let result : Made m xs cap (v, set_length filled v (length xs)) = record {
        owns = record {
          ptr = made.owns.ptr;
          header =
              header_length filled v (length xs)
              ∙ ap (λ (h : NodeVector). record h { length = length xs }) made.owns.header;
          fits = omega arith;
          small = made.owns.small;
          held = record { exists = made.owns.held.exists; passed = made.owns.held.passed };
          held_slots = record {
            exists = made.owns.held_slots.exists;
            passed = made.owns.held_slots.passed;
          };
          items = λ i h. f.inside i (omega arith) (omega arith) ∙ same i h;
        };
        grows = record {
          held = λ a n k. let h = g.held a n k in record { exists = h.exists; passed = h.passed };
          vectors = λ a k.
              header_other filled v a (length xs) (
                same_address-false a v vector_size vector_size (made.clear a vector_size k).0
                  (omega arith) (omega arith))
              ∙ g.vectors a k;
          slots = g.slots;
          sound = g.sound;
        };
        clear = made.clear;
      } in
      subst (λ t. Made m xs cap (v, set_length t v (length xs))) (sym f.same) result

module _ (base : ℕ → ℕ) (m : Memory) (sound : Sound m.storage) where
  from_slice-eq :
      (item : Memory → ℕ → DagNodePtr) (n : ℕ) (r : Address × Memory) (d : Slice) (t : Memory)
      → with_capacity base n m ≡ ok r
      → (r.1.vectors r.0).slice ≡ d
      → copy_items item d 0 n r.1 ≡ ok t
      → from_slice base n item m ≡ ok (r.0, set_length t r.0 n)
  unfolding from_slice
  from_slice-eq item n r d t e s f = rw (e, s, f) refl

  -- A new vector with the items of a slice, of just their number.
  pub from_slice-Made :
      (item : Memory → ℕ → DagNodePtr) (xs : List DagNodePtr)
      → length xs < 2 ^ 57
      → ((t : Memory) → Grows m t → (j : ℕ) → j < length xs → item t j ≡ nth xs j)
      → Returns (Made m xs (length xs)) (from_slice base (length xs) item m)
  from_slice-Made item xs small stable =
      let n = length xs in
      let (r, e, made) = with_capacity-Made base m sound n small in
      let d : Slice = record { ptr = made.owns.ptr; len = n } in
      let (t, f, filled) = copy_items-Filled item d (nth xs) 0 n r.1 (omega arith) (λ g h j lt.
        stable (record r.1 { slots = g }) (Made-slots m r.1 r.0 [] n made g h) j (omega arith)) in
      (
        (r.0, set_length t r.0 n),
        from_slice-eq item n r d t e (ap (λ (h : NodeVector). h.slice) made.owns.header) f,
        Made-Filled m r.1 r.0 n made xs n (nth xs) t filled (omega arith) (omega arith)
            (λ j h. refl),
      )

  -- The same where the length is known by another name.
  pub from_slice-Made_length :
      (item : Memory → ℕ → DagNodePtr) (xs : List DagNodePtr) (n : ℕ)
      → length xs ≡ n
      → n < 2 ^ 57
      → ((t : Memory) → Grows m t → (j : ℕ) → j < length xs → item t j ≡ nth xs j)
      → Returns (Made m xs n) (from_slice base n item m)
  from_slice-Made_length item xs n e small stable =
      subst (λ n. n < 2 ^ 57 → Returns (Made m xs n) (from_slice base n item m)) e
        (λ small. from_slice-Made item xs small stable) small
