-- ===== src/Vector/Change.antt =====
-- `push`, `pop`, the index and the iterators of src/dag_node/allocator/node_vector.rs.
use mod2gc.Base.{
  ℕ, zero, suc, ◌+◌, ◌-◌, ◌*◌, ◌≤◌, ◌<◌, ◌≡◌, ◌∙◌, refl, ap, sym, inl, inr, true, false, not, ◌||◌,
  Option, none, some, List, [], ◌∷◌, ◌++◌, Outcome, ok, panic, ◌>>=◌, Returns, arith, length,
  length-append, ltb, leb, ◌==◌, if◌then◌else◌, Bool-cases,
}
use mod2gc.Node.{DagNodePtr}
use mod2gc.Storage.{Address}
use mod2gc.Storage.Invariant.{Disjoint}
use mod2gc.Vector.{
  NodeVector, Memory, same_address, write, vector_size, slot, items_from, get, set, set_length,
  iter, push, pop, index,
}
use mod2gc.Vector.Owns.{nth, Owns, same_address-false, items_from_lem}
use mod2gc.Vector.Fill.{header_length, header_other, outside_block, Owns-set_length}

-- Only the header of a vector and its slots are written.
pub record Changed (m : Memory) (v p : Address) (cap : ℕ) (m' : Memory) : Type 0 where
  pub storage : m'.storage ≡ m.storage
  pub vectors : (a : Address) → same_address a v ≡ false → m'.vectors a ≡ m.vectors a
  pub slots : (a : Address) → Disjoint a 8 p (8 * cap) → m'.slots a ≡ m.slots a

-- Another vector stays, if it shares no block with the one written.
pub Owns-Changed :
    (m m' : Memory) (v p w : Address) (cap k : ℕ) (ys : List DagNodePtr) (o : Owns m w ys k)
    → Changed m v p cap m'
    → Disjoint w vector_size v vector_size
    → Disjoint o.ptr (8 * k) p (8 * cap)
    → Owns m' w ys k
Owns-Changed m m' v p w cap k ys o c apart apart_slots = record {
  ptr = o.ptr;
  header =
      c.vectors w (same_address-false w v vector_size vector_size apart (omega arith) (omega arith))
      ∙ o.header;
  fits = o.fits;
  small = o.small;
  held = rw c.storage o.held;
  held_slots = rw c.storage o.held_slots;
  items = λ i h. c.slots (slot o.ptr i) (ground (arith, o.fits)) ∙ o.items i h;
}

nth-append_first : (xs ys : List DagNodePtr) (i : ℕ) → i < length xs → nth (xs ++ ys) i ≡ nth xs i
nth-append_first [] ys i h = absurd (omega arith)
nth-append_first (x ∷ xs) ys zero h = refl
nth-append_first (x ∷ xs) ys (suc i) h = nth-append_first xs ys i (omega arith)

nth-append_last :
    (xs : List DagNodePtr) (x : DagNodePtr) (i : ℕ) → i ≡ length xs → nth (xs ++ x ∷ []) i ≡ x
nth-append_last [] x i e = rw e refl
nth-append_last (y ∷ ys) x zero e = absurd (omega (arith, e))
nth-append_last (y ∷ ys) x (suc i) e = nth-append_last ys x i (omega (arith, e))

-- What a push of `x` leaves.
pub record Pushed (m : Memory) (v p : Address) (xs : List DagNodePtr) (cap : ℕ) (x : DagNodePtr)
    (m' : Memory) : Type 0 where
  pub owns : Owns m' v (xs ++ x ∷ []) cap
  pub same_slots : owns.ptr ≡ p
  pub changed : Changed m v p cap m'

module _ (m : Memory) (v : Address) (xs : List DagNodePtr) (cap : ℕ) (o : Owns m v xs cap) where
  abbrev vector : NodeVector
  vector = record { length = length xs; capacity = cap; slice = record { ptr = o.ptr; len = cap } }

  abbrev pushed : DagNodePtr → Memory
  pushed x =
      set_length (record m { slots = write m.slots (slot o.ptr (length xs)) x }) v (length xs + 1)

  -- `push`, by the header.
  abbrev push_by : NodeVector → DagNodePtr → Outcome Memory
  push_by d x =
      if leb d.capacity d.length || not (d.slice.len == d.capacity)
      then panic
      else (set m d.slice d.length x >>= λ m'. ok (set_length m' v (d.length + 1)))

  push-header : (x : DagNodePtr) → push m v x ≡ push_by vector x
  unfolding push
  push-header x = ap (λ d. push_by d x) o.header

  -- A push below the capacity puts the item behind the others.
  pub push_lem :
      (x : DagNodePtr) → length xs < cap → Returns (Pushed m v o.ptr xs cap x) (push m v x)
  unfolding set
  push_lem x room =
      let count : length (xs ++ x ∷ []) ≡ length xs + 1 = length-append xs (x ∷ []) in
      (
        pushed x,
        push-header x ∙ ground arith,
        record {
          owns = record {
            ptr = o.ptr;
            header =
                header_length m v (length xs + 1)
                ∙ ap (λ (h : NodeVector). record h { length = length xs + 1 }) o.header
                ∙ ap (λ n. record vector { length = n }) (sym count);
            fits = omega (arith, count);
            small = o.small;
            held = record { exists = o.held.exists; passed = o.held.passed };
            held_slots = record { exists = o.held_slots.exists; passed = o.held_slots.passed };
            items = λ i h. elim (Bool-cases (i == length xs)) [
              | inl last ↦
                  let at : i ≡ length xs = ground arith in
                  let written : (pushed x).slots (slot o.ptr i) ≡ x = ground arith in
                  written ∙ sym (nth-append_last xs x i at)
              | inr before ↦
                  let lt : i < length xs = ground (arith, count) in
                  let kept : (pushed x).slots (slot o.ptr i) ≡ m.slots (slot o.ptr i) =
                    ground arith in
                  kept ∙ o.items i lt ∙ sym (nth-append_first xs (x ∷ []) i lt)
            ];
          };
          same_slots = refl;
          changed = record {
            storage = refl;
            vectors = λ a e. header_other m v a (length xs + 1) e;
            slots =
                λ a d. (let other = outside_block a o.ptr cap (length xs) d room in rw other refl);
          };
        },
      )

  -- `iter`, the index, and their lengths, by the header.
  abbrev iter_by : NodeVector → Outcome (List DagNodePtr)
  iter_by d =
      if leb d.length d.slice.len then ok (items_from m.slots d.slice.ptr 0 d.length) else panic

  abbrev index_by : NodeVector → ℕ → Outcome DagNodePtr
  index_by d i = if ltb i d.length then get m d.slice i else panic

  -- The items of a vector are read back.
  pub iter_lem : iter m v ≡ ok xs
  unfolding iter
  iter_lem =
      ap iter_by o.header
      ∙ (let inside : leb (length xs) cap ≡ true = ground (arith, o.fits) in
          rw inside (
            ap ok (
              items_from_lem m.slots o.ptr 0 xs
                (λ j k e lt. let same : k ≡ j = omega (arith, e) in rw same (o.items j lt)))))

  -- For any index, below the number of items or not, the index operator gives the item of a vector
  -- at it, and panics where there is none, also in the unused part of the capacity.
  pub index_lem : (i : ℕ) → index m v i ≡ (if ltb i (length xs) then ok (nth xs i) else panic)
  unfolding index get
  index_lem i = ap (λ d. index_by d i) o.header ∙ elim (Bool-cases (ltb i (length xs))) [
    | inr outside ↦ rw outside refl
    | inl inside ↦
        let room : ltb i cap ≡ true = ground (arith, o.fits) in
        rw (inside, room) (ap ok (o.items i (ground arith)))
  ]

-- What a pop leaves.
pub record Popped (m : Memory) (v p : Address) (xs : List DagNodePtr) (cap : ℕ) (x : DagNodePtr)
    (r : Option DagNodePtr × Memory) : Type 0 where
  pub item : r.0 ≡ some x
  pub owns : Owns r.1 v xs cap
  pub changed : Changed m v p cap r.1

pop_by : (m : Memory) (v : Address) → NodeVector → Outcome (Option DagNodePtr × Memory)
pop_by m v d =
    if d.length == 0
    then ok (none, m)
    else (get (set_length m v (d.length - 1)) d.slice (d.length - 1) >>= λ x.
        ok (some x, set_length m v (d.length - 1)))

pop_by_lem :
    (m : Memory) (v p : Address) (cap k n : ℕ) (x : DagNodePtr)
    → n ≡ k + 1
    → n ≤ cap
    → m.slots (slot p k) ≡ x
    → pop_by m v (record { length = n; capacity = cap; slice = record { ptr = p; len = cap } })
      ≡ ok (some x, set_length m v k)
unfolding pop_by get
pop_by_lem m v p cap k n x e le last =
    let more : (n == 0) ≡ false = ground (arith, e) in
    let before : n - 1 ≡ k = omega (arith, e) in
    let room : ltb k cap ≡ true = ground (arith, e) in rw (more, before, room, last) refl

-- A pop gives the last item, and leaves the others.
pub pop_lem :
    (m : Memory) (v : Address) (xs : List DagNodePtr) (x : DagNodePtr) (cap : ℕ)
    → (o : Owns m v (xs ++ x ∷ []) cap) → Returns (Popped m v o.ptr xs cap x) (pop m v)
unfolding pop pop_by
pop_lem m v xs x cap o =
    let count : length (xs ++ x ∷ []) ≡ length xs + 1 = length-append xs (x ∷ []) in
    let last : m.slots (slot o.ptr (length xs)) ≡ x =
      o.items (length xs) (omega (arith, count)) ∙ nth-append_last xs x (length xs) refl in
    (
      (some x, set_length m v (length xs)),
      ap (pop_by m v) o.header
          ∙ pop_by_lem m v o.ptr cap (length xs) (length (xs ++ x ∷ [])) x count o.fits last,
      record {
        item = refl;
        owns =
            Owns-set_length m v (xs ++ x ∷ []) xs cap o (omega (arith, count))
              (λ j lt. nth-append_first xs (x ∷ []) j lt);
        changed = record {
          storage = refl;
          vectors = λ a e. header_other m v a (length xs) e;
          slots = λ a d. refl;
        };
      },
    )

-- For a vector with fewer items than its capacity, `pop` after `push` gives back the item pushed,
-- and leaves the vector with the items it had.
pub push_then_pop :
    (m : Memory) (v : Address) (xs : List DagNodePtr) (cap : ℕ) (x : DagNodePtr)
    → Owns m v xs cap
    → length xs < cap
    → Returns (λ r. (r.0 ≡ some x) × Owns r.1 v xs cap) (push m v x >>= (λ t. pop t v))
push_then_pop m v xs cap x o room =
    let (t, e, p) = push_lem m v xs cap o x room in
    let (r, f, q) = pop_lem t v xs x cap p.owns in
    (r, ap (λ m'. m' >>= (λ t. pop t v)) e ∙ f, (q.item, q.owns))
