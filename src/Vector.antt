-- ===== src/Vector.antt =====
-- src/dag_node/allocator/node_vector.rs: vectors of node pointers in bucket memory.
pub mod Owns
pub mod Make
pub mod Fill
pub mod Copy
pub mod Change
pub mod Round
pub mod Sample
mod Tests
use mod2gc.Base.{
  ℕ, zero, suc, ◌+◌, ◌-◌, ◌*◌, min, Bool, ◌&&◌, ◌||◌, not, Option, none, some, List, [], ◌∷◌,
  Outcome, ok, panic, ◌>>=◌, ltb, leb, ◌==◌, if◌then◌else◌,
}
use mod2gc.Node.{DagNodePtr}
use mod2gc.Storage.{Address, Storage, allocate_storage, usize}

-- `&mut [DagNodePtr]`: where the slots begin, and how many there are.
pub record Slice : Type 0 where
  pub ptr : Address
  pub len : ℕ

-- `slice` is the source's `data`.
pub record NodeVector : Type 0 where
  pub length : ℕ
  pub capacity : ℕ
  pub slice : Slice

-- The storage allocator, and what its memory holds: the vectors that have been put there, by the
-- address of each, and the slots.
pub record Memory : Type 0 where
  pub storage : Storage
  pub vectors : Address → NodeVector
  pub slots : Address → DagNodePtr

abbrev pub same_address : Address → Address → Bool
same_address a b = (a.bucket == b.bucket) && (a.offset == b.offset)

-- A write at one address.
abbrev pub write {ℓ} : {A : Type ℓ} → (Address → A) → Address → A → Address → A
write f a v b = if same_address b a then v else f b

-- `size_of::<NodeVector>()`: the two numbers, and a pointer with a length.
abbrev pub vector_size : ℕ
vector_size = 32

-- The address of a slot; a pointer has eight bytes.
abbrev pub slot : Address → ℕ → Address
slot p i = record p { offset = p.offset + 8 * i }

-- `data[i]`, which panics behind the slice.
unfoldable pub get : Memory → Slice → ℕ → Outcome DagNodePtr
get m d i = if ltb i d.len then ok (m.slots (slot d.ptr i)) else panic

-- `data[i] = node`.
unfoldable pub set : Memory → Slice → ℕ → DagNodePtr → Outcome Memory
set m d i x =
    if ltb i d.len then ok (record m { slots = write m.slots (slot d.ptr i) x }) else panic

abbrev pub set_length : Memory → Address → ℕ → Memory
set_length m v n = record m { vectors = write m.vectors v (record (m.vectors v) { length = n }) }

module _ (base : ℕ → ℕ) where
  unfoldable pub with_capacity : ℕ → Memory → Outcome (Address × Memory)
  with_capacity capacity m = do
    (v, s₁) ← allocate_storage base m.storage vector_size
    (p, s₂) ← allocate_storage base s₁ (usize (capacity * 8))
    let vector : NodeVector = record {
      length = 0;
      capacity = capacity;
      slice = record { ptr = p; len = capacity };
    }
    ok (v, record m { storage = s₂; vectors = write m.vectors v vector })

-- The loop of `from_slice`: `item` reads the slice that is copied, from the memory as it is then.
unfoldable pub copy_items :
    (item : Memory → ℕ → DagNodePtr) → Slice → (i left : ℕ) → Memory → Outcome Memory
copy_items item d i zero m = ok m
copy_items item d i (suc left) m = set m d i (item m i) >>= copy_items item d (i + 1) left

-- The loop of `copy_with_capacity`.
unfoldable pub copy_slots : (source target : Slice) (i left : ℕ) → Memory → Outcome Memory
copy_slots d e i zero m = ok m
copy_slots d e i (suc left) m = do x ← get m d i; m' ← set m e i x; copy_slots d e (i + 1) left m'

module _ (base : ℕ → ℕ) where
  unfoldable pub from_slice :
      (len : ℕ) (item : Memory → ℕ → DagNodePtr) → Memory → Outcome (Address × Memory)
  from_slice len item m = do
    (v, m₁) ← with_capacity base len m
    m₂ ← copy_items item (m₁.vectors v).slice 0 len m₁
    ok (v, set_length m₂ v len)

  -- The rest of `copy_with_capacity` where the new capacity is larger.
  abbrev pub copy_grown : (self v : Address) → Memory → Outcome (Address × Memory)
  copy_grown self v m =
      let m' = set_length m v (m.vectors self).length in
      copy_slots (m'.vectors self).slice (m'.vectors v).slice 0 (m'.vectors self).length m' >>= λ t.
      ok (v, t)

  -- And where it is not.
  abbrev pub copy_prefix : (self : Address) (new_capacity : ℕ) → Memory → Outcome (Address × Memory)
  copy_prefix self new_capacity m =
      let old = (m.vectors self).slice in
      from_slice new_capacity (λ m i. m.slots (slot old.ptr i)) m >>= λ (v, t).
      ok (v, set_length t v (min (t.vectors self).length new_capacity))

  unfoldable pub copy_with_capacity :
      Address → (new_capacity : ℕ) → Memory → Outcome (Address × Memory)
  copy_with_capacity self new_capacity m =
      if ltb (m.vectors self).capacity new_capacity
      then with_capacity base new_capacity m >>= (λ (v, t). copy_grown self v t)
      else if ltb (m.vectors self).slice.len new_capacity
      then panic
      else copy_prefix self new_capacity m

  unfoldable pub shallow_copy : Address → Memory → Outcome (Address × Memory)
  shallow_copy self m = copy_with_capacity self (m.vectors self).capacity m

-- The slots from number `i` on.
abbrev pub items_from : (Address → DagNodePtr) → Address → (i left : ℕ) → List DagNodePtr
items_from slots p i zero = []
items_from slots p i (suc left) = slots (slot p i) ∷ items_from slots p (i + 1) left

-- `iter`, and `iter_mut`: the items that the slice `data[..length]` leads through.
unfoldable pub iter : Memory → Address → Outcome (List DagNodePtr)
iter m v =
    let d = m.vectors v in
    if leb d.length d.slice.len then ok (items_from m.slots d.slice.ptr 0 d.length) else panic

-- `IntoIterator` for a reference, which leads through all slots.
unfoldable pub into_iter : Memory → Address → List DagNodePtr
into_iter m v = let d = m.vectors v in items_from m.slots d.slice.ptr 0 d.slice.len

pub len : Memory → Address → ℕ
len m v = (m.vectors v).length

pub is_empty : Memory → Address → Bool
is_empty m v = (m.vectors v).length == 0

-- `push`, with the check of the feature `gc_debug`, which is on by default.
unfoldable pub push : Memory → Address → DagNodePtr → Outcome Memory
push m v node =
    let d = m.vectors v in
    if leb d.capacity d.length || not (d.slice.len == d.capacity)
    then panic
    else (do m' ← set m d.slice d.length node; ok (set_length m' v (d.length + 1)))

unfoldable pub pop : Memory → Address → Outcome (Option DagNodePtr × Memory)
pop m v =
    let d = m.vectors v in
    if d.length == 0 then ok (none, m) else (do
      let m' = set_length m v (d.length - 1)
      x ← get m' d.slice (d.length - 1)
      ok (some x, m'))

-- `Index::index`, and `IndexMut::index_mut` followed by a write.
unfoldable pub index : Memory → Address → ℕ → Outcome DagNodePtr
index m v i = let d = m.vectors v in if ltb i d.length then get m d.slice i else panic

unfoldable pub index_mut : Memory → Address → ℕ → DagNodePtr → Outcome Memory
index_mut m v i x = let d = m.vectors v in if ltb i d.length then set m d.slice i x else panic
