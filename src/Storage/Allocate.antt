-- ===== src/Storage/Allocate.antt =====
-- What `allocate_storage` of src/dag_node/allocator/storage_allocator.rs hands out.
use mod2gc.Base.{
  length-Below, Below-of_append, All-Below, ℕ, ◌+◌, ◌*◌, ◌%◌, ◌^◌, ◌≤◌, ◌<◌, ◌≡◌, ap, ◌∙◌, refl,
  ◌⊎◌, inl, inr, Option, none, some, List, ◌∷◌, ◌++◌, ok, Returns, arith, update, ◌==◌, update_self,
  update-ne, Bool-cases, All-zip,
}
use mod2gc.Bucket.{Bucket}
use mod2gc.Bucket.Bounds
use mod2gc.Bucket.Bounds.{Allocated}
use mod2gc.Storage.{
  Address, Storage, allocate_in, allocate_new, slow_allocate_storage, charge, allocate_storage,
  new_bucket_size, first_fit, push_bucket, serve,
}
use mod2gc.Storage.Links.{
  find, Links-update_same, Links-update_above, first_fit-find, first_fit_unused-none, find-append,
  find-some,
}
use mod2gc.Storage.Invariant.{IsValid, Held, Disjoint, AllValid-update}

-- What it means to hand out a block of `n` bytes: the block lies below its bucket's cursor and
-- inside its bucket, it shares no byte with a block held before, and those stay held.
pub record Stored (s : Storage) (before unused : List ℕ) (n : ℕ) (r : Address × Storage)
    : Type 0 where
  pub front : List ℕ
  pub valid : IsValid r.1 front unused
  pub held : Held r.1 r.0 n
  pub inside : r.0.offset + n ≤ (r.1.buckets r.0.bucket).capacity
  pub grew :
      (front ≡ before)
      ⊎ ((front ≡ s.boxes ∷ before) × (r.0 ≡ record { bucket = s.boxes; offset = 0 }))
  pub capacities : (b : ℕ) → b < s.boxes → (r.1.buckets b).capacity ≡ (s.buckets b).capacity
  pub later : s.boxes ≤ r.1.boxes
  pub keeps : (a : Address) (m : ℕ) → Held s a m → Held r.1 a m × Disjoint a m r.0 n
  pub unused_kept : r.1.unused_list ≡ s.unused_list

-- The same in a new bucket, which takes the front of the list in use; the block is its first bytes.
pub record StoredInNew (s : Storage) (front unused : List ℕ) (n : ℕ) (r : Address × Storage)
    : Type 0 where
  pub stored : Stored s front unused n r
  pub in_front : stored.front ≡ s.boxes ∷ front
  pub at_start : r.0 ≡ record { bucket = s.boxes; offset = 0 }

-- A block stays below its bucket's cursor, and clear of what the bucket hands out next.
Held-update :
    (base : ℕ) (s : Storage) (n b : ℕ) (r : ℕ × Bucket) (a : Address) (m : ℕ)
    → Allocated base (s.buckets b) n r
    → Held s a m
    → Held (record s { buckets = update s.buckets b r.1 }) a m
      × Disjoint a m (record { bucket = b; offset = r.0 }) n
Held-update base s n b r a m d h = elim (Bool-cases (a.bucket == b)) [
  | inl same ↦ ground (arith, d.start, d.above, h.passed)
  | inr other ↦ ground (arith, h.passed)
]

module _ (base : ℕ → ℕ) (s : Storage) {front unused : List ℕ} (n : ℕ)
    (v : IsValid s front unused) where
  allocate_in-Stored :
      (b : ℕ)
      → b < s.boxes
      → Bounds.IsWhole (s.buckets b)
      → n % 8 ≡ 0
      → n ≤ (s.buckets b).bytes_free
      → Returns (Stored s front unused n) (allocate_in base s b n)
  unfolding allocate_in
  allocate_in-Stored b lt vb words fits =
      let (r, e, (d, whole)) = Bounds.allocate-words (base b) (s.buckets b) n vb words fits in
      let self = update_self s.buckets b r.1 in
      let passed : r.0 + n ≤ (update s.buckets b r.1 b).next_free =
        rw self (omega (arith, d.start, d.above)) in
      let inside : r.0 + n ≤ (update s.buckets b r.1 b).capacity =
        rw (self, d.same_capacity) d.inside in
      let s' : Storage = record s { buckets = update s.buckets b r.1 } in
      (
        (record { bucket = b; offset = r.0 }, s'),
        rw e,
        record {
          front = front;
          valid = record {
            in_use_links =
                Links-update_same s.buckets b r.1 s.bucket_list (front ++ unused) d.same_link
                  v.in_use_links;
            unused_links =
                Links-update_same s.buckets b r.1 s.unused_list unused d.same_link v.unused_links;
            ordered = v.ordered;
            valid = AllValid-update s.buckets b r.1 (front ++ unused) whole v.valid;
          };
          held = record { exists = lt; passed = passed };
          inside = inside;
          grew = inl refl;
          capacities = λ c lt. (let same = d.same_capacity in ground (arith, same));
          later = omega arith;
          keeps = λ a m h. Held-update (8 * base b) s n b r a m d h;
          unused_kept = refl;
        },
      )

  pub allocate_new-Stored :
      n % 8 ≡ 0 → n < 2 ^ 60 → Returns (StoredInNew s front unused n) (allocate_new base s n)
  unfolding allocate_new
  allocate_new-Stored words small =
      let size = new_bucket_size n in
      let fresh = Bounds.empty size in
      let made = Bounds.with_capacity-eq size (omega (arith, small)) in
      let (r, e, (d, whole)) =
        Bounds.allocate-words (base s.boxes) fresh n (omega arith, omega arith) words
          (omega arith) in
      let linked : Bucket = record r.1 { next_bucket = s.bucket_list } in
      let self = update_self s.buckets s.boxes linked in
      let heap = update s.buckets s.boxes linked in
      let links =
        Links-update_above s.buckets s.boxes linked s.boxes s.bucket_list (front ++ unused)
          (omega arith) v.ordered v.in_use_links in
      let passed : r.0 + n ≤ (heap s.boxes).next_free = rw self (omega (arith, d.start, d.above)) in
      let inside : r.0 + n ≤ (heap s.boxes).capacity = rw (self, d.same_capacity) d.inside in
      (
        (record { bucket = s.boxes; offset = r.0 }, push_bucket s size r.1),
        rw (made, e),
        record {
          stored = record {
            front = s.boxes ∷ front;
            valid = record {
              in_use_links = (refl, rw self links);
              unused_links =
                  Links-update_above s.buckets s.boxes linked s.boxes s.unused_list unused
                    (omega arith) (Below-of_append s.boxes front unused v.ordered) v.unused_links;
              ordered = (omega arith, v.ordered);
              valid = (
                rw self whole,
                AllValid-update s.buckets s.boxes linked (front ++ unused) whole v.valid,
              );
            };
            held = record { exists = omega arith; passed = passed };
            inside = inside;
            grew = inr (refl, ap (λ o. record { bucket = s.boxes; offset = o }) d.start);
            capacities = λ b lt.
                ap (λ (c : Bucket). c.capacity)
                  (update-ne s.buckets s.boxes b linked (ground (arith, lt)));
            later = omega arith;
            keeps = λ a m h. (
              record {
                exists = omega (arith, h.exists);
                passed =
                    rw (update-ne s.buckets s.boxes a.bucket linked (ground (arith, h.exists)))
                      h.passed;
              },
              inl (ground (arith, h.exists)),
            );
            unused_kept = refl;
          };
          in_front = refl;
          at_start = ap (λ o. record { bucket = s.boxes; offset = o }) d.start;
        },
      )

  -- Where no bucket in use has room, no unused bucket has: the slow path makes a new bucket.
  pub slow-eq-allocate_new :
      find s.buckets n (front ++ unused) ≡ none
      → slow_allocate_storage base s n ≡ allocate_new base s n
  unfolding slow_allocate_storage
  slow-eq-allocate_new none_fits = rw (
      first_fit_unused-none (s.boxes + 1) s.buckets n none s.unused_list unused v.unused_links
        (omega
          (arith, length-Below s.boxes unused (Below-of_append s.boxes front unused v.ordered)))
        (find-append s.buckets n front unused none_fits))

  slow_allocate_storage-Stored :
      n % 8 ≡ 0
      → n < 2 ^ 60
      → find s.buckets n (front ++ unused) ≡ none
      → Returns (Stored s front unused n) (slow_allocate_storage base s n)
  slow_allocate_storage-Stored words small none_fits =
      let (r, e, new) = allocate_new-Stored words small in
      (r, slow-eq-allocate_new none_fits ∙ e, new.stored)

  pub first_fit_in_use :
      first_fit (s.boxes + 1) s.buckets n s.bucket_list ≡ ok (find s.buckets n (front ++ unused))
  first_fit_in_use =
      first_fit-find (s.boxes + 1) s.buckets n s.bucket_list (front ++ unused) v.in_use_links
        (omega (arith, length-Below s.boxes (front ++ unused) v.ordered))

  serve-Stored :
      n % 8 ≡ 0
      → n < 2 ^ 60
      → (found : Option ℕ) → find s.buckets n (front ++ unused) ≡ found
      → Returns (Stored s front unused n) (serve base s n found)
  unfolding serve
  serve-Stored words small none e = slow_allocate_storage-Stored words small e
  serve-Stored words small (some b) e =
      let (fits, known) =
        find-some s.buckets n (λ b. (b < s.boxes) × Bounds.IsWhole (s.buckets b)) (front ++ unused)
          e
          (All-zip (λ b. b < s.boxes) (λ b. Bounds.IsWhole (s.buckets b)) (front ++ unused)
            (All-Below s.boxes (front ++ unused) v.ordered) v.valid) in
      allocate_in-Stored b known.0 known.1 words fits

pub charge-IsValid :
    (s : Storage) {front unused : List ℕ} (n : ℕ)
    → IsValid s front unused
    → IsValid (charge s n) front unused
unfolding charge
charge-IsValid s n v = record {
  in_use_links = v.in_use_links;
  unused_links = v.unused_links;
  ordered = v.ordered;
  valid = v.valid;
}

Stored-of_charge :
    (s : Storage) {front unused : List ℕ} (n : ℕ) (r : Address × Storage)
    → Stored (charge s n) front unused n r
    → Stored s front unused n r
unfolding charge
Stored-of_charge s n r d = record {
  front = d.front;
  valid = d.valid;
  held = d.held;
  inside = d.inside;
  grew = d.grew;
  capacities = d.capacities;
  later = d.later;
  keeps = λ a m h. d.keeps a m (record { exists = h.exists; passed = h.passed });
  unused_kept = d.unused_kept;
}

-- The walk serves the first bucket in use with room, or falls to the slow path.
pub allocate_storage-eq-serve :
    (base : ℕ → ℕ) (s : Storage) (front unused : List ℕ) (n : ℕ)
    → IsValid s front unused
    → n % 8 ≡ 0
    → allocate_storage base s n
      ≡ serve base (charge s n) n (find (charge s n).buckets n (front ++ unused))
unfolding allocate_storage
allocate_storage-eq-serve base s front unused n v words =
    rw (words, first_fit_in_use base (charge s n) n (charge-IsValid s n v))

-- With the blocks of buckets at multiples of eight, for a whole number of words below 2 ^ 60
-- bytes, `allocate_storage` returns a block; it lies inside its bucket and below the bucket's
-- cursor, shares no byte with a block held before, those stay held, and the invariant of the two
-- lists is kept.
pub allocate_storage-Stored :
    (base : ℕ → ℕ) (s : Storage) (front unused : List ℕ) (n : ℕ)
    → IsValid s front unused
    → n % 8 ≡ 0
    → n < 2 ^ 60
    → Returns (Stored s front unused n) (allocate_storage base s n)
allocate_storage-Stored base s front unused n v words small =
    let s' = charge s n in
    let found = find s'.buckets n (front ++ unused) in
    let (r, e, d) = serve-Stored base s' n (charge-IsValid s n v) words small found refl in
    (r, allocate_storage-eq-serve base s front unused n v words ∙ e, Stored-of_charge s n r d)
