-- ===== src/Storage.antt =====
-- src/dag_node/allocator/storage_allocator.rs: the allocator of raw memory, whose buckets are
-- linked into a list of those in use and a list of those not in use.
pub mod Links
pub mod Invariant
pub mod Allocate
pub mod Collect
pub mod Copies
pub mod Reissue
pub mod History
mod Tests
use mod2gc.Base.{
  ℕ, zero, suc, ◌+◌, ◌-◌, ◌*◌, ◌%◌, ◌^◌, max, Bool, true, false, Option, none, some, ◌>>=◌, Outcome,
  ok, panic, out_of_fuel, ltb, leb, ◌==◌, if◌then◌else◌, update,
}
use mod2gc.Bucket
use mod2gc.Bucket.{Bucket}

abbrev pub bucket_multiplier : ℕ
bucket_multiplier = 8

abbrev pub min_bucket_size : ℕ
min_bucket_size = 256 * 1024 - 8

abbrev pub initial_target : ℕ
initial_target = 220 * 1024

abbrev pub target_multiplier : ℕ
target_multiplier = 8

abbrev pub usize : ℕ → ℕ
usize n = n % 2 ^ 64

-- A pointer to a `Bucket` is its number in the order of creation, `none` for null.
abbrev pub BucketPtr : Type 0
BucketPtr = Option ℕ

-- A pointer into bucket memory: the bucket, and the distance from its first byte.
pub record Address : Type 0 where
  pub bucket : ℕ
  pub offset : ℕ

-- `StorageAllocator`, with the buckets that `Box::into_raw` has put on the heap: `boxes` of them.
pub record Storage : Type 0 where
  pub show_gc : Bool
  pub early_quit : ℕ
  pub need_to_collect_garbage : Bool
  pub bucket_count : ℕ
  pub bucket_list : BucketPtr
  pub unused_list : BucketPtr
  pub storage_in_use : ℕ
  pub total_bytes_allocated : ℕ
  pub old_storage_in_use : ℕ
  pub target : ℕ
  pub buckets : ℕ → Bucket
  pub boxes : ℕ

-- `heap` is what the memory holds before a bucket is put there.
unfoldable pub new : (heap : ℕ → Bucket) → Storage
new heap = record {
  show_gc = true;
  early_quit = 0;
  need_to_collect_garbage = false;
  bucket_count = 0;
  bucket_list = none;
  unused_list = none;
  storage_in_use = 0;
  total_bytes_allocated = 0;
  old_storage_in_use = 0;
  target = initial_target;
  buckets = heap;
  boxes = 0;
}

pub want_to_collect_garbage : Storage → Bool
want_to_collect_garbage s = s.need_to_collect_garbage

-- The walk over the list in use, to the first bucket with room.
unfoldable pub first_fit : (fuel : ℕ) → (ℕ → Bucket) → ℕ → BucketPtr → Outcome (Option ℕ)
first_fit zero heap bytes_needed b = out_of_fuel
first_fit (suc fuel) heap bytes_needed none = ok none
first_fit (suc fuel) heap bytes_needed (some b) =
    let rest = first_fit fuel heap bytes_needed (heap b).next_bucket in
    if leb bytes_needed (heap b).bytes_free then ok (some b) else rest

-- The walk over the unused list, which keeps the bucket before the one that it stops at.
unfoldable pub first_fit_unused :
    (fuel : ℕ)
    → (ℕ → Bucket)
    → ℕ
    → (prev_bucket maybe_bucket : BucketPtr) → Outcome (Option (BucketPtr × ℕ))
first_fit_unused zero heap bytes_needed prev b = out_of_fuel
first_fit_unused (suc fuel) heap bytes_needed prev none = ok none
first_fit_unused (suc fuel) heap bytes_needed prev (some b) =
    let rest = first_fit_unused fuel heap bytes_needed (some b) (heap b).next_bucket in
    if leb bytes_needed (heap b).bytes_free then ok (some (prev, b)) else rest

abbrev pub set_next : (ℕ → Bucket) → ℕ → BucketPtr → ℕ → Bucket
set_next heap b next = update heap b (record (heap b) { next_bucket = next })

-- Moves an unused bucket to the head of the list in use.
pub reuse : Storage → BucketPtr → ℕ → Storage
reuse s none b = record s {
  unused_list = (s.buckets b).next_bucket;
  buckets = set_next s.buckets b s.bucket_list;
  bucket_list = some b;
}
reuse s (some prev) b =
    let heap = set_next s.buckets prev (s.buckets b).next_bucket in
    record s { buckets = set_next heap b s.bucket_list; bucket_list = some b }

abbrev pub new_bucket_size : ℕ → ℕ
new_bucket_size bytes_needed = max (usize (bucket_multiplier * bytes_needed)) min_bucket_size

-- The count of the bytes in use, and the flag that it raises.
unfoldable pub charge : Storage → ℕ → Storage
charge s bytes_needed =
    let used = usize (s.storage_in_use + bytes_needed) in
    record s {
      storage_in_use = used;
      need_to_collect_garbage = if ltb s.target used then true else s.need_to_collect_garbage;
    }

-- The new bucket goes on the heap, at the head of the list in use.
abbrev pub push_bucket : Storage → ℕ → Bucket → Storage
push_bucket s size b = record s {
  bucket_count = (s.bucket_count + 1) % 2 ^ 32;
  total_bytes_allocated = usize (s.total_bytes_allocated + size);
  buckets = update s.buckets s.boxes (record b { next_bucket = s.bucket_list });
  bucket_list = some s.boxes;
  boxes = s.boxes + 1;
}

-- `base` gives the address of each bucket's block, in words: the system's allocator aligns it.
module _ (base : ℕ → ℕ) where
  unfoldable pub allocate_in : Storage → ℕ → ℕ → Outcome (Address × Storage)
  allocate_in s b bytes_needed = do
    (offset, b') ← Bucket.allocate (8 * base b) (s.buckets b) bytes_needed
    ok (record { bucket = b; offset = offset }, record s { buckets = update s.buckets b b' })

  unfoldable pub allocate_new : Storage → ℕ → Outcome (Address × Storage)
  allocate_new s bytes_needed = do
    let size = new_bucket_size bytes_needed
    new_bucket ← Bucket.with_capacity size
    (t, b) ← Bucket.allocate (8 * base s.boxes) new_bucket bytes_needed
    ok (record { bucket = s.boxes; offset = t }, push_bucket s size b)

  unfoldable pub slow_allocate_storage : Storage → ℕ → Outcome (Address × Storage)
  slow_allocate_storage s bytes_needed = do
    found ← first_fit_unused (s.boxes + 1) s.buckets bytes_needed none s.unused_list
    elim found [
      | none ↦ allocate_new s bytes_needed
      | some (prev, b) ↦ allocate_in (reuse s prev b) b bytes_needed
    ]

  -- What follows the walk over the list in use.
  unfoldable pub serve : Storage → ℕ → Option ℕ → Outcome (Address × Storage)
  serve s bytes_needed none = slow_allocate_storage s bytes_needed
  serve s bytes_needed (some b) = allocate_in s b bytes_needed

  unfoldable pub allocate_storage : Storage → ℕ → Outcome (Address × Storage)
  allocate_storage s bytes_needed =
      if bytes_needed % 8 == 0
      then (do
        let s' = charge s bytes_needed
        found ← first_fit (s'.boxes + 1) s'.buckets bytes_needed s'.bucket_list
        serve s' bytes_needed found)
      else panic

unfoldable pub prepare_to_mark : Storage → Storage
prepare_to_mark s = record s {
  old_storage_in_use = s.storage_in_use;
  bucket_list = s.unused_list;
  unused_list = none;
  storage_in_use = 0;
  need_to_collect_garbage = false;
}

-- The walk that resets the buckets of the list in use.
unfoldable pub reset_all : (fuel : ℕ) → (ℕ → Bucket) → BucketPtr → Outcome (ℕ → Bucket)
reset_all zero heap b = out_of_fuel
reset_all (suc fuel) heap none = ok heap
reset_all (suc fuel) heap (some b) =
    reset_all fuel (update heap b (Bucket.reset (heap b))) (heap b).next_bucket

unfoldable pub sweep_garbage : Storage → Outcome Storage
sweep_garbage s = do
  heap ← reset_all (s.boxes + 1) s.buckets s.bucket_list
  ok (record s {
    unused_list = s.bucket_list;
    buckets = heap;
    target = max s.target (usize (target_multiplier * s.storage_in_use));
  })
