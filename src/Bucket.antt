-- ===== src/Bucket.antt =====
-- src/dag_node/allocator/bucket.rs: a bucket hands out memory by moving a cursor.
pub mod Bounds
use mod2gc.Base.{
  ℕ, ◌+◌, ◌-◌, ◌%◌, ◌^◌, Option, none, Outcome, ok, panic, undefined, ltb, ◌==◌, if◌then◌else◌,
}

-- `data` is a block of `capacity` bytes. The cursor `next_free` is kept as its distance from the
-- block's first byte, and `next_bucket` as the number of the bucket that it points to.
pub record Bucket : Type 0 where
  pub capacity : ℕ
  pub bytes_free : ℕ
  pub next_free : ℕ
  pub next_bucket : Option ℕ

abbrev pub isize_max : ℕ
isize_max = 2 ^ 63 - 1

-- `vec!` panics where the capacity is more than `isize::MAX`.
unfoldable pub with_capacity : ℕ → Outcome Bucket
with_capacity capacity =
    if ltb isize_max capacity
    then panic
    else ok
        (record { capacity = capacity; bytes_free = capacity; next_free = 0; next_bucket = none })

-- `<*mut u8>::align_offset`: the distance to the next multiple of `align`.
abbrev pub align_offset : ℕ → ℕ → ℕ
align_offset address align = (align - address % align) % align

abbrev pub usize_max : ℕ
usize_max = 2 ^ 64 - 1

-- The bytes that an allocation takes: those asked for, and the padding behind them.
abbrev pub padding : (base next_free bytes_needed : ℕ) → ℕ
padding base next_free bytes_needed = align_offset (base + (next_free + bytes_needed)) 8

-- The bucket after an allocation.
abbrev pub advance : (base : ℕ) → Bucket → ℕ → Bucket
advance base b bytes_needed =
    let offset = padding base b.next_free bytes_needed in
    let bytes_used = bytes_needed + offset in
    record b {
      next_free = b.next_free + bytes_needed + offset;
      bytes_free = if ltb b.bytes_free bytes_used then 0 else b.bytes_free - bytes_used;
    }

-- `base` is the address of the block's first byte. The result is the allocation's distance from it.
-- A step of the cursor to behind the end of the block is undefined.
unfoldable pub allocate : (base : ℕ) → Bucket → ℕ → Outcome (ℕ × Bucket)
allocate base b bytes_needed =
    let offset = padding base b.next_free bytes_needed in
    if ltb b.bytes_free bytes_needed
    then panic
    else if ltb b.capacity (b.next_free + bytes_needed)
    then undefined
    else if offset == usize_max
    then panic
    else if ltb b.capacity (b.next_free + bytes_needed + offset)
    then undefined
    else ok (b.next_free, advance base b bytes_needed)

unfoldable pub reset : Bucket → Bucket
reset b = record b { next_free = 0; bytes_free = b.capacity }
