-- ===== src/Bucket/Bounds.antt =====
-- What src/dag_node/allocator/bucket.rs promises of the memory that a bucket hands out.
use mod2gc.Base.{ℕ, ◌+◌, ◌*◌, ◌%◌, ◌≤◌, ◌≡◌, refl, none, ok, Returns, arith, ◌==◌, false, ltb}
use mod2gc.Bucket.{Bucket, with_capacity, isize_max, usize_max, padding, advance, allocate, reset}

-- The cursor and the count of free bytes agree.
abbrev pub IsValid : Bucket → Type 0
IsValid b = b.next_free + b.bytes_free ≡ b.capacity

-- And the cursor stands at a word of the block.
abbrev pub IsWhole : Bucket → Type 0
IsWhole b = IsValid b × (b.next_free % 8 ≡ 0)

-- What a successful allocation of `n` bytes at `p` does to a bucket.
pub record Allocated (base : ℕ) (b : Bucket) (n : ℕ) (r : ℕ × Bucket) : Type 0 where
  pub start : r.0 ≡ b.next_free
  pub above : b.next_free + n ≤ r.1.next_free
  pub inside : r.0 + n ≤ b.capacity
  pub aligned : (base + r.1.next_free) % 8 ≡ 0
  pub valid : IsValid r.1
  pub same_capacity : r.1.capacity ≡ b.capacity
  pub same_link : r.1.next_bucket ≡ b.next_bucket

abbrev pub empty : ℕ → Bucket
empty n = record { capacity = n; bytes_free = n; next_free = 0; next_bucket = none }

pub with_capacity-eq : (n : ℕ) → n ≤ isize_max → with_capacity n ≡ ok (empty n)
unfolding with_capacity
with_capacity-eq n small = let fits : ltb isize_max n ≡ false = ground arith in rw fits refl

pub reset-IsWhole : (b : Bucket) → IsWhole (reset b)
unfolding reset
reset-IsWhole b = (omega arith, omega arith)

padding-ne-max : (base p n : ℕ) → (padding base p n == usize_max) ≡ false
padding-ne-max base p n = ground arith

-- In a well-formed bucket (the bytes before the cursor and those free are its capacity) with as
-- many bytes free as the request and the padding behind it take, `allocate` returns the block at
-- the cursor, with no step of the pointer to outside the bucket; the block lies inside the bucket
-- and before the new cursor, which is at a multiple of eight, and the bucket stays well-formed.
pub allocate-Allocated :
    (base : ℕ) (b : Bucket) (n : ℕ)
    → IsValid b
    → n + padding base b.next_free n ≤ b.bytes_free
    → Returns (Allocated base b n) (allocate base b n)
unfolding allocate
allocate-Allocated base b n v h =
    let free : ltb b.bytes_free n ≡ false = ground (arith, h) in
    let first : ltb b.capacity (b.next_free + n) ≡ false = ground (arith, h, v) in
    let last : ltb b.capacity (b.next_free + n + padding base b.next_free n) ≡ false =
      ground (arith, h, v) in
    (
      (b.next_free, advance base b n),
      rw (free, first, padding-ne-max base b.next_free n, last) refl,
      record {
        start = refl;
        above = omega arith;
        inside = omega (arith, h, v);
        aligned = omega arith;
        valid = ground (arith, h, v);
        same_capacity = refl;
        same_link = refl;
      },
    )

-- In a block that starts at a word, whole words take no padding.
pub allocate-words :
    (base : ℕ) (b : Bucket) (n : ℕ)
    → IsWhole b
    → n % 8 ≡ 0
    → n ≤ b.bytes_free
    → Returns (λ r. Allocated (8 * base) b n r × IsWhole r.1) (allocate (8 * base) b n)
allocate-words base b n (v, whole) words h =
    let none_needed : padding (8 * base) b.next_free n ≡ 0 = omega (arith, whole, words) in
    let (r, e, d) = allocate-Allocated (8 * base) b n v (omega (arith, none_needed, h)) in
    (r, e, (d, (d.valid, (let a = d.aligned in omega (arith, a)))))
