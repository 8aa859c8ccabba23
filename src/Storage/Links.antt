-- ===== src/Storage/Links.antt =====
-- The linked lists of src/dag_node/allocator/storage_allocator.rs as lists of bucket numbers: what
-- the pointers from a head lead through, and what the two walks of the allocator find there.
use mod2gc.Base.{
  ℕ, zero, suc, ◌≤◌, ◌<◌, ◌≡◌, inl, inr, true, Option, none, some, List, [], ◌∷◌, ◌++◌, ok, arith,
  leb, if◌then◌else◌, update, length, All, Bool-cases, Below,
}
use mod2gc.Bucket.{Bucket}
use mod2gc.Storage.{BucketPtr, first_fit, first_fit_unused}

-- From `p` the `next_bucket` pointers lead through the buckets `xs` to null.
abbrev pub Links : (ℕ → Bucket) → BucketPtr → List ℕ → Type 0
Links heap p [] = p ≡ none
Links heap p (b ∷ bs) = (p ≡ some b) × Links heap (heap b).next_bucket bs

-- The first bucket of the list with room for `n` bytes.
abbrev pub find : (ℕ → Bucket) → ℕ → List ℕ → Option ℕ
find heap n [] = none
find heap n (b ∷ bs) = if leb n (heap b).bytes_free then some b else find heap n bs

-- A write that keeps the link keeps the list.
pub Links-update_same :
    (heap : ℕ → Bucket) (b : ℕ) (v : Bucket) (p : BucketPtr) (xs : List ℕ)
    → v.next_bucket ≡ (heap b).next_bucket
    → Links heap p xs
    → Links (update heap b v) p xs
Links-update_same heap b v p [] e l = l
Links-update_same heap b v p (x ∷ xs) e l =
    (l.0, rw link (Links-update_same heap b v (heap x).next_bucket xs e l.1))
  where
    link : (update heap b v x).next_bucket ≡ (heap x).next_bucket
    link = ground arith

-- A write at a bucket that is not in the list keeps it.
pub Links-update_above :
    (heap : ℕ → Bucket) (b : ℕ) (v : Bucket) (n : ℕ) (p : BucketPtr) (xs : List ℕ)
    → n ≤ b
    → Below n xs
    → Links heap p xs
    → Links (update heap b v) p xs
Links-update_above heap b v n p [] le o l = l
Links-update_above heap b v n p (x ∷ xs) le o l =
    (l.0, rw other (Links-update_above heap b v x (heap x).next_bucket xs (omega arith) o.1 l.1))
  where
    other : update heap b v x ≡ heap x
    other = ground arith

-- The walk over the list in use is the search for the first bucket with room.
pub first_fit-find :
    (fuel : ℕ) (heap : ℕ → Bucket) (n : ℕ) (p : BucketPtr) (xs : List ℕ)
    → Links heap p xs
    → length xs < fuel
    → first_fit fuel heap n p ≡ ok (find heap n xs)
unfolding first_fit
first_fit-find zero heap n p xs l f = absurd (omega arith)
first_fit-find (suc fuel) heap n p [] l f = rw l
first_fit-find (suc fuel) heap n p (b ∷ bs) l f =
    rw l.0 (ground (arith, first_fit-find fuel heap n (heap b).next_bucket bs l.1))

-- Where no bucket of the list has room, the walk over the unused buckets finds none.
pub first_fit_unused-none :
    (fuel : ℕ) (heap : ℕ → Bucket) (n : ℕ) (prev p : BucketPtr) (xs : List ℕ)
    → Links heap p xs
    → length xs < fuel
    → find heap n xs ≡ none
    → first_fit_unused fuel heap n prev p ≡ ok none
unfolding first_fit_unused
first_fit_unused-none zero heap n prev p xs l f e = absurd (omega arith)
first_fit_unused-none (suc fuel) heap n prev p [] l f e = rw l
first_fit_unused-none (suc fuel) heap n prev p (b ∷ bs) l f e =
    rw l.0 (ground (arith, first_fit_unused-none fuel heap n (some b) (heap b).next_bucket bs l.1))

pub find-append :
    (heap : ℕ → Bucket) (n : ℕ) (xs ys : List ℕ)
    → find heap n (xs ++ ys) ≡ none
    → find heap n ys ≡ none
find-append heap n [] ys e = e
find-append heap n (x ∷ xs) ys e = ground (arith, find-append heap n xs ys)

-- What the search finds has room, and is in the list.
pub find-some :
    (heap : ℕ → Bucket) (n : ℕ) (P : ℕ → Type 0) (xs : List ℕ) {b : ℕ}
    → find heap n xs ≡ some b
    → All P xs
    → (n ≤ (heap b).bytes_free) × P b
find-some heap n P [] e a = absurd (ground arith)
find-some heap n P (x ∷ xs) {b} e a = elim (Bool-cases (leb n (heap x).bytes_free)) [
  | inl fits ↦ found fits (ground arith)
  | inr full ↦ find-some heap n P xs (ground arith) a.1
]
  where
    found : leb n (heap x).bytes_free ≡ true → x ≡ b → (n ≤ (heap b).bytes_free) × P b
    found fits s = rw (← s) (ground arith, a.0)
