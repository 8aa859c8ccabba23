-- ===== src/Storage/Invariant.antt =====
-- The invariant of the allocator of src/dag_node/allocator/storage_allocator.rs, and what a block
-- that it has handed out is.
use mod2gc.Base.{
  Below, Below-of_append, ℕ, ◌+◌, ◌≤◌, ◌<◌, refl, ◌≢◌, ◌⊎◌, List, [], ◌∷◌, ◌++◌, arith, update, All,
  All-of_append,
}
use mathlib.Core.List.{append-nil}
use mod2gc.Bucket.{Bucket}
use mod2gc.Bucket.Bounds
use mod2gc.Storage.{Address, Storage, new, prepare_to_mark}
use mod2gc.Storage.Links.{Links}

abbrev pub AllValid : (ℕ → Bucket) → List ℕ → Type 0
AllValid heap xs = All (λ b. Bounds.IsWhole (heap b)) xs

-- The list in use goes on into the unused list: it is `front`, then `unused`, which both heads
-- share.
pub record IsValid (s : Storage) (front unused : List ℕ) : Type 0 where
  pub in_use_links : Links s.buckets s.bucket_list (front ++ unused)
  pub unused_links : Links s.buckets s.unused_list unused
  pub ordered : Below s.boxes (front ++ unused)
  pub valid : AllValid s.buckets (front ++ unused)

-- A block of `size` bytes that the bucket's cursor has passed.
pub record Held (s : Storage) (a : Address) (size : ℕ) : Type 0 where
  pub exists : a.bucket < s.boxes
  pub passed : a.offset + size ≤ (s.buckets a.bucket).next_free

-- Two blocks that share no byte.
abbrev pub Disjoint : Address → ℕ → Address → ℕ → Type 0
Disjoint a n c m = (a.bucket ≢ c.bucket) ⊎ (a.offset + n ≤ c.offset) ⊎ (c.offset + m ≤ a.offset)

pub AllValid-update :
    (heap : ℕ → Bucket) (b : ℕ) (v : Bucket) (xs : List ℕ)
    → Bounds.IsWhole v
    → AllValid heap xs
    → AllValid (update heap b v) xs
AllValid-update heap b v [] ok h = tt
AllValid-update heap b v (x ∷ xs) ok h = (ground arith, AllValid-update heap b v xs ok h.1)

pub new-IsValid : (heap : ℕ → Bucket) → IsValid (new heap) [] []
unfolding new
new-IsValid heap = record { in_use_links = refl; unused_links = refl; ordered = tt; valid = tt }

pub prepare_to_mark-IsValid :
    (s : Storage) (front unused : List ℕ)
    → IsValid s front unused
    → IsValid (prepare_to_mark s) unused []
unfolding prepare_to_mark
prepare_to_mark-IsValid s front unused v = record {
  in_use_links = rw append-nil v.unused_links;
  unused_links = refl;
  ordered = rw append-nil (Below-of_append s.boxes front unused v.ordered);
  valid = rw append-nil (All-of_append (λ b. Bounds.IsWhole (s.buckets b)) front unused v.valid);
}
