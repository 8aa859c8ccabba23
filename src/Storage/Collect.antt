-- ===== src/Storage/Collect.antt =====
-- The two calls of src/dag_node/allocator/storage_allocator.rs that a collection makes: what
-- `_prepare_to_mark` drops, what `_sweep_garbage` resets, and what is handed out after it.
use mod2gc.Base.{
  Below, length-Below, All-Below, ℕ, zero, suc, ◌+◌, ◌*◌, ◌≤◌, ◌<◌, ◌≡◌, ◌≢◌, refl, ap, ◌∙◌, List,
  [], ◌∷◌, ◌++◌, ok, Returns, arith, update, update_self, update-ne, All, All-zip, All-map, length,
  max,
}
use mod2gc.Bucket
use mod2gc.Bucket.{Bucket}
use mod2gc.Bucket.Bounds
use mod2gc.Storage.{BucketPtr, Storage, reset_all, sweep_garbage, usize, target_multiplier}
use mod2gc.Storage.Links.{Links, Links-update_same}
use mod2gc.Storage.Invariant.{IsValid}

-- The heap after the buckets of a list are reset, one by one.
abbrev pub reset_each : (ℕ → Bucket) → List ℕ → ℕ → Bucket
reset_each heap [] = heap
reset_each heap (b ∷ bs) = reset_each (update heap b (Bucket.reset (heap b))) bs

Links-reset :
    (heap : ℕ → Bucket) (b : ℕ) (p : BucketPtr) (xs : List ℕ)
    → Links heap p xs
    → Links (update heap b (Bucket.reset (heap b))) p xs
unfolding Bucket.reset
Links-reset heap b p xs l = Links-update_same heap b (Bucket.reset (heap b)) p xs refl l

Links-reset_each :
    (heap : ℕ → Bucket) (ys : List ℕ) (p : BucketPtr) (xs : List ℕ)
    → Links heap p xs
    → Links (reset_each heap ys) p xs
Links-reset_each heap [] p xs l = l
Links-reset_each heap (y ∷ ys) p xs l =
    Links-reset_each (update heap y (Bucket.reset (heap y))) ys p xs (Links-reset heap y p xs l)

reset_all-reset_each :
    (fuel : ℕ) (heap : ℕ → Bucket) (p : BucketPtr) (xs : List ℕ)
    → Links heap p xs
    → length xs < fuel
    → reset_all fuel heap p ≡ ok (reset_each heap xs)
unfolding reset_all
reset_all-reset_each zero heap p xs l f = absurd (omega arith)
reset_all-reset_each (suc fuel) heap p [] l f = rw l
reset_all-reset_each (suc fuel) heap p (b ∷ bs) l f = rw l.0 (
    reset_all-reset_each fuel (update heap b (Bucket.reset (heap b))) (heap b).next_bucket bs
      (Links-reset heap b (heap b).next_bucket bs l.1) (omega arith))

-- Resetting the buckets of a list leaves a bucket above them alone.
reset_each_above :
    (heap : ℕ → Bucket) (n : ℕ) (xs : List ℕ) (b : ℕ)
    → Below n xs
    → n ≤ b
    → reset_each heap xs b ≡ heap b
reset_each_above heap n [] b o le = refl
reset_each_above heap n (x ∷ xs) b o le =
    reset_each_above (update heap x (Bucket.reset (heap x))) x xs b o.1 (omega arith)
    ∙ update-ne heap x b (Bucket.reset (heap x)) (ground arith)

-- Each bucket of the list ends up reset.
reset_each-All :
    (heap : ℕ → Bucket) (n : ℕ) (xs : List ℕ)
    → Below n xs
    → All (λ b. reset_each heap xs b ≡ Bucket.reset (heap b)) xs
reset_each-All heap n [] o = tt
reset_each-All heap n (x ∷ xs) o = (
  reset_each_above heap' x xs x o.1 (omega arith) ∙ update_self heap x (Bucket.reset (heap x)),
  All-map _ _ xs
      (λ b h.
        h.0 ∙ ap Bucket.reset (update-ne heap x b (Bucket.reset (heap x)) (ground (arith, h.1))))
      (All-zip (λ b. reset_each heap' xs b ≡ Bucket.reset (heap' b)) (λ b. b < x) xs
        (reset_each-All heap' x xs o.1) (All-Below x xs o.1)),
)
  where
    heap' : ℕ → Bucket
    heap' = update heap x (Bucket.reset (heap x))

-- A bucket that is not in the list is left alone.
reset_each-other :
    (heap : ℕ → Bucket) (xs : List ℕ) (b : ℕ) → All (λ x. b ≢ x) xs → reset_each heap xs b ≡ heap b
reset_each-other heap [] b away = refl
reset_each-other heap (x ∷ xs) b (ne, away) =
    reset_each-other (update heap x (Bucket.reset (heap x))) xs b away
    ∙ update-ne heap x b (Bucket.reset (heap x)) (ground (arith, ne))

-- What a sweep leaves: the buckets `xs` of the list in use, reset, as both lists.
pub record Swept (s : Storage) (xs : List ℕ) (t : Storage) : Type 0 where
  pub valid : IsValid t [] xs
  pub shared : t.unused_list ≡ t.bucket_list
  pub emptied : All (λ b. t.buckets b ≡ Bucket.reset (s.buckets b)) xs
  pub others : (b : ℕ) → All (λ x. b ≢ x) xs → t.buckets b ≡ s.buckets b
  pub threshold : t.target ≡ max s.target (usize (target_multiplier * s.storage_in_use))
  pub boxes_kept : t.boxes ≡ s.boxes

-- From a state that satisfies the invariant `_sweep_garbage` ends; it resets the buckets of the
-- list in use and leaves all others as they were, so it resets exactly those, and the list becomes
-- the unused list as well; the target is raised to eight times the bytes in use if that is more.
pub sweep_garbage-Swept :
    (s : Storage) (front unused : List ℕ)
    → IsValid s front unused
    → Returns (Swept s (front ++ unused)) (sweep_garbage s)
unfolding sweep_garbage
sweep_garbage-Swept s front unused v =
    let xs = front ++ unused in
    let heap = reset_each s.buckets xs in
    let links = Links-reset_each s.buckets xs s.bucket_list xs v.in_use_links in
    let emptied = reset_each-All s.buckets s.boxes xs v.ordered in
    (
      record s {
        unused_list = s.bucket_list;
        buckets = heap;
        target = max s.target (usize (target_multiplier * s.storage_in_use));
      },
      rw (
          reset_all-reset_each (s.boxes + 1) s.buckets s.bucket_list xs v.in_use_links
            (omega (arith, length-Below s.boxes xs v.ordered))),
      record {
        valid = record {
          in_use_links = links;
          unused_links = links;
          ordered = v.ordered;
          valid = All-map _ _ xs (λ b e. rw e (Bounds.reset-IsWhole (s.buckets b))) emptied;
        };
        shared = refl;
        emptied = emptied;
        others = λ b away. reset_each-other s.buckets xs b away;
        threshold = refl;
        boxes_kept = refl;
      },
    )
