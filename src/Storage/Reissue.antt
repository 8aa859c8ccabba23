-- ===== src/Storage/Reissue.antt =====
-- Collections of src/dag_node/allocator/storage_allocator.rs, and what the next request is given.
use mathlib.Core.List.{Memᴰ, append-nil}
use mod2gc.Base.{
  ℕ, ◌%◌, ◌≤◌, ◌≡◌, refl, ap, sym, subst, List, [], ◌∷◌, ◌++◌, ok, ◌>>=◌, Returns, arith, All,
  All-map,
}
use mod2gc.Bucket
use mod2gc.Bucket.{Bucket}
use mod2gc.Storage.{Address, Storage, allocate_storage, prepare_to_mark, sweep_garbage}
use mod2gc.Storage.Invariant.{IsValid, prepare_to_mark-IsValid}
use mod2gc.Storage.Collect.{Swept, sweep_garbage-Swept}
use mod2gc.Storage.History.{allocate_all, GoodSizes}
use mod2gc.Storage.Copies.{IsGiven, start_of, Copied, allocate_storage_start, mark_phase-Copied}

All-Mem : (P : ℕ → Type 0) (c : ℕ) (xs : List ℕ) → Memᴰ c xs → All P xs → P c
All-Mem P c [] m a = elim m [ ]
All-Mem P c (x ∷ xs) (Memᴰ.head e) a = subst P (sym e) a.0
All-Mem P c (x ∷ xs) (Memᴰ.tail m) a = All-Mem P c xs m a.1

-- After the sweep each bucket in use has its cursor at the first byte.
module _ (G : Address → Type 0) (c n : ℕ) (s t : Storage) (w : Copied G c n s)
    (d : Swept s (w.front ++ []) t) where
  zeros : All (λ b. (t.buckets b).next_free ≡ 0) (w.front ++ [])
  unfolding Bucket.reset
  zeros = All-map _ _ (w.front ++ []) (λ b e. ap (λ (c : Bucket). c.next_free) e) d.emptied

  starts : All (λ b. G (start_of b)) (w.front ++ [])
  starts = rw append-nil w.starts

  mem : Memᴰ c (w.front ++ [])
  mem = rw append-nil w.first

  room : n ≤ (t.buckets c).bytes_free
  unfolding Bucket.reset
  room =
      let now : t.buckets c ≡ Bucket.reset (s.buckets c) =
        All-Mem (λ b. t.buckets b ≡ Bucket.reset (s.buckets b)) c (w.front ++ []) mem d.emptied in
      rw now w.roomy

  module _ (base : ℕ → ℕ) (m : ℕ) (words : m % 8 ≡ 0) (le : m ≤ n) where
    after_sweep : Returns (λ r. G r.0) (allocate_storage base t m)
    after_sweep =
        allocate_storage_start base t [] (w.front ++ []) G c m d.valid zeros starts mem
          (omega (arith, le, room)) words

    -- The start of the next collection takes over the list of the reset buckets.
    after_next_prepare : Returns (λ r. G r.0) (allocate_storage base (prepare_to_mark t) m)
    unfolding prepare_to_mark
    after_next_prepare =
        allocate_storage_start base (prepare_to_mark t) (w.front ++ []) [] G c m
          (prepare_to_mark-IsValid t [] (w.front ++ []) d.valid) (rw append-nil zeros)
          (rw append-nil starts) (rw append-nil mem) (omega (arith, le, room)) words

module _ (base : ℕ → ℕ) (s : Storage) (front : List ℕ) (n m : ℕ) (ns : List ℕ) where
  -- From a state that satisfies the invariant with no bucket unused, let the mark phase of a
  -- collection make any requests of whole words below 2 ^ 60 bytes, the first of them of `n`
  -- bytes: they are given blocks, the sweep ends, and the next request, of whole words and at most
  -- `n` bytes, is given the very address of one of the live copies that the mark phase made.
  pub first_collection_reissues :
      IsValid s front []
      → GoodSizes (n ∷ ns)
      → m % 8 ≡ 0
      → m ≤ n
      → Returns {A = Address × List (Address × ℕ)}
          (λ r. IsGiven r.1 r.0)
          (do
            (copies, s₁) ← allocate_all base (prepare_to_mark s) (n ∷ ns)
            s₂ ← sweep_garbage s₁
            (next, _) ← allocate_storage base s₂ m
            ok (next, copies))
  first_collection_reissues v good words le =
      let (r, e, w) = mark_phase-Copied base s front n ns v good in
      let (t, e', d) = sweep_garbage-Swept r.1 w.front [] w.valid in
      let (u, e'', given) = after_sweep (IsGiven r.0) s.boxes n r.1 t w d base m words le in
      ((u.0, r.0), rw (e, e', e'') refl, given)

  -- From a state that satisfies the invariant with no bucket unused, let the mark phase of a
  -- collection make any requests of whole words below 2 ^ 60 bytes, the first of them of `n`
  -- bytes, and let the mark phase of the next collection begin after the sweep with a request of
  -- whole words and at most `n` bytes: all are given blocks, and the first copy of the second mark
  -- phase gets the very address of one of the live copies that the first one made.
  pub second_mark_overwrites :
      IsValid s front []
      → GoodSizes (n ∷ ns)
      → m % 8 ≡ 0
      → m ≤ n
      → Returns {A = Address × List (Address × ℕ)}
          (λ r. IsGiven r.1 r.0)
          (do
            (copies, s₁) ← allocate_all base (prepare_to_mark s) (n ∷ ns)
            s₂ ← sweep_garbage s₁
            (copy, _) ← allocate_storage base (prepare_to_mark s₂) m
            ok (copy, copies))
  second_mark_overwrites v good words le =
      let (r, e, w) = mark_phase-Copied base s front n ns v good in
      let (t, e', d) = sweep_garbage-Swept r.1 w.front [] w.valid in
      let (u, e'', given) = after_next_prepare (IsGiven r.0) s.boxes n r.1 t w d base m words le in
      ((u.0, r.0), rw (e, e', e'') refl, given)
