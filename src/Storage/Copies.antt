-- ===== src/Storage/Copies.antt =====
-- The mark phase of a first collection in src/dag_node/allocator/storage_allocator.rs, and a request
-- where the cursors of all buckets are at their first bytes.
use mathlib.Core.List.{Memᴰ}
use mod2gc.Base.{
  ℕ, ◌+◌, ◌%◌, ◌^◌, ◌≤◌, ◌<◌, ◌≡◌, refl, sym, subst, ◌∙◌, ◌⊎◌, inl, inr, some, List, [], ◌∷◌, ◌++◌,
  Returns, arith, update, leb, Bool-cases, All, All-map, All-zip,
}
use mod2gc.Bucket.{Bucket}
use mod2gc.Bucket.Bounds
use mod2gc.Storage.{Address, Storage, allocate_in, charge, allocate_storage, prepare_to_mark, serve}
use mod2gc.Storage.Links.{find, find-some}
use mod2gc.Storage.Invariant.{IsValid, prepare_to_mark-IsValid}
use mod2gc.Storage.Allocate.{
  allocate_storage-Stored, allocate_storage-eq-serve, allocate_new-Stored, slow-eq-allocate_new,
  charge-IsValid, StoredInNew,
}
use mod2gc.Storage.History.{allocate_all, GoodSizes}

-- The address of one of the blocks.
abbrev pub IsGiven : List (Address × ℕ) → Address → Type 0
IsGiven [] a = ⊥
IsGiven (x ∷ xs) a = (a ≡ x.0) ⊎ IsGiven xs a

abbrev pub start_of : ℕ → Address
start_of b = record { bucket = b; offset = 0 }

-- The search finds a bucket if one of the list has room.
find-present :
    (heap : ℕ → Bucket) (n : ℕ) (xs : List ℕ) (c : ℕ)
    → Memᴰ c xs
    → n ≤ (heap c).bytes_free
    → (b : ℕ) × (find heap n xs ≡ some b)
find-present heap n [] c m fits = elim m [ ]
find-present heap n (x ∷ xs) c m fits = elim (Bool-cases (leb n (heap x).bytes_free)) [
  | inl here ↦ (x, rw here refl)
  | inr full ↦ elim m [
    | Memᴰ.head e ↦ absurd (
        let here : n ≤ (heap x).bytes_free = subst (λ c. n ≤ (heap c).bytes_free) e fits in
        ground (arith, here, full))
    | Memᴰ.tail m ↦ (let (b, e) = find-present heap n xs c m fits in (b, rw full e))
  ]
]

-- With the cursors of all buckets at their first bytes, a request that some bucket has room for is given
-- the first byte of a bucket.
pub allocate_storage_start :
    (base : ℕ → ℕ) (s : Storage) (front unused : List ℕ) (G : Address → Type 0) (c m : ℕ)
    → IsValid s front unused
    → All (λ b. (s.buckets b).next_free ≡ 0) (front ++ unused)
    → All (λ b. G (start_of b)) (front ++ unused)
    → Memᴰ c (front ++ unused)
    → m ≤ (s.buckets c).bytes_free
    → m % 8 ≡ 0
    → Returns (λ r. G r.0) (allocate_storage base s m)
unfolding charge serve allocate_in
allocate_storage_start base s front unused G c m v zeros given mem fits words =
    let xs = front ++ unused in
    let (b, found) = find-present s.buckets m xs c mem fits in
    let (room, (whole, (zero, known))) =
      find-some s.buckets m
        (λ b. Bounds.IsWhole (s.buckets b) × (((s.buckets b).next_free ≡ 0) × G (start_of b))) xs
        found (All-zip _ _ xs v.valid (All-zip _ _ xs zeros given)) in
    let (r, e, (d, _)) = Bounds.allocate-words (base b) (s.buckets b) m whole words room in
    (
      (
        record { bucket = b; offset = r.0 },
        record (charge s m) { buckets = update s.buckets b r.1 },
      ),
      allocate_storage-eq-serve base s front unused m v words ∙ rw (found, e) refl,
      subst (λ o. G (record { bucket = b; offset = o })) (sym (d.start ∙ zero)) known,
    )

-- The state in the mark phase of a first collection: each bucket in use begins with a block given, and
-- the bucket `c` is one of them, of at least `n` bytes.
pub record Copied (G : Address → Type 0) (c n : ℕ) (s : Storage) : Type 0 where
  pub front : List ℕ
  pub valid : IsValid s front []
  pub starts : All (λ b. G (start_of b)) front
  pub first : Memᴰ c front
  pub exists : c < s.boxes
  pub roomy : n ≤ (s.buckets c).capacity

-- A request more.
copy-Copied :
    (base : ℕ → ℕ) (G : Address → Type 0) (c n : ℕ) (s : Storage) (k : ℕ)
    → Copied G c n s
    → k % 8 ≡ 0
    → k < 2 ^ 60
    → Returns (λ r. Copied (λ a. (a ≡ r.0) ⊎ G a) c n r.1) (allocate_storage base s k)
copy-Copied base G c n s k w words small =
    let (r, e, d) = allocate_storage-Stored base s w.front [] k w.valid words small in
    let old =
      All-map (λ b. G (start_of b)) (λ b. (start_of b ≡ r.0) ⊎ G (start_of b)) w.front
        (λ b g. inr g) w.starts in
    (
      r,
      e,
      record {
        front = d.front;
        valid = d.valid;
        starts = elim d.grew [
          | inl same ↦ subst (All (λ b. (start_of b ≡ r.0) ⊎ G (start_of b))) (sym same) old
          | inr (more, at) ↦
              subst (All (λ b. (start_of b ≡ r.0) ⊎ G (start_of b))) (sym more) (inl (sym at), old)
        ];
        first = elim d.grew [
          | inl same ↦ subst (Memᴰ c) (sym same) w.first
          | inr (more, at) ↦ subst (Memᴰ c) (sym more) (Memᴰ.tail w.first)
        ];
        exists = (let lt = w.exists in let le = d.later in omega (arith, lt, le));
        roomy = rw (d.capacities c w.exists) w.roomy;
      },
    )

Copied-map :
    (G H : Address → Type 0) (c n : ℕ) (s : Storage)
    → ((a : Address) → G a → H a)
    → Copied G c n s
    → Copied H c n s
Copied-map G H c n s f w = record {
  front = w.front;
  valid = w.valid;
  starts = All-map _ _ w.front (λ b. f (start_of b)) w.starts;
  first = w.first;
  exists = w.exists;
  roomy = w.roomy;
}

swap : (A B C : Type 0) → A ⊎ (B ⊎ C) → (B ⊎ A) ⊎ C
swap A B C (inl a) = inl (inr a)
swap A B C (inr (inl b)) = inl (inl b)
swap A B C (inr (inr c)) = inr c

copies-Copied :
    (base : ℕ → ℕ) (ns : List ℕ) (G : Address → Type 0) (c n : ℕ) (s : Storage)
    → Copied G c n s
    → GoodSizes ns
    → Returns (λ r. Copied (λ a. IsGiven r.0 a ⊎ G a) c n r.1) (allocate_all base s ns)
unfolding allocate_all
copies-Copied base [] G c n s w good =
    (([], s), refl, Copied-map G (λ a. ⊥ ⊎ G a) c n s (λ a g. inr g) w)
copies-Copied base (k ∷ ks) G c n s w ((words, small), good) =
    let (r, e, w') = copy-Copied base G c n s k w words small in
    let (q, e', w'') = copies-Copied base ks (λ a. (a ≡ r.0) ⊎ G a) c n r.1 w' good in
    (
      ((r.0, k) ∷ q.0, q.1),
      rw (e, e') refl,
      Copied-map _ (λ a. ((a ≡ r.0) ⊎ IsGiven q.0 a) ⊎ G a) c n q.1
          (λ a. swap (IsGiven q.0 a) (a ≡ r.0) (G a)) w'',
    )

-- Behind `_prepare_to_mark` in a first collection, the first block copied goes into a new bucket.
copy_goes_to_new :
    (base : ℕ → ℕ) (s : Storage) (front : List ℕ) (n : ℕ)
    → IsValid s front []
    → n % 8 ≡ 0
    → n < 2 ^ 60
    → Returns
        (StoredInNew (charge (prepare_to_mark s) n) [] [] n)
        (allocate_storage base (prepare_to_mark s) n)
unfolding serve
copy_goes_to_new base s front n v words small =
    let s' = prepare_to_mark s in
    let v' = prepare_to_mark-IsValid s front [] v in
    let (r, e, new) =
      allocate_new-Stored base (charge s' n) n (charge-IsValid s' n v') words small in
    (
      r,
      allocate_storage-eq-serve base s' [] [] n v' words
          ∙ slow-eq-allocate_new base (charge s' n) n (charge-IsValid s' n v') refl
          ∙ e,
      new,
    )

-- The blocks of a mark phase of a first collection.
pub mark_phase-Copied :
    (base : ℕ → ℕ) (s : Storage) (front : List ℕ) (n : ℕ) (ns : List ℕ)
    → IsValid s front []
    → GoodSizes (n ∷ ns)
    → Returns
        (λ r. Copied (IsGiven r.0) s.boxes n r.1)
        (allocate_all base (prepare_to_mark s) (n ∷ ns))
unfolding allocate_all charge prepare_to_mark
mark_phase-Copied base s front n ns v ((words, small), good) =
    let (r, e, new) = copy_goes_to_new base s front n v words small in
    let d = new.stored in
    let w : Copied (λ a. a ≡ r.0) s.boxes n r.1 = record {
      front = d.front;
      valid = d.valid;
      starts = subst (All (λ b. start_of b ≡ r.0)) (sym new.in_front) (sym new.at_start, tt);
      first = subst (Memᴰ s.boxes) (sym new.in_front) (Memᴰ.head refl);
      exists = subst (λ (a : Address). a.bucket < r.1.boxes) new.at_start d.held.exists;
      roomy =
          let room : 0 + n ≤ (r.1.buckets s.boxes).capacity =
            subst (λ (a : Address). a.offset + n ≤ (r.1.buckets a.bucket).capacity) new.at_start
              d.inside in
          omega (arith, room);
    } in
    let (q, e', w') = copies-Copied base ns (λ a. a ≡ r.0) s.boxes n r.1 w good in
    (
      ((r.0, n) ∷ q.0, q.1),
      rw (e, e') refl,
      Copied-map _ (λ a. (a ≡ r.0) ⊎ IsGiven q.0 a) s.boxes n q.1
          (λ a g. elim g [ inl m ↦ inr m | inr e ↦ inl e ]) w',
    )
