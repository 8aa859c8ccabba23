-- ===== src/Storage/History.antt =====
-- Any history of the calls of src/dag_node/allocator/storage_allocator.rs: allocations by nodes, and
-- the two calls of a collection, in any order.
use mod2gc.Base.{
  ℕ, ◌+◌, ◌%◌, ◌^◌, ◌<◌, ◌≡◌, refl, sym, ◌∙◌, none, List, [], ◌∷◌, ◌++◌, Outcome, ok, ◌>>=◌,
  Returns, Returns-bind, Returns_at, ok_injective, All,
}
use mod2gc.Bucket.{Bucket}
use mod2gc.Storage.{
  Address, Storage, new, first_fit, allocate_storage, slow_allocate_storage, allocate_new,
  prepare_to_mark, sweep_garbage,
}
use mod2gc.Storage.Invariant.{IsValid, Held, Disjoint, new-IsValid, prepare_to_mark-IsValid}
use mod2gc.Storage.Allocate.{allocate_storage-Stored, slow-eq-allocate_new, first_fit_in_use}
use mod2gc.Storage.Collect.{sweep_garbage-Swept}

pub data Call : Type 0 where
  allocates : ℕ → Call
  prepares : Call
  sweeps : Call

-- A request of whole words, of fewer than 2 ^ 60 bytes.
abbrev pub IsGood : Call → Type 0
IsGood (allocates n) = (n % 8 ≡ 0) × (n < 2 ^ 60)
IsGood prepares = Unit
IsGood sweeps = Unit

module _ (base : ℕ → ℕ) where
  unfoldable pub step : Storage → Call → Outcome Storage
  step s (allocates n) = do (_, s') ← allocate_storage base s n; ok s'
  step s prepares = ok (prepare_to_mark s)
  step s sweeps = sweep_garbage s

  unfoldable pub run : Storage → List Call → Outcome Storage
  run s [] = ok s
  run s (c ∷ cs) = step s c >>= λ s'. run s' cs

  -- Requests with no collection between them, and the blocks that they are given.
  unfoldable pub allocate_all : Storage → List ℕ → Outcome (List (Address × ℕ) × Storage)
  allocate_all s [] = ok ([], s)
  allocate_all s (n ∷ ns) = do
    (a, s₁) ← allocate_storage base s n
    (blocks, s₂) ← allocate_all s₁ ns
    ok ((a, n) ∷ blocks, s₂)

-- The invariant for some lists.
pub record Sound (s : Storage) : Type 0 where
  pub front : List ℕ
  pub unused : List ℕ
  pub valid : IsValid s front unused

module _ (base : ℕ → ℕ) where
  step-Sound : (s : Storage) (c : Call) → IsGood c → Sound s → Returns Sound (step base s c)
  unfolding step
  step-Sound s (allocates n) good v =
      let (r, e, d) = allocate_storage-Stored base s v.front v.unused n v.valid good.0 good.1 in
      (r.1, rw e, record { front = d.front; unused = v.unused; valid = d.valid })
  step-Sound s prepares good v = (
    prepare_to_mark s,
    refl,
    record {
      front = v.unused;
      unused = [];
      valid = prepare_to_mark-IsValid s v.front v.unused v.valid;
    },
  )
  step-Sound s sweeps good v =
      let (t, e, d) = sweep_garbage-Swept s v.front v.unused v.valid in
      (t, e, record { front = []; unused = v.front ++ v.unused; valid = d.valid })

  run-Sound :
      (cs : List Call) (s : Storage) → All IsGood cs → Sound s → Returns Sound (run base s cs)
  unfolding run
  run-Sound [] s good v = (s, refl, v)
  run-Sound (c ∷ cs) s good v =
      Returns-bind Sound Sound (step base s c) (λ s'. run base s' cs) (step-Sound s c good.0 v)
        (λ s' v'. run-Sound cs s' good.1 v')

  -- With the blocks of buckets at multiples of eight, from a new allocator, any history of
  -- collections and of requests of whole words below 2 ^ 60 bytes runs to its end with no panic,
  -- and the invariant of the two lists holds then.
  pub run-new :
      (heap : ℕ → Bucket) (cs : List Call) → All IsGood cs → Returns Sound (run base (new heap) cs)
  run-new heap cs good =
      run-Sound cs (new heap) good (record { front = []; unused = []; valid = new-IsValid heap })

  -- After any history, from a new allocator, of collections and of requests of whole words below 2
  -- ^ 60 bytes, a request for which the walk over the buckets in use finds no room gets a new
  -- bucket: `slow_allocate_storage` never takes the branch that moves a bucket out of the unused
  -- list.
  pub unused_never_reused :
      (heap : ℕ → Bucket) (cs : List Call) (s : Storage) (n : ℕ)
      → All IsGood cs
      → run base (new heap) cs ≡ ok s
      → first_fit (s.boxes + 1) s.buckets n s.bucket_list ≡ ok none
      → slow_allocate_storage base s n ≡ allocate_new base s n
  unused_never_reused heap cs s n good e full =
      let v = Returns_at Sound (run base (new heap) cs) (run-new heap cs good) e in
      slow-eq-allocate_new base s n v.valid
        (ok_injective (sym (first_fit_in_use base s n v.valid) ∙ full))

abbrev pub Apart : List (Address × ℕ) → Type 0
Apart [] = Unit
Apart (x ∷ xs) = All (λ y. Disjoint x.0 x.1 y.0 y.1) xs × Apart xs

abbrev pub GoodSizes : List ℕ → Type 0
GoodSizes = All (λ n. (n % 8 ≡ 0) × (n < 2 ^ 60))

-- What a run of requests leaves: the blocks are apart from one another and from those held before.
pub record Served (s : Storage) (r : List (Address × ℕ) × Storage) : Type 0 where
  pub apart : Apart r.0
  pub clear : (a : Address) (m : ℕ) → Held s a m → All (λ y. Disjoint a m y.0 y.1) r.0
  pub held : All (λ y. Held r.1 y.0 y.1) r.0
  pub keeps : (a : Address) (m : ℕ) → Held s a m → Held r.1 a m
  pub sound : Sound r.1

-- With the blocks of buckets at multiples of eight, requests of whole words below 2 ^ 60 bytes,
-- with no collection between them and from a state that satisfies the invariant, are all given
-- blocks; these share no byte with one another, nor with a block held before.
pub allocate_all-Served :
    (base : ℕ → ℕ) (ns : List ℕ) (s : Storage)
    → Sound s
    → GoodSizes ns
    → Returns (Served s) (allocate_all base s ns)
unfolding allocate_all
allocate_all-Served base [] s v good = (
  ([], s),
  refl,
  record { apart = tt; clear = λ a m h. tt; held = tt; keeps = λ a m h. h; sound = v },
)
allocate_all-Served base (n ∷ ns) s v good =
    let (r, e, d) = allocate_storage-Stored base s v.front v.unused n v.valid good.0.0 good.0.1 in
    let v' : Sound r.1 = record { front = d.front; unused = v.unused; valid = d.valid } in
    let (q, e', rest) = allocate_all-Served base ns r.1 v' good.1 in
    (
      ((r.0, n) ∷ q.0, q.1),
      rw (e, e'),
      record {
        apart = (rest.clear r.0 n d.held, rest.apart);
        clear = λ a m h. ((d.keeps a m h).1, rest.clear a m (d.keeps a m h).0);
        held = (rest.keeps r.0 n d.held, rest.held);
        keeps = λ a m h. rest.keeps a m (d.keeps a m h).0;
        sound = rest.sound;
      },
    )
