-- ===== src/Storage/Tests.antt =====
-- Runs of the allocator of src/dag_node/allocator/storage_allocator.rs, and its theorems at concrete
-- states.
use mod2gc.Base.{
  update, ℕ, ◌*◌, ◌^◌, ◌≡◌, refl, true, false, none, some, List, [], ◌∷◌, ok, panic, Returns, arith,
  ◌>>=◌,
}
use mod2gc.Bucket
use mod2gc.Bucket.{Bucket}
use mod2gc.Bucket.Bounds
use mod2gc.Bucket.Bounds.{Allocated}
use mod2gc.Storage.{
  Address, Storage, new, first_fit, first_fit_unused, charge, slow_allocate_storage, allocate_new,
  allocate_in, serve, allocate_storage, prepare_to_mark, reset_all, sweep_garbage,
}
use mod2gc.Storage.Invariant.{IsValid, new-IsValid}
use mod2gc.Storage.Allocate.{Stored, allocate_storage-Stored}
use mod2gc.Storage.Collect.{Swept, sweep_garbage-Swept}
use mod2gc.Storage.Copies.{IsGiven}
use mod2gc.Storage.Reissue.{first_collection_reissues, second_mark_overwrites}
use mod2gc.Storage.History.{
  Call, allocates, prepares, sweeps, run, step, allocate_all, Sound, Served, run-new,
  unused_never_reused, allocate_all-Served,
}

-- Every bucket stands at a multiple of a megabyte.
abbrev base : ℕ → ℕ
base k = k * 2 ^ 20

abbrev heap : ℕ → Bucket
heap k = record { capacity = 0; bytes_free = 0; next_free = 0; next_bucket = none }

abbrev fresh : Storage
fresh = new heap

abbrev small : Bucket
small = record { capacity = 64; bytes_free = 40; next_free = 24; next_bucket = none }

program : Unit {0}
unfolding new Bucket.allocate Bucket.with_capacity Bucket.reset first_fit first_fit_unused charge
    slow_allocate_storage allocate_new allocate_in serve allocate_storage prepare_to_mark reset_all
    sweep_garbage step run allocate_all
program = tt

abbrev address : ℕ → ℕ → Address
address b o = record { bucket = b; offset = o }

-- Two requests that one bucket serves, and a third that it cannot.
three_requests :
    (do (blocks, _) ← allocate_all base fresh (64 ∷ 8 ∷ 262144 ∷ []); ok blocks)
    ≡ ok ((address 0 0, 64) ∷ (address 0 64, 8) ∷ (address 1 0, 262144) ∷ [])
unfolding program
three_requests = refl

not_words : allocate_storage base fresh 12 ≡ panic
unfolding program
not_words = refl

allocate-Allocated_example : Returns (Allocated 0 small 40) (Bucket.allocate 0 small 40)
allocate-Allocated_example = Bounds.allocate-Allocated 0 small 40 refl (omega arith)

allocate_storage-Stored_example : Returns (Stored fresh [] [] 64) (allocate_storage base fresh 64)
allocate_storage-Stored_example =
    allocate_storage-Stored base fresh [] [] 64 (new-IsValid heap) refl (omega arith)

-- One bucket in use, from which 24 bytes are held.
abbrev used : Storage
used = record {
  show_gc = true;
  early_quit = 0;
  need_to_collect_garbage = false;
  bucket_count = 1;
  bucket_list = some 0;
  unused_list = none;
  storage_in_use = 24;
  total_bytes_allocated = 64;
  old_storage_in_use = 0;
  target = 220 * 1024;
  buckets = λ k. small;
  boxes = 1;
}

used-IsValid : IsValid used (0 ∷ []) []
used-IsValid = record {
  in_use_links = (refl, refl);
  unused_links = refl;
  ordered = (omega arith, tt);
  valid = ((omega arith, refl), tt);
}

sweep_garbage-Swept_example : Returns (Swept used (0 ∷ [])) (sweep_garbage used)
sweep_garbage-Swept_example = sweep_garbage-Swept used (0 ∷ []) [] used-IsValid

first_collection_reissues_example :
    Returns {A = Address × List (Address × ℕ)}
      (λ r. IsGiven r.1 r.0)
      (do
        (copies, s₁) ← allocate_all base (prepare_to_mark used) (32 ∷ 24 ∷ [])
        s₂ ← sweep_garbage s₁
        (next, _) ← allocate_storage base s₂ 32
        ok (next, copies))
first_collection_reissues_example =
    first_collection_reissues base used (0 ∷ []) 32 32 (24 ∷ []) used-IsValid
      ((refl, omega arith), ((refl, omega arith), tt)) refl (omega arith)

abbrev calls : List Call
calls = allocates 64 ∷ prepares ∷ allocates 64 ∷ sweeps ∷ allocates 8 ∷ []

run-new_example : Returns Sound (run base fresh calls)
run-new_example = run-new base heap calls (omega arith)

-- After one request and the start of a collection the bucket made has room, but is in neither list.
abbrev prepared : Storage
prepared = record fresh {
  bucket_count = 1;
  total_bytes_allocated = 262136;
  old_storage_in_use = 64;
  buckets =
      update heap 0
        (record { capacity = 262136; bytes_free = 262072; next_free = 64; next_bucket = none });
  boxes = 1;
}

first_history : run base fresh (allocates 64 ∷ prepares ∷ []) ≡ ok prepared
unfolding program
first_history = refl

unused_never_reused_example : slow_allocate_storage base prepared 16 ≡ allocate_new base prepared 16
unfolding program
unused_never_reused_example =
    unused_never_reused base heap (allocates 64 ∷ prepares ∷ []) prepared 16 (omega arith)
      first_history refl

allocate_all-Served_example : Returns (Served used) (allocate_all base used (8 ∷ 64 ∷ []))
allocate_all-Served_example =
    allocate_all-Served base (8 ∷ 64 ∷ []) used
      (record { front = 0 ∷ []; unused = []; valid = used-IsValid }) (omega arith)

second_mark_overwrites_example :
    Returns {A = Address × List (Address × ℕ)}
      (λ r. IsGiven r.1 r.0)
      (do
        (copies, s₁) ← allocate_all base (prepare_to_mark used) (32 ∷ 24 ∷ [])
        s₂ ← sweep_garbage s₁
        (copy, _) ← allocate_storage base (prepare_to_mark s₂) 32
        ok (copy, copies))
second_mark_overwrites_example =
    second_mark_overwrites base used (0 ∷ []) 32 32 (24 ∷ []) used-IsValid
      ((refl, omega arith), ((refl, omega arith), tt)) refl (omega arith)
