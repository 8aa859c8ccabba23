-- ===== src/Vector/Sample.antt =====
-- A memory with one vector, at which the theorems on src/dag_node/allocator/node_vector.rs are used.
use mod2gc.Base.{
  ℕ, zero, suc, ◌*◌, ◌^◌, ◌<◌, ◌≡◌, refl, true, false, none, some, List, [], ◌∷◌, arith,
  if◌then◌else◌,
}
use mod2gc.Bucket.{Bucket}
use mod2gc.Node.{NodePtr, DagNodePtr}
use mod2gc.Storage.{Address, Storage}
use mod2gc.Storage.History.{Sound}
use mod2gc.Vector.{Memory, same_address, slot}
use mod2gc.Vector.Owns.{nth, Owns}

abbrev pub at : ℕ → NodePtr
at i = record { arena = 0; index = i }

-- Every bucket stands at a multiple of a megabyte.
abbrev pub base : ℕ → ℕ
base k = k * 2 ^ 20

abbrev pub address : ℕ → Address
address o = record { bucket = 0; offset = o }

abbrev bucket : Bucket
bucket = record { capacity = 128; bytes_free = 72; next_free = 56; next_bucket = none }

abbrev pub storage : Storage
storage = record {
  show_gc = true;
  early_quit = 0;
  need_to_collect_garbage = false;
  bucket_count = 1;
  bucket_list = some 0;
  unused_list = none;
  storage_in_use = 56;
  total_bytes_allocated = 128;
  old_storage_in_use = 0;
  target = 220 * 1024;
  buckets = λ k. bucket;
  boxes = 1;
}

-- The header stands at 0, the slots at 32, 40 and 48; two of them are in use.
abbrev pub items : List DagNodePtr
items = some (at 1) ∷ none ∷ []

abbrev pub memory : Memory
memory = record {
  storage = storage;
  vectors = λ a. record { length = 2; capacity = 3; slice = record { ptr = address 32; len = 3 } };
  slots = λ a. if same_address a (address 32) then some (at 1) else none;
}

pub storage-Sound : Sound storage
storage-Sound = record {
  front = 0 ∷ [];
  unused = [];
  valid = record {
    in_use_links = (refl, refl);
    unused_links = refl;
    ordered = (omega arith, tt);
    valid = (omega arith, tt);
  };
}

pub slot-items : (i : ℕ) → i < 2 → memory.slots (slot (address 32) i) ≡ nth items i
slot-items zero lt = refl
slot-items (suc zero) lt = refl
slot-items (suc (suc i)) lt = absurd (omega arith)

pub memory-Owns : Owns memory (address 0) items 3
memory-Owns = record {
  ptr = address 32;
  header = refl;
  fits = omega arith;
  small = omega arith;
  held = record { exists = omega arith; passed = omega arith };
  held_slots = record { exists = omega arith; passed = omega arith };
  items = slot-items;
}
