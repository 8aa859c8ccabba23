-- ===== src/Vector/Tests.antt =====
-- Runs of src/dag_node/allocator/node_vector.rs, and its theorems at a concrete memory.
use mod2gc.Base.{◌≡◌, refl, none, some, List, [], ◌∷◌, ◌++◌, ok, panic, ◌>>=◌, Returns, arith, take}
use mod2gc.Node.{DagNodePtr}
use mod2gc.Vector.{Memory, from_slice, copy_with_capacity, iter, into_iter, push, pop, index}
use mod2gc.Vector.Owns.{nth, Owns, Grows}
use mod2gc.Vector.Make.{Made}
use mod2gc.Vector.Copy.{copy_with_capacity-Made}
use mod2gc.Vector.Change.{push_then_pop, index_lem}
use mod2gc.Vector.Round.{from_slice_then_iter}
use mod2gc.Vector.Sample.{at, base, address, items, memory, storage-Sound, memory-Owns}

-- A vector of capacity 3 with two items: the walk over a reference goes on to the unused slot.
walks : (iter memory (address 0) ≡ ok items) × (into_iter memory (address 0) ≡ items ++ none ∷ [])
unfolding iter into_iter
walks = (refl, refl)

copy_with_capacity-Made_example :
    Returns (Made memory (take 1 items) 1) (copy_with_capacity base (address 0) 1 memory)
copy_with_capacity-Made_example =
    copy_with_capacity-Made base memory storage-Sound (address 0) items 3 memory-Owns 1
      (omega arith)

push_then_pop_example :
    Returns
      (λ r. (r.0 ≡ some (some (at 7))) × Owns r.1 (address 0) items 3)
      (push memory (address 0) (some (at 7)) >>= (λ t. pop t (address 0)))
push_then_pop_example =
    push_then_pop memory (address 0) items 3 (some (at 7)) memory-Owns (omega arith)

index_lem_example : index memory (address 0) 2 ≡ panic
index_lem_example = index_lem memory (address 0) items 3 memory-Owns 2

from_slice_then_iter_example :
    Returns {A = List DagNodePtr × Memory}
      (λ r. r.0 ≡ items × Grows memory r.1)
      (from_slice base 2 (λ t i. nth items i) memory
        >>= (λ (v, t). iter t v >>= (λ ys. ok (ys, t))))
from_slice_then_iter_example = from_slice_then_iter base memory items storage-Sound (omega arith)
