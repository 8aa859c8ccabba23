-- ===== src/Vector/Round.antt =====
-- What `from_slice` of src/dag_node/allocator/node_vector.rs stores, `iter` reads back.
use mod2gc.Base.{ℕ, ◌^◌, ◌<◌, ◌≡◌, ◌∙◌, refl, ap, List, ok, ◌>>=◌, Returns, length}
use mod2gc.Node.{DagNodePtr}
use mod2gc.Storage.History.{Sound}
use mod2gc.Vector.{Memory, from_slice, iter}
use mod2gc.Vector.Owns.{nth, Grows}
use mod2gc.Vector.Fill.{from_slice-Made}
use mod2gc.Vector.Change.{iter_lem}

-- With valid lists of buckets, `iter` of the vector that `from_slice` makes of fewer than 2 ^ 57
-- items gives these items, and the blocks handed out before keep what they hold.
pub from_slice_then_iter :
    (base : ℕ → ℕ) (m : Memory) (xs : List DagNodePtr)
    → Sound m.storage
    → length xs < 2 ^ 57
    → Returns {A = List DagNodePtr × Memory}
        (λ r. r.0 ≡ xs × Grows m r.1)
        (from_slice base (length xs) (λ t i. nth xs i) m
          >>= (λ (v, t). iter t v >>= (λ ys. ok (ys, t))))
from_slice_then_iter base m xs sound small =
    let (r, e, d) = from_slice-Made base m sound (λ t i. nth xs i) xs small (λ t g j lt. refl) in
    (
      (xs, r.1),
      ap (λ m'. m' >>= (λ (v, t). iter t v >>= (λ ys. ok (ys, t)))) e
          ∙ ap (λ m'. m' >>= (λ ys. ok (ys, r.1))) (iter_lem r.1 r.0 xs (length xs) d.owns),
      (refl, d.grows),
    )
