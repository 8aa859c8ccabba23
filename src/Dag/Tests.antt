-- ===== src/Dag/Tests.antt =====
-- The theorems on src/dag_node/node.rs at a concrete heap.
use mod2gc.Base.{
  ℕ, ◌+◌, ◌*◌, ◌%◌, ◌^◌, ◌<◌, ◌≡◌, refl, ap, inl, inr, some, [], ◌∷◌, panic, Returns, arith,
}
use mod2gc.Flags.Bits.{bits}
use mod2gc.Node.{NodePtr, free}
use mod2gc.Arenas.{arena_size}
use mod2gc.Roots.{mark_roots}
use mod2gc.Vector.Sample.{at, base, address, items, storage-Sound, memory-Owns}
use mod2gc.Dag.{with_kind, with_args, insert_child, mark, mark_node}
use mod2gc.Dag.Graph.{here, unmarked}
use mod2gc.Dag.Mark.{Visited}
use mod2gc.Dag.Exact.{Among, Exact, mark_node-Visited, mark_roots-Exact, mark_roots-counts}
use mod2gc.Dag.Construct.{Built, with_args-Built}
use mod2gc.Dag.Fresh.{Fresh, with_kind-Fresh}
use mod2gc.Dag.Insert.{Inserted, insert_child-Inserted}
use mod2gc.Dag.Mismatch.{mark-panic}
use mod2gc.Dag.Sample.{
  symbols, junk, heap, heap-clean, nodes-Started, graph, Live, heap-IsGraph, children_live,
  graph-closed, roots, roots-Holds, roots_live,
}

mark_node-Visited_example :
    Returns
      (Visited bits base junk symbols graph Live Live heap (at 1))
      (mark_node bits base junk symbols (at 1) heap)
mark_node-Visited_example =
    mark_node-Visited bits base junk symbols graph Live graph-closed Live (at 1) heap (inr refl)
      (here (inr refl)) heap-IsGraph

mark_roots-Exact_example :
    Returns
      (Exact bits base junk symbols graph Live graph-closed (Among (at 0 ∷ [])) heap)
      (mark_roots (mark_node bits base junk symbols) roots heap)
mark_roots-Exact_example =
    mark_roots-Exact bits base junk symbols graph Live graph-closed roots (0 ∷ []) (at 0 ∷ [])
      roots-Holds heap heap-IsGraph roots_live heap-clean

mark_roots-counts_example :
    Returns
      (λ h'. (h'.nodes.active_node_count + unmarked bits h') % 2 ^ 64 ≡ (1 * arena_size) % 2 ^ 64)
      (mark_roots (mark_node bits base junk symbols) roots heap)
mark_roots-counts_example =
    mark_roots-counts bits base junk symbols graph Live graph-closed roots (0 ∷ []) (at 0 ∷ [])
      roots-Holds heap heap-IsGraph roots_live heap-clean refl

with_args-Built_example :
    Returns
      (Built bits base junk symbols heap 2 items free)
      (with_args bits base junk symbols (some 2) items free heap)
with_args-Built_example =
    with_args-Built bits base junk symbols (λ k j. refl) heap 0 3 2 items free nodes-Started
      storage-Sound refl (omega arith)

insert_child-Inserted_example :
    Returns
      (Inserted bits base junk symbols heap (at 0) items (some (at 2)))
      (insert_child bits base junk symbols (at 0) (some (at 2)) heap)
insert_child-Inserted_example =
    insert_child-Inserted bits base junk symbols heap (at 0) (omega arith) (omega arith) 3 items
      (some (at 2)) storage-Sound memory-Owns (omega arith)

at_two : (i : ℕ) → i < 2 → at 2 ≡ at i → ⊥
at_two i lt e = (let same = ap (λ (p : NodePtr). p.index) e in omega (arith, same))

outside : ¬ (Live (at 2))
outside (inl e) = at_two 0 (omega arith) e
outside (inr e) = at_two 1 (omega arith) e

mark-panic_example : mark bits base junk symbols 5462 (at 2) heap ≡ panic
mark-panic_example =
    mark-panic bits base junk symbols graph Live graph-closed heap heap-IsGraph (at 2) outside
      (omega arith) (omega arith) (address 0) items 3 2 memory-Owns (λ e. omega arith) children_live
      5461 2 refl refl refl refl (omega arith)

with_kind-Fresh_example :
    Returns
      (Fresh bits base junk symbols heap 0 3 2 free)
      (with_kind bits base junk symbols (some 2) free heap)
with_kind-Fresh_example =
    with_kind-Fresh bits base junk symbols (λ k j. refl) heap 0 3 2 free nodes-Started storage-Sound
      (omega arith)
