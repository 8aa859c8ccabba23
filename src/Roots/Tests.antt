-- ===== src/Roots/Tests.antt =====
-- Runs of src/dag_node/root_container.rs, and its theorems at concrete lists.
use mod2gc.Base.{
  ℕ, ◌==◌, ◌≡◌, refl, none, some, List, [], ◌∷◌, ok, Outcome, Returns, arith, if◌then◌else◌,
}
use mod2gc.Node.{NodePtr}
use mod2gc.Roots.{RootContainer, Roots, new, drop, mark_roots}
use mod2gc.Roots.Laws.{IsRoots}
use mod2gc.Roots.Refine.{mark_each, Holds, new-Holds, drop-Holds, mark_roots-mark_each}

abbrev at : ℕ → NodePtr
at i = record { arena = 0; index = i }

abbrev containers : ℕ → RootContainer
containers x =
    if x == 0
    then record { next = none; prev = some 1; node = some (at 5) }
    else if x == 1
    then record { next = some 0; prev = some 2; node = some (at 6) }
    else record { next = some 1; prev = none; node = some (at 7) }

-- Three roots, the newest first.
abbrev three : Roots
three = record { list_head = some 2; containers = containers; boxes = 3 }

three-IsRoots : IsRoots three (2 ∷ 1 ∷ 0 ∷ [])
three-IsRoots = record {
  last = some 0;
  seg = (refl, refl, (refl, refl, (refl, refl, (refl, refl))));
  ordered = (omega arith, (omega arith, (omega arith, tt)));
  rooted = ((at 7, refl), ((at 6, refl), ((at 5, refl), tt)));
}

three-Holds : Holds three (2 ∷ 1 ∷ 0 ∷ []) (at 7 ∷ at 6 ∷ at 5 ∷ [])
three-Holds = record { roots = three-IsRoots; nodes = refl }

new-Holds_example :
    Returns
      (λ r. Holds r.1 (r.0 ∷ 2 ∷ 1 ∷ 0 ∷ []) (at 9 ∷ at 7 ∷ at 6 ∷ at 5 ∷ []))
      (new three (some (at 9)))
new-Holds_example = new-Holds three (2 ∷ 1 ∷ 0 ∷ []) (at 7 ∷ at 6 ∷ at 5 ∷ []) (at 9) three-Holds

drop-Holds_example : Holds (drop three 1) (2 ∷ 0 ∷ []) (at 7 ∷ at 5 ∷ [])
drop-Holds_example = drop-Holds three (2 ∷ []) 1 (0 ∷ []) three-IsRoots

-- A visit that writes down the node.
abbrev note : NodePtr → List NodePtr → Outcome (List NodePtr)
note p ps = ok (p ∷ ps)

mark_roots-mark_each_example :
    mark_roots note three [] ≡ mark_each note (at 7 ∷ at 6 ∷ at 5 ∷ []) []
mark_roots-mark_each_example =
    mark_roots-mark_each note three (2 ∷ 1 ∷ 0 ∷ []) (at 7 ∷ at 6 ∷ at 5 ∷ []) [] three-Holds
