-- ===== src/Arenas/Tests.antt =====
-- Runs of the allocator of src/dag_node/allocator/node_allocator.rs, and its theorems at concrete
-- states.
use mod2gc.Base.{
  ℕ, ◌≡◌, refl, inr, true, false, ◌&&◌, none, some, [], ok, ◌>>=◌, Returns, arith, leb, ltb,
  if◌then◌else◌,
}
use mod2gc.Flags.Bits.{bits}
use mod2gc.Node.{DagNode, free, no_args, clear_flags}
use mod2gc.Arenas.{Arena, NodeAllocator, new, find_free}
use mod2gc.Arenas.Search.{ptr, Searched, find_free-Searched}
use mod2gc.Arenas.Allocate.{allocate_dag_node}
use mod2gc.Arenas.Allocate.Safety.{Started, Given, allocate_dag_node-Given}
use mod2gc.Arenas.Allocate.Sequence.{
  allocate_times, Supplied, allocate_times-Supplied, allocate_new_first,
}
use mod2gc.Arenas.Check.{check_invariant, check_arenas}
use mod2gc.Arenas.Check.Report.{Listed, Seen}
use mod2gc.Arenas.Check.Silent.{check_invariant_lem, sweep_then_check}
use mod2gc.Arenas.Sweep.{sweep_arenas}
use mod2gc.Arenas.Sweep.Clears.{Tidy}
use mod2gc.Arenas.Sweep.Tidies.{sweep_arenas-Tidy}

abbrev idle : DagNode
idle = record { symbol = none; args = no_args; kind = free; flags = 0 }

abbrev live : DagNode
live = record { symbol = some 7; args = no_args; kind = free; flags = 1 }

-- Memory of an arena before its nodes are in use.
abbrev junk : (k j : ℕ) → DagNode
junk k j = idle

-- One arena, of which the nodes 1 and 2 have marks.
abbrev arena : Arena
arena = record { next_arena = none; nodes = λ j. if leb 1 j && ltb j 3 then live else idle }

-- After a collection that has left two live nodes, and one allocation.
abbrev collected : NodeAllocator
collected = record {
  show_gc = true;
  early_quit = 0;
  need_to_collect_garbage = false;
  arena_count = 1;
  current_arena_past_active_arena = false;
  first_arena = some 0;
  last_arena = some 0;
  current_arena = some 0;
  next_node = some (ptr 0 1);
  end_pointer = some (ptr 0 5204);
  last_active_arena = some 0;
  last_active_node = some (ptr 0 2);
  active_node_count = 3;
  arenas = λ a. arena;
  boxes = 1;
}

collected-Started : Started bits collected 0 1
collected-Started = record {
  end = 5204;
  linked = record {
    first = refl;
    last = refl;
    links = λ a h. absurd (omega arith);
    ends = λ a h. refl;
    count = refl;
  };
  place = record {
    exists = omega arith;
    current = refl;
    end = refl;
    in_array = omega arith;
    full = inr refl;
  };
  next = refl;
  order = omega arith;
  marks = record {
    behind_arenas = λ a j lt h. absurd (omega arith);
    behind_nodes = λ j h. ground arith;
    past = λ q a j lt h. cc;
    active = λ q. record {
      a = 0;
      j = 2;
      arena = refl;
      node = refl;
      ahead = omega arith;
      exists = omega arith;
      in_array = omega arith;
      bound = λ b k lt h y. ground arith;
    };
  };
}

find_free-Searched_example :
    Returns
      (Searched bits (clear_flags bits) collected.arenas 0 1 5204)
      (find_free bits (clear_flags bits) 5461 collected.arenas (ptr 0 1) (some (ptr 0 5204)))
find_free-Searched_example =
    find_free-Searched bits (clear_flags bits) 5461 collected.arenas 0 1 5204 (omega arith)
      (omega arith) (omega arith)

allocate_dag_node-Given_example :
    Returns (Given bits collected 0 1) (allocate_dag_node bits junk collected)
allocate_dag_node-Given_example =
    allocate_dag_node-Given bits junk (λ k j. refl) collected 0 1 collected-Started

allocate_times-Supplied_example :
    Returns (Supplied bits junk collected 0 1 6000) (allocate_times bits junk 6000 collected)
allocate_times-Supplied_example =
    allocate_times-Supplied bits junk (λ k j. refl) 6000 collected 0 1 collected-Started

allocate_new_first_example :
    Returns (Given bits (new (λ a. arena)) 0 0) (allocate_dag_node bits junk (new (λ a. arena)))
allocate_new_first_example = allocate_new_first bits junk (λ a. arena) (λ k j. refl)

sweep_arenas-Tidy_example : Returns (Tidy bits collected 0 1) (sweep_arenas bits collected)
sweep_arenas-Tidy_example = sweep_arenas-Tidy bits collected 0 0 collected-Started (omega arith)

check_invariant_lem_example :
    Returns
      (λ xs.
        (b j : ℕ)
        → (Listed xs b j → Seen bits collected 0 1 b j)
          × (Seen bits collected 0 1 b j → Listed xs b j))
      (check_invariant bits collected)
check_invariant_lem_example =
    check_invariant_lem bits collected 0 1 collected-Started.end collected-Started.linked
      collected-Started.place refl (omega arith)

sweep_then_check_example : (sweep_arenas bits collected >>= check_arenas bits) ≡ ok []
sweep_then_check_example =
    sweep_then_check bits collected 0 0 collected-Started (omega arith) (omega arith)
