-- ===== src/Tree/Tests.antt =====
-- The theorem on src/util.rs at a concrete heap, and a tree that is built.
use mod2gc.Base.{
  ℕ, zero, suc, ◌≡◌, ◌∙◌, refl, ap, sym, inr, false, none, some, List, [], ◌∷◌, ◌++◌, length, ok,
  ◌>>=◌, Returns, arith, Outcome,
}
use mod2gc.Flags.Bits.{bits}
use mod2gc.Node.{NodePtr, DagNode, no_args, free}
use mod2gc.Arenas.Search.{ptr}
use mod2gc.Vector.Sample.{at, base, storage-Sound}
use mod2gc.Dag.{put_node, new, insert_child, add_child, with_kind}
use mod2gc.Dag.Construct.{Started-put}
use mod2gc.Dag.Sample.{symbols, junk, heap, nodes, nodes-Started}
use mod2gc.Arenas.Allocate.{allocate_dag_node}
use mod2gc.Arenas.Allocate.{next_free}
use mod2gc.Arenas.Allocate.{search}
use mod2gc.Storage.{allocate_storage}
use mod2gc.Storage.{first_fit}
use mod2gc.Storage.{charge}
use mod2gc.Storage.{serve}
use mod2gc.Storage.{allocate_in}
use mod2gc.Storage.{slow_allocate_storage}
use mod2gc.Storage.{first_fit_unused}
use mod2gc.Storage.{allocate_new}
use mod2gc.Arenas.{find_free}
use mod2gc.Vector.{with_capacity}
use mod2gc.Bucket
use mod2gc.Vector.{push}
use mod2gc.Vector.{set}
use mod2gc.Tree.{Builder, add_children, symbol_at, build_random_tree}
use mod2gc.Dag.Graph.{Reach}
use mod2gc.Dag.Exact.{Among}
use mod2gc.Roots
use mod2gc.Roots.{Roots}
use mod2gc.Collect.{Collector, collect_garbage}
use mod2gc.Collect.Keeps.{Collected}
use mod2gc.Tree.Print.{Text, print_tree}
use mod2gc.Tree.Print.Lines.{IsDrawing, print_tree-IsDrawing}
use mod2gc.Tree.Nodes.{children_of}
use mod2gc.Tree.Plant.{Planter, plant, plant_all}
use mod2gc.Tree.Plant.All.{Stocked, plant_all-Stocked}
use mod2gc.Tree.Plant.Survive.{collect_garbage-Stocked}
use mod2gc.Tree.Build.{Offers, Ready, Populated, build_random_tree-Populated}

-- Always the most children.
abbrev draw : (n lo hi : ℕ) → ℕ
draw n lo hi = hi

abbrev table : List ℕ
table = 0 ∷ 1 ∷ 2 ∷ []

abbrev root : DagNode
root = record { symbol = some 1; args = no_args; kind = free; flags = 0 }

-- Node 2 of the heap has no children, and a symbol with one argument.
abbrev start : Builder
start = record { heap = put_node heap (at 2) root; draws = 0 }

start-Ready : Ready bits symbols start.heap (at 2) (ptr 0 3) 1
start-Ready = record {
  started = Started-put bits nodes (at 2) root refl 0 3 nodes-Started;
  sound = storage-Sound;
  exists = omega arith;
  before = (omega arith, inr (refl, omega arith));
  named = refl;
  shape = refl;
  suits = omega arith;
}

table-Offers : Offers symbols table 2
table-Offers zero le = (0, refl, refl)
table-Offers (suc zero) le = (1, refl, refl)
table-Offers (suc (suc zero)) le = (2, refl, refl)
table-Offers (suc (suc (suc a))) le = absurd (omega arith)

build_random_tree-Populated_example :
    Returns
      (λ s'. Populated bits symbols 2 start.heap (at 2) 1 3 (ptr 0 3) s'.heap)
      (build_random_tree bits base junk symbols table draw (at 2) 3 2 1 start)
build_random_tree-Populated_example =
    build_random_tree-Populated bits base junk symbols table draw 2 (λ k j. refl)
      (λ n lo hi le. (le, omega arith)) table-Offers (omega arith) 3 2 1 (omega arith) (at 2)
      (ptr 0 3) 1 start start-Ready (λ e. absurd (omega (arith, e)))

abbrev built :
    Returns
      (λ s'. Populated bits symbols 2 start.heap (at 2) 1 3 (ptr 0 3) s'.heap)
      (build_random_tree bits base junk symbols table draw (at 2) 3 2 1 start)
built =
    build_random_tree-Populated bits base junk symbols table draw 2 (λ k j. refl)
      (λ n lo hi le. (le, omega arith)) table-Offers (omega arith) 3 2 1 (omega arith) (at 2)
      (ptr 0 3) 1 start start-Ready (λ e. absurd (omega (arith, e)))

-- Two roots, with the symbols 2 and 1, in a heap that has none.
abbrev empty : Roots
empty = record {
  list_head = none;
  containers = λ x. record { next = none; prev = none; node = none };
  boxes = 0;
}

abbrev bare : Planter
bare = record { builder = record { heap = heap; draws = 0 }; roots = empty }

bare-Stocked : Stocked bits base junk symbols heap (λ x. ⊥) [] bare
bare-Stocked = record {
  at = ptr 0 3;
  begun = omega arith;
  M = λ x. ⊥;
  stock = record {
    started = nodes-Started;
    sound = storage-Sound;
    closed = λ x y n edge. n;
    shows = λ x n. absurd n;
    before = λ x n. absurd n;
    roots = λ x a. a;
  };
  xs = [];
  holds = record {
    roots = record { last = none; seg = (refl, refl); ordered = tt; rooted = tt };
    nodes = refl;
  };
  more = λ x n. n;
  same_node = λ x n. refl;
  same_children = λ x n. refl;
}

plant_all-Stocked_example :
    Returns
      (λ s'.
        (qs : List NodePtr) × (length qs ≡ 2)
        × Stocked bits base junk symbols heap (λ x. ⊥) (qs ++ []) s')
      (plant_all bits base junk symbols table draw 2 2 1 (2 ∷ 1 ∷ []) bare)
plant_all-Stocked_example =
    plant_all-Stocked bits base junk symbols table draw 2 2 2 1 (λ k j. refl)
      (λ n lo hi le. (le, omega arith)) table-Offers (omega arith) (omega arith) (omega arith)
      (2 ∷ 1 ∷ []) heap (λ x. ⊥) [] bare (omega arith, (omega arith, tt)) bare-Stocked

abbrev planted :
    Returns
      (λ s'.
        (qs : List NodePtr) × (length qs ≡ 2)
        × Stocked bits base junk symbols heap (λ x. ⊥) (qs ++ []) s')
      (plant_all bits base junk symbols table draw 2 2 1 (2 ∷ 1 ∷ []) bare)
planted =
    plant_all-Stocked bits base junk symbols table draw 2 2 2 1 (λ k j. refl)
      (λ n lo hi le. (le, omega arith)) table-Offers (omega arith) (omega arith) (omega arith)
      (2 ∷ 1 ∷ []) heap (λ x. ⊥) [] bare (omega arith, (omega arith, tt)) bare-Stocked

abbrev sizes : Planter → ℕ × ℕ
sizes s = (s.builder.heap.nodes.boxes, s.builder.heap.nodes.early_quit)

run_sizes :
    (plant_all bits base junk symbols table draw 2 2 1 (2 ∷ 1 ∷ []) bare >>= λ s. ok (sizes s))
    ≡ ok (1, 0)
unfolding plant plant_all Roots.new Roots.link build_random_tree add_children symbol_at new
    with_kind insert_child add_child allocate_dag_node next_free search allocate_storage first_fit
    charge serve allocate_in slow_allocate_storage first_fit_unused allocate_new find_free
    with_capacity push set Bucket.with_capacity Bucket.allocate
run_sizes = refl

planted_sizes : ok (sizes planted.0) ≡ ok (1, 0)
planted_sizes = sym (ap (λ m. m >>= λ s. ok (sizes s)) planted.1) ∙ run_sizes

sizes_of : {x y : ℕ × ℕ} → ◌≡◌ {A = Outcome (ℕ × ℕ)} (ok x) (ok y) → x ≡ y
sizes_of e = cc

abbrev before : Collector
before = record { heap = planted.0.builder.heap; gc_count = 0 }

abbrev roots_now : List NodePtr
roots_now = planted.2.0 ++ []

collect_garbage-Stocked_example :
    Returns
      (Collected bits base junk symbols
        (λ n. 1)
        planted.0.roots
        (children_of bits base junk symbols before.heap)
        (Reach (children_of bits base junk symbols before.heap) (Among roots_now))
        (Among roots_now)
        before)
      (collect_garbage bits base junk symbols (λ n. 1) planted.0.roots before)
collect_garbage-Stocked_example =
    collect_garbage-Stocked bits base junk symbols (λ n. 1) (λ k j. refl) (λ n. omega arith) heap
      (λ x. ⊥) roots_now planted.0 planted.2.2 0
      (let same = ap (λ (x : ℕ × ℕ). x.0) (sizes_of planted_sizes) in omega (arith, same))
      (let same = ap (λ (x : ℕ × ℕ). x.1) (sizes_of planted_sizes) in rw same refl)

-- The name number `n` is a text of one character.
abbrev text : ℕ → Text
text n = n ∷ []

print_tree-IsDrawing_example :
    Returns
      (IsDrawing bits base junk symbols text built.0.heap 3 (at 2))
      (print_tree bits base junk symbols text 4 (some (at 2)) [] false built.0.heap)
print_tree-IsDrawing_example =
    print_tree-IsDrawing bits base junk symbols text built.0.heap 2 start.heap (at 2) (ptr 0 3) 1 3
      start-Ready built.2
