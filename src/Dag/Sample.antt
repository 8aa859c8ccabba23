-- ===== src/Dag/Sample.antt =====
-- A heap with three nodes, at which the theorems on src/dag_node/node.rs are used: node 0 has node 1
-- and a null pointer as children, node 1 has node 0; node 2 is no part of the graph.
use mod2gc.Base.{
  ℕ, zero, suc, ◌<◌, ◌≡◌, refl, sym, subst, ◌⊎◌, inl, inr, true, false, none, some, [], ◌∷◌, arith,
  length, ◌==◌, if◌then◌else◌,
}
use mod2gc.Flags.Bits.{bits}
use mod2gc.Node.{NodePtr, DagNodePtr, free, no_args, single, many, DagNode}
use mod2gc.Symbol.{Symbol, standard}
use mod2gc.Arenas.{arena_size, Arena, NodeAllocator}
use mod2gc.Arenas.Search.{ptr}
use mod2gc.Arenas.Allocate.Safety.{Started}
use mod2gc.Roots.{Roots}
use mod2gc.Roots.Refine.{Holds}
use mod2gc.Vector.Owns.{nth}
use mod2gc.Vector.Sample.{at, address, items, memory, storage-Sound, memory-Owns}
use mod2gc.Dag.{Heap}
use mod2gc.Dag.Graph.{Graph, Edge, Shows, IsGraph, marked_in}
use mod2gc.Dag.Exact.{Among}

-- The symbol with number `k` has `k` arguments.
abbrev pub symbols : ℕ → Symbol
symbols k = record { name = 0; arity = k; attributes = 0; symbol_type = standard; hash_value = 0 }

abbrev pub junk : ℕ → ℕ → DagNode
junk k j = record { symbol = none; args = no_args; kind = free; flags = 0 }

abbrev arena : Arena
arena = record {
  next_arena = none;
  nodes = λ j.
      if j == 0
      then record { symbol = some 3; args = many (address 0); kind = free; flags = 0 }
      else if j == 1
      then record { symbol = some 1; args = single (some (at 0)); kind = free; flags = 0 }
      else if j == 2
      then record { symbol = some 2; args = many (address 0); kind = free; flags = 0 }
      else record { symbol = none; args = no_args; kind = free; flags = 0 };
}

-- The three nodes have been given out.
abbrev pub nodes : NodeAllocator
nodes = record {
  show_gc = true;
  early_quit = 0;
  need_to_collect_garbage = true;
  arena_count = 1;
  current_arena_past_active_arena = true;
  first_arena = some 0;
  last_arena = some 0;
  current_arena = some 0;
  next_node = some (ptr 0 3);
  end_pointer = some (ptr 0 5460);
  last_active_arena = none;
  last_active_node = none;
  active_node_count = 0;
  arenas = λ a. arena;
  boxes = 1;
}

abbrev pub heap : Heap
heap = record { nodes = nodes; memory = memory }

-- No node has a mark.
pub heap-clean : (p : NodePtr) → p.arena < 1 → p.index < arena_size → marked_in bits heap p ≡ false
heap-clean p lt lt' = ground arith

pub nodes-Started : Started bits nodes 0 3
nodes-Started = record {
  end = 5460;
  linked = record {
    first = refl;
    last = refl;
    links = λ a h. absurd (omega arith);
    ends = λ a h. refl;
    count = refl;
  };
  place = record {
    exists = omega arith;
    current = refl;
    end = refl;
    in_array = omega arith;
    full = inl refl;
  };
  next = refl;
  order = omega arith;
  marks = record {
    behind_arenas = λ a j lt h. absurd (omega arith);
    behind_nodes = λ j h. ground arith;
    past = λ q a j lt h. ground arith;
    active = λ q. absurd cc;
  };
}

abbrev pub graph : Graph
graph p = if p.index == 0 then items else if p.index == 1 then some (at 0) ∷ [] else []

-- The nodes of the graph.
abbrev pub Live : NodePtr → Type 0
Live p = (p ≡ at 0) ⊎ (p ≡ at 1)

Shows-first : Shows symbols graph heap (at 0)
Shows-first = record {
  in_arenas = omega arith;
  in_array = omega arith;
  symbol = 3;
  named = refl;
  shape = memory-Owns;
}

Shows-second : Shows symbols graph heap (at 1)
Shows-second = record {
  in_arenas = omega arith;
  in_array = omega arith;
  symbol = 1;
  named = refl;
  shape = refl;
}

pub heap-IsGraph : IsGraph symbols graph Live heap
heap-IsGraph = record {
  sound = storage-Sound;
  shows = λ p n. elim n [
    | inl e ↦ subst (Shows symbols graph heap) (sym e) Shows-first
    | inr e ↦ subst (Shows symbols graph heap) (sym e) Shows-second
  ];
}

some_of : {x y : NodePtr} → ◌≡◌ {A = DagNodePtr} (some x) (some y) → y ≡ x
some_of e = cc

first_children : (j : ℕ) (q : NodePtr) → j < 2 → nth items j ≡ some q → Live q
first_children zero q lt e = inr (some_of e)
first_children (suc zero) q lt e = cc
first_children (suc (suc j)) q lt e = absurd (omega arith)

pub children_live : (j : ℕ) (q : NodePtr) → j < length items → nth items j ≡ some q → Live q
children_live = first_children

second_children : (j : ℕ) (q : NodePtr) → j < 1 → nth (some (at 0) ∷ []) j ≡ some q → Live q
second_children zero q lt e = inl (some_of e)
second_children (suc j) q lt e = absurd (omega arith)

pub graph-closed : (p q : NodePtr) → Live p → Edge graph p q → Live q
graph-closed p q n edge = elim n [
  | inl e ↦ (let (j, lt, eq) = subst (λ p. Edge graph p q) e edge in first_children j q lt eq)
  | inr e ↦ (let (j, lt, eq) = subst (λ p. Edge graph p q) e edge in second_children j q lt eq)
]

-- One root, which is node 0.
abbrev pub roots : Roots
roots = record {
  list_head = some 0;
  containers = λ x. record { next = none; prev = none; node = some (at 0) };
  boxes = 1;
}

pub roots-Holds : Holds roots (0 ∷ []) (at 0 ∷ [])
roots-Holds = record {
  roots = record {
    last = some 0;
    seg = (refl, refl, (refl, refl));
    ordered = (omega arith, tt);
    rooted = ((at 0, refl), tt);
  };
  nodes = refl;
}

pub roots_live : (q : NodePtr) → Among (at 0 ∷ []) q → Live q
roots_live q (inl e) = inl e
roots_live q (inr e) = absurd e
