-- ===== src/Collect/Keeps.antt =====
-- The whole of `collect_garbage` of src/dag_node/allocator/node_allocator.rs: from the sweep of the
-- arenas to the reset of the cursor.
use mod2gc.Base.{ℕ, ◌≤◌, ◌<◌, ◌≡◌, ◌∙◌, refl, ap, sym, subst, true, List, [], ◌∷◌, ok}
use mod2gc.Flags.{BitFlags}
use mod2gc.Node.{NodePtr, DagNodePtr, DagNodeArgument, no_args, single, many, DagNode}
use mod2gc.Symbol.{Symbol}
use mod2gc.Storage.{Address, prepare_to_mark}
use mod2gc.Storage.Invariant.{prepare_to_mark-IsValid}
use mod2gc.Storage.History.{Sound}
use mod2gc.Arenas.{arena_size, NodeAllocator, node_at}
use mod2gc.Arenas.Invariant.{IsLinked}
use mod2gc.Arenas.Allocate.Safety.{Started}
use mod2gc.Arenas.Sweep.Clears.{Tidy}
use mod2gc.Vector.{Memory, iter}
use mod2gc.Vector.Owns.{Grows}
use mod2gc.Vector.Change.{iter_lem}
use mod2gc.Roots.{Roots}
use mod2gc.Dag.{Heap}
use mod2gc.Dag.Graph.{Graph, Reach, Shape, Shape-Grows, IsGraph, marked_in}
use mod2gc.Collect.{Collector, before_marks}

-- The children of a node can be read from the memory.
abbrev pub Reads : Memory → DagNodeArgument → List DagNodePtr → Type 0
Reads m no_args cs = cs ≡ []
Reads m (single q) cs = cs ≡ q ∷ []
Reads m (many v) cs = iter m v ≡ ok cs

iter-same :
    (m m' : Memory) (v : Address)
    → m'.vectors ≡ m.vectors
    → m'.slots ≡ m.slots
    → iter m' v ≡ iter m v
unfolding iter
iter-same m m' v ev es = rw (ev, es) refl

pub Reads-of_Shape :
    (m m' : Memory) (arity : ℕ) (args : DagNodeArgument) (cs : List DagNodePtr)
    → m'.vectors ≡ m.vectors
    → m'.slots ≡ m.slots
    → Shape m arity args cs
    → Reads m' args cs
Reads-of_Shape m m' arity no_args cs ev es s = s
Reads-of_Shape m m' arity (single q) cs ev es s = s
Reads-of_Shape m m' arity (many v) cs ev es s = iter-same m m' v ev es ∙ iter_lem m v cs arity s

-- The blocks in use are the same, for a call that only moves the lists.
prepare_to_mark-Grows :
    (m : Memory) → Sound m.storage → Grows m (record m { storage = prepare_to_mark m.storage })
unfolding prepare_to_mark
prepare_to_mark-Grows m sound = record {
  held = λ a n k. record { exists = k.exists; passed = k.passed };
  vectors = λ a k. refl;
  slots = λ a k. refl;
  sound = record {
    front = sound.unused;
    unused = [];
    valid = prepare_to_mark-IsValid m.storage sound.front sound.unused sound.valid;
  };
}

module _ (ops : BitFlags) (base : ℕ → ℕ) (junk : ℕ → ℕ → DagNode) (symbols : ℕ → Symbol)
    (ideal_arena_count : ℕ → ℕ) (roots : Roots) where
  module _ (g : Graph) (N : NodePtr → Type 0) (s : Heap) (c i : ℕ) (t : NodeAllocator)
      (tidy : Tidy ops s.nodes c i t) where
    abbrev pub ready : Heap
    ready = before_marks ops base junk symbols ideal_arena_count roots s t

    pub tidy-boxes : t.boxes ≡ s.nodes.boxes
    tidy-boxes = ap (λ (s : NodeAllocator). s.boxes) tidy.fields

    pub IsLinked-ready : IsLinked s.nodes → IsLinked ready.nodes
    IsLinked-ready l =
        let first = ap (λ (s : NodeAllocator). s.first_arena) tidy.fields in
        let last = ap (λ (s : NodeAllocator). s.last_arena) tidy.fields in
        let count = ap (λ (s : NodeAllocator). s.arena_count) tidy.fields in
        record {
          first = rw (first, tidy-boxes) l.first;
          last = rw (last, tidy-boxes) l.last;
          links = λ a h. tidy.links a ∙ l.links a (rw tidy-boxes at h);
          ends = λ a h. tidy.links a ∙ l.ends a (rw tidy-boxes at h);
          count = rw (count, tidy-boxes) l.count;
        }

    -- The graph is still there after the sweep of the arenas.
    pub ready-IsGraph : IsGraph symbols g N s → IsGraph symbols g N ready
    ready-IsGraph graph =
        let gr = prepare_to_mark-Grows s.memory graph.sound in
        record {
          sound = gr.sound;
          shows = λ p n.
              let w = graph.shows p n in
              let (symbols_kept, args_kept, _) = tidy.content p.arena p.index w.in_array in
              record {
                in_arenas = rw tidy-boxes w.in_arenas;
                in_array = w.in_array;
                symbol = w.symbol;
                named = symbols_kept ∙ w.named;
                shape =
                    subst (λ args. Shape ready.memory (symbols w.symbol).arity args (g p))
                      (sym args_kept)
                      (Shape-Grows s.memory ready.memory (symbols w.symbol).arity
                        (node_at s.nodes.arenas p).args (g p) gr w.shape);
              };
        }

  -- What a collection leaves: the nodes with a mark are those that the roots reach, and each node of
  -- the graph keeps its symbol, its kind, and its children.
  pub record Collected (g : Graph) (N : NodePtr → Type 0) (R : NodePtr → Type 0) (s t : Collector)
      : Type 0 where
    pub started : Started ops t.heap.nodes 0 0
    pub boxes : s.heap.nodes.boxes ≤ t.heap.nodes.boxes
    pub all : (q : NodePtr) → Reach g R q → marked_in ops t.heap q ≡ true
    pub only :
        (q : NodePtr)
        → q.arena < t.heap.nodes.boxes
        → q.index < arena_size
        → marked_in ops t.heap q ≡ true
        → Reach g R q
    pub symbol :
        (q : NodePtr)
        → N q
        → (node_at t.heap.nodes.arenas q).symbol ≡ (node_at s.heap.nodes.arenas q).symbol
    pub kind :
        (q : NodePtr)
        → N q
        → (node_at t.heap.nodes.arenas q).kind ≡ (node_at s.heap.nodes.arenas q).kind
    pub children :
        (q : NodePtr) → N q → Reads t.heap.memory (node_at t.heap.nodes.arenas q).args (g q)
