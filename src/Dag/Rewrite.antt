-- ===== src/Dag/Rewrite.antt =====
-- The arguments of a node that `mark` of src/dag_node/node.rs visits: kept, or a copy of its vector.
use mod2gc.Base.{ℕ, ◌*◌, ◌≡◌, ◌∙◌, refl, ap, sym, subst, true}
use mod2gc.Flags.{BitFlags}
use mod2gc.Node.{NodePtr, DagNodeArgument, many, DagNode}
use mod2gc.Symbol.{Symbol}
use mod2gc.Storage.{Address}
use mod2gc.Arenas.{node_at}
use mod2gc.Storage.Invariant.{Disjoint}
use mod2gc.Vector.{NodeVector, Memory, vector_size}
use mod2gc.Vector.Make.{Made}
use mod2gc.Dag.{Heap, put_args}
use mod2gc.Dag.Graph.{Graph, Shape, Shape-Grows, IsNew, marked_in, Progress}
use mod2gc.Dag.Mark.{node_at_self, node_at-other, links-set_node, Marked}
use mod2gc.Dag.Visit.{Rewritten}

module _ (ops : BitFlags) (base : ℕ → ℕ) (junk : ℕ → ℕ → DagNode) (symbols : ℕ → Symbol) (g : Graph)
    (R : NodePtr → Type 0) (N : NodePtr → Type 0) where
  -- The arguments of a marked node stay until they are written.
  args_stay :
      (h t : Heap) (p : NodePtr) (args : DagNodeArgument)
      → marked_in ops h p ≡ true
      → (node_at h.nodes.arenas p).args ≡ args
      → Progress ops g R h t
      → (node_at t.nodes.arenas p).args ≡ args
  args_stay h t p args m e w = ap (λ (d : DagNode). d.args) (w.same p (w.keeps p m ∙ sym m)) ∙ e

  -- Nothing is written.
  pub Rewritten-refl :
      (h t : Heap) (p : NodePtr) (args : DagNodeArgument) (arity : ℕ)
      → marked_in ops h p ≡ true
      → (node_at h.nodes.arenas p).args ≡ args
      → Shape h.memory arity args (g p)
      → IsNew t.memory t.memory args
      → Marked ops base junk symbols g R N h (g p) 0 t
      → Rewritten symbols g t p arity t
  Rewritten-refl h t p args arity m e shape new a = record {
    grows = record {
      held = λ a n k. k;
      vectors = λ a k. refl;
      slots = λ a k. refl;
      sound = a.graph.sound;
    };
    fields = refl;
    links = λ a. refl;
    others = λ q e. refl;
    symbol = refl;
    kind = refl;
    flags = refl;
    shape =
        rw (args_stay h t p args m e a.progress)
          (Shape-Grows h.memory t.memory arity args (g p) a.progress.grows shape);
    new = rw (args_stay h t p args m e a.progress) new;
  }

  -- The copy of the vector is written.
  pub Rewritten-copy :
      (t : Heap) (p : NodePtr) (cap : ℕ) (c : Address × Memory)
      → Made t.memory (g p) cap c
      → Rewritten symbols g t p cap (put_args (record t { memory = c.1 }) p (many c.0))
  Rewritten-copy t p cap c made =
      let d : DagNode = record (node_at t.nodes.arenas p) { args = many c.0 } in
      let self = node_at_self t.nodes.arenas p d in
      record {
        grows = made.grows;
        fields = refl;
        links = λ a. links-set_node t.nodes.arenas p d a;
        others = λ q e. node_at-other t.nodes.arenas p q d e;
        symbol = ap (λ (d : DagNode). d.symbol) self;
        kind = ap (λ (d : DagNode). d.kind) self;
        flags = ap (λ (d : DagNode). d.flags) self;
        shape = rw self made.owns;
        new = rw self (
          made.owns.held,
          λ a n h.
              subst
                (λ (d : NodeVector).
                  Disjoint a n c.0 vector_size × Disjoint a n d.slice.ptr (8 * d.capacity))
                (sym made.owns.header) (made.clear a n h),
        );
      }
