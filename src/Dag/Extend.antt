-- ===== src/Dag/Extend.antt =====
-- `insert_child` of src/dag_node/node.rs at a node that has fewer children than its symbol has arguments.
use mod2gc.Base.{
  ℕ, ◌*◌, ◌<◌, ◌≡◌, ◌∙◌, refl, ap, sym, subst, false, List, [], ◌∷◌, ◌++◌, ok, ◌>>=◌, Returns,
  arith, length,
}
use mod2gc.Flags.{BitFlags}
use mod2gc.Node.{NodePtr, DagNodePtr, DagNodeArgument, no_args, single, many, DagNode}
use mod2gc.Symbol.{Symbol}
use mod2gc.Storage.{Address}
use mod2gc.Storage.Invariant.{Held}
use mod2gc.Storage.History.{Sound}
use mod2gc.Arenas.{arena_size, node_at}
use mod2gc.Arenas.Allocate.Safety.{Started}
use mod2gc.Vector.{NodeVector, Memory, vector_size}
use mod2gc.Vector.Owns.{same_address-false}
use mod2gc.Vector.Change.{push_lem}
use mod2gc.Dag.{Heap, put_args, add_child, insert_child}
use mod2gc.Dag.Graph.{Shape, marked_in}
use mod2gc.Dag.Mark.{same_place, node_at_self, node_at-other}
use mod2gc.Dag.Construct.{Started-put}
use mod2gc.Dag.Frame.{Beside, Outside, Around, Suits, InUse}
use mod2gc.Dag.Insert.{insert_child-eq}

-- The new arguments; only the blocks of the old ones are written.
pub record Extended (m : Memory) (arity : ℕ) (args : DagNodeArgument) (cs : List DagNodePtr)
    (child : DagNodePtr) (r : DagNodeArgument × Memory) : Type 0 where
  pub shape : Shape r.1 arity r.0 (cs ++ child ∷ [])
  pub suits : Suits arity r.0
  pub around : Around (Outside m args) m r.1
  pub blocks : (a : Address) (n : ℕ) → Outside m args a n → Outside r.1 r.0 a n
  pub in_use : (m₀ : Memory) → InUse m₀ m args → InUse m₀ r.1 r.0

module _ (ops : BitFlags) (base : ℕ → ℕ) (junk : ℕ → ℕ → DagNode) (symbols : ℕ → Symbol) where
  add_child-Extended :
      (m : Memory) (arity : ℕ) (args : DagNodeArgument) (cs : List DagNodePtr) (child : DagNodePtr)
      → Sound m.storage
      → Shape m arity args cs
      → Suits arity args
      → length cs < arity
      → Returns (Extended m arity args cs child) (add_child ops base junk symbols args child m)
  unfolding add_child
  add_child-Extended m arity no_args cs child sound shape suits room = (
    (single child, m),
    refl,
    record {
      shape = ap (λ xs. xs ++ child ∷ []) shape;
      suits = suits;
      around = record {
        held = λ a n h. h;
        vectors = λ a h b. refl;
        slots = λ a h b. refl;
        sound = sound;
      };
      blocks = λ a n o. tt;
      in_use = λ m₀ used. tt;
    },
  )
  add_child-Extended m arity (single x) cs child sound shape suits room =
      absurd (let one = ap length shape in omega (arith, one, suits, room))
  add_child-Extended m arity (many v) cs child sound shape suits room =
      let (t, e, p) = push_lem m v cs arity shape child room in
      let place : p.owns.ptr ≡ shape.ptr = p.same_slots in
      (
        (many v, t),
        ap (λ m'. m' >>= λ t. ok (many v, t)) e,
        record {
          shape = p.owns;
          suits = suits;
          around = record {
            held = λ a n h. subst (λ s. Held s a n) (sym p.changed.storage) h;
            vectors = λ a h b.
                p.changed.vectors a
                  (same_address-false a v vector_size vector_size b.0 (omega arith) (omega arith));
            slots = λ a h b. p.changed.slots a (subst (λ d. Beside d v a 8) shape.header b).1;
            sound = subst Sound (sym p.changed.storage) sound;
          };
          blocks = λ a n o.
              let (first, last) = subst (λ d. Beside d v a n) shape.header o in
              subst (λ d. Beside d v a n) (sym p.owns.header) (first, ground (arith, place, last));
          in_use = λ m₀ (used, used_slots).
              let before =
                subst (λ (d : NodeVector). Held m₀.storage d.slice.ptr (8 * d.capacity))
                  shape.header used_slots in
              (
                used,
                subst (λ (d : NodeVector). Held m₀.storage d.slice.ptr (8 * d.capacity))
                    (sym p.owns.header)
                    (subst (λ a. Held m₀.storage a (8 * arity)) (sym place) before),
              );
        },
      )

  -- The node with one more child, with the allocator's cursor behind it.
  pub record Grown (h : Heap) (c i : ℕ) (p : NodePtr) (arity : ℕ) (cs : List DagNodePtr)
      (child : DagNodePtr) (h' : Heap) : Type 0 where
    pub args : DagNodeArgument
    pub written : node_at h'.nodes.arenas p ≡ record (node_at h.nodes.arenas p) { args = args }
    pub shape : Shape h'.memory arity (node_at h'.nodes.arenas p).args (cs ++ child ∷ [])
    pub suits : Suits arity (node_at h'.nodes.arenas p).args
    pub others :
        (q : NodePtr)
        → same_place q p ≡ false
        → node_at h'.nodes.arenas q ≡ node_at h.nodes.arenas q
    pub started : Started ops h'.nodes c i
    pub boxes : h'.nodes.boxes ≡ h.nodes.boxes
    pub around : Around (Outside h.memory (node_at h.nodes.arenas p).args) h.memory h'.memory
    pub blocks :
        (a : Address) (n : ℕ)
        → Outside h.memory (node_at h.nodes.arenas p).args a n
        → Outside h'.memory (node_at h'.nodes.arenas p).args a n
    pub in_use :
        (m₀ : Memory)
        → InUse m₀ h.memory (node_at h.nodes.arenas p).args
        → InUse m₀ h'.memory (node_at h'.nodes.arenas p).args

  pub insert_child-Grown :
      (h : Heap) (c i : ℕ) (p : NodePtr) (arity : ℕ) (cs : List DagNodePtr) (child : DagNodePtr)
      → Started ops h.nodes c i
      → p.arena < h.nodes.boxes
      → p.index < arena_size
      → marked_in ops h p ≡ false
      → Sound h.memory.storage
      → Shape h.memory arity (node_at h.nodes.arenas p).args cs
      → Suits arity (node_at h.nodes.arenas p).args
      → length cs < arity
      → Returns (Grown h c i p arity cs child) (insert_child ops base junk symbols p child h)
  insert_child-Grown h c i p arity cs child st in_arenas in_array dead sound shape suits room =
      let (r, e, d) =
        add_child-Extended h.memory arity (node_at h.nodes.arenas p).args cs child sound shape suits
          room in
      let t : Heap = put_args (record h { memory = r.1 }) p r.0 in
      let n : DagNode = record (node_at h.nodes.arenas p) { args = r.0 } in
      let at : node_at t.nodes.arenas p ≡ n = node_at_self h.nodes.arenas p n in
      (
        t,
        insert_child-eq ops base junk symbols h p in_arenas in_array arity cs child
            ∙ ap (λ m. m >>= λ (args, m). ok (put_args (record h { memory = m }) p args)) e,
        record {
          args = r.0;
          written = at;
          shape =
              subst (λ (x : DagNode). Shape r.1 arity x.args (cs ++ child ∷ [])) (sym at) d.shape;
          suits = subst (λ (x : DagNode). Suits arity x.args) (sym at) d.suits;
          others = λ q other. node_at-other h.nodes.arenas p q n other;
          started = Started-put ops h.nodes p n dead c i st;
          boxes = refl;
          around = d.around;
          blocks =
              λ a k o. subst (λ (x : DagNode). Outside r.1 x.args a k) (sym at) (d.blocks a k o);
          in_use =
              λ m₀ used. subst (λ (x : DagNode). InUse m₀ r.1 x.args) (sym at) (d.in_use m₀ used);
        },
      )
