-- ===== src/Dag/Insert.antt =====
-- `insert_child` of src/dag_node/node.rs, which makes room for one more child.
use mod2gc.Base.{
  ℕ, ◌+◌, ◌*◌, ◌<◌, ◌≡◌, ◌∙◌, refl, ap, sym, subst, true, false, List, [], ◌∷◌, ◌++◌, ok, ◌>>=◌,
  Returns, arith, length, length-append,
}
use mod2gc.Flags.{BitFlags}
use mod2gc.Node.{NodePtr, DagNodePtr, DagNodeArgument, no_args, single, many, DagNode}
use mod2gc.Symbol.{Symbol}
use mod2gc.Storage.{Address}
use mod2gc.Storage.Invariant.{Disjoint}
use mod2gc.Storage.History.{Sound}
use mod2gc.Arenas.{arena_size, node_at}
use mod2gc.Vector.{NodeVector, Memory, vector_size}
use mod2gc.Vector.Owns.{Owns, Owns-Grows}
use mod2gc.Vector.Fill.{from_slice-Made}
use mod2gc.Vector.Change.{Owns-Changed, push_lem}
use mod2gc.Dag.{Heap, exists, put_args, pair_of, add_child, insert_child, len}
use mod2gc.Dag.Graph.{Shape}
use mod2gc.Dag.Mark.{same_place, node_at_self, node_at-other}
use mod2gc.Dag.Construct.{len_lem}

-- A vector with another item below its capacity.
abbrev pub Room : DagNodeArgument → (cap : ℕ) → List DagNodePtr → Type 0
Room no_args cap cs = Unit
Room (single q) cap cs = Unit
Room (many v) cap cs = length cs < cap

-- The blocks of the vector at `w` are not those of the arguments.
abbrev pub Clear : (m : Memory) → DagNodeArgument → Address → (ptr : Address) (k : ℕ) → Type 0
Clear m no_args w ptr k = Unit
Clear m (single q) w ptr k = Unit
Clear m (many v) w ptr k =
    Disjoint w vector_size v vector_size
    × Disjoint ptr (8 * k) (m.vectors v).slice.ptr (8 * (m.vectors v).capacity)

-- The new arguments, and the memory around them.
pub record Added (m : Memory) (args : DagNodeArgument) (cs : List DagNodePtr) (child : DagNodePtr)
    (r : DagNodeArgument × Memory) : Type 0 where
  pub capacity : ℕ
  pub shape : Shape r.1 capacity r.0 (cs ++ child ∷ [])
  pub sound : Sound r.1.storage
  pub apart :
      (w : Address) (ys : List DagNodePtr) (k : ℕ)
      → (o : Owns m w ys k) → Clear m args w o.ptr k
      → Owns r.1 w ys k

module _ (ops : BitFlags) (base : ℕ → ℕ) (junk : ℕ → ℕ → DagNode) (symbols : ℕ → Symbol) where
  add_child-Added :
      (m : Memory) (args : DagNodeArgument) (cap : ℕ) (cs : List DagNodePtr) (child : DagNodePtr)
      → Sound m.storage
      → Shape m cap args cs
      → Room args cap cs
      → Returns (Added m args cs child) (add_child ops base junk symbols args child m)
  unfolding add_child
  add_child-Added m no_args cap cs child sound shape room = (
    (single child, m),
    refl,
    record {
      capacity = 1;
      shape = ap (λ xs. xs ++ child ∷ []) shape;
      sound = sound;
      apart = λ w ys k o c. o;
    },
  )
  add_child-Added m (single x) cap cs child sound shape room =
      let (r, e, d) =
        from_slice-Made base m sound (pair_of ops base junk symbols x child) (x ∷ child ∷ [])
          (omega arith) (λ t g j lt. refl) in
      (
        (many r.0, r.1),
        ap (λ t. t >>= λ (v, m'). ok (many v, m')) e,
        record {
          capacity = 2;
          shape = subst (λ xs. Owns r.1 r.0 (xs ++ child ∷ []) 2) (sym shape) d.owns;
          sound = d.grows.sound;
          apart = λ w ys k o c. Owns-Grows m r.1 w ys k d.grows o;
        },
      )
  add_child-Added m (many v) cap cs child sound shape room =
      let (t, e, p) = push_lem m v cs cap shape child room in
      (
        (many v, t),
        ap (λ m'. m' >>= λ t. ok (many v, t)) e,
        record {
          capacity = cap;
          shape = p.owns;
          sound = subst Sound (sym p.changed.storage) sound;
          apart = λ w ys k o (first, last).
              Owns-Changed m t v shape.ptr w cap k ys o p.changed first (
                subst (λ (h : NodeVector). Disjoint o.ptr (8 * k) h.slice.ptr (8 * h.capacity))
                  shape.header last);
        },
      )

  -- The node with one more child; the other nodes and vectors are as before.
  pub record Inserted (h : Heap) (p : NodePtr) (cs : List DagNodePtr) (child : DagNodePtr)
      (h' : Heap) : Type 0 where
    pub args : DagNodeArgument
    pub written : node_at h'.nodes.arenas p ≡ record (node_at h.nodes.arenas p) { args = args }
    pub capacity : ℕ
    pub shape : Shape h'.memory capacity (node_at h'.nodes.arenas p).args (cs ++ child ∷ [])
    pub count : len ops base junk symbols h' (node_at h'.nodes.arenas p) ≡ length cs + 1
    pub others :
        (q : NodePtr)
        → same_place q p ≡ false
        → node_at h'.nodes.arenas q ≡ node_at h.nodes.arenas q
    pub sound : Sound h'.memory.storage
    pub apart :
        (w : Address) (ys : List DagNodePtr) (k : ℕ)
        → (o : Owns h.memory w ys k) → Clear h.memory (node_at h.nodes.arenas p).args w o.ptr k
        → Owns h'.memory w ys k

  module _ (h : Heap) (p : NodePtr) (in_arenas : p.arena < h.nodes.boxes)
      (in_array : p.index < arena_size) (cap : ℕ) (cs : List DagNodePtr) (child : DagNodePtr) where
    there : exists h p ≡ true
    there = ground (arith, in_arenas, in_array)

    pub insert_child-eq : insert_child ops base junk symbols p child h ≡ (
        add_child ops base junk symbols (node_at h.nodes.arenas p).args child h.memory
        >>= λ (args, m). ok (put_args (record h { memory = m }) p args))
    unfolding insert_child
    insert_child-eq = rw there refl

    -- For a node of an arena that has its children, in a vector only if that has room for one
    -- more, and valid lists of buckets, `insert_child` returns; the node has the new child behind
    -- the others, and is otherwise unchanged, as are all other nodes and the vectors that share no
    -- block with its own.
    pub insert_child-Inserted :
        Sound h.memory.storage
        → Shape h.memory cap (node_at h.nodes.arenas p).args cs
        → Room (node_at h.nodes.arenas p).args cap cs
        → Returns (Inserted h p cs child) (insert_child ops base junk symbols p child h)
    insert_child-Inserted sound shape room =
        let (r, e, d) =
          add_child-Added h.memory (node_at h.nodes.arenas p).args cap cs child sound shape room in
        let t : Heap = put_args (record h { memory = r.1 }) p r.0 in
        let n : DagNode = record (node_at h.nodes.arenas p) { args = r.0 } in
        let at : node_at t.nodes.arenas p ≡ n = node_at_self h.nodes.arenas p n in
        (
          t,
          insert_child-eq
              ∙ ap (λ m. m >>= λ (args, m). ok (put_args (record h { memory = m }) p args)) e,
          record {
            args = r.0;
            written = at;
            capacity = d.capacity;
            shape =
                subst (λ (x : DagNode). Shape r.1 d.capacity x.args (cs ++ child ∷ [])) (sym at)
                  d.shape;
            count =
                ap (len ops base junk symbols t) at
                ∙ len_lem ops base junk symbols t n d.capacity (cs ++ child ∷ []) d.shape
                ∙ length-append cs (child ∷ []);
            others = λ q other. node_at-other h.nodes.arenas p q n other;
            sound = d.sound;
            apart = d.apart;
          },
        )
