-- ===== src/Dag/Frame.antt =====
-- What writes to one vector of a node of src/dag_node/node.rs leave alone in the memory of the others.
use mod2gc.Base.{ℕ, ◌*◌, ◌≤◌, ◌<◌, ◌≡◌, ◌∙◌, sym, subst, List, arith}
use mod2gc.Node.{DagNodePtr, DagNodeArgument, no_args, single, many}
use mod2gc.Storage.{Address}
use mod2gc.Storage.Invariant.{Held, Disjoint}
use mod2gc.Storage.History.{Sound}
use mod2gc.Vector.{NodeVector, Memory, vector_size, slot}
use mod2gc.Vector.Owns.{Grows, slot-Held}
use mod2gc.Dag.Graph.{Shape}

-- A block that shares no byte with the vector at `v`, by its header.
abbrev pub Beside : NodeVector → (v a : Address) (n : ℕ) → Type 0
Beside d v a n = Disjoint a n v vector_size × Disjoint a n d.slice.ptr (8 * d.capacity)

-- A block that shares no byte with the vector of a node.
abbrev pub Outside : Memory → DagNodeArgument → (a : Address) (n : ℕ) → Type 0
Outside m no_args a n = Unit
Outside m (single q) a n = Unit
Outside m (many v) a n = Beside (m.vectors v) v a n

-- The vector of a node shares no byte with the blocks that `m₀` had handed out.
abbrev pub Away : Memory → Memory → DagNodeArgument → Type 0
Away m₀ m args = (a : Address) (n : ℕ) → Held m₀.storage a n → Outside m args a n

-- The header of a node's vector is the same.
abbrev pub SameHeader : Memory → Memory → DagNodeArgument → Type 0
SameHeader m m' no_args = Unit
SameHeader m m' (single q) = Unit
SameHeader m m' (many v) = m'.vectors v ≡ m.vectors v

pub Outside-SameHeader :
    (m m' : Memory) (args : DagNodeArgument) (a : Address) (n : ℕ)
    → SameHeader m m' args
    → Outside m args a n
    → Outside m' args a n
Outside-SameHeader m m' no_args a n e o = tt
Outside-SameHeader m m' (single q) a n e o = tt
Outside-SameHeader m m' (many v) a n e o = subst (λ d. Beside d v a n) (sym e) o

-- Of the blocks handed out, those that satisfy `B` are left alone, and all stay handed out.
pub record Around (B : Address → ℕ → Type 0) (m m' : Memory) : Type 0 where
  pub held : (a : Address) (n : ℕ) → Held m.storage a n → Held m'.storage a n
  pub vectors :
      (a : Address) → Held m.storage a vector_size → B a vector_size → m'.vectors a ≡ m.vectors a
  pub slots : (a : Address) → Held m.storage a 8 → B a 8 → m'.slots a ≡ m.slots a
  pub sound : Sound m'.storage

pub Around-of_Grows : (B : Address → ℕ → Type 0) (m m' : Memory) → Grows m m' → Around B m m'
Around-of_Grows B m m' g = record {
  held = g.held;
  vectors = λ a h b. g.vectors a h;
  slots = λ a h b. g.slots a h;
  sound = g.sound;
}

pub Around-trans :
    (B B' : Address → ℕ → Type 0) (m m' m'' : Memory)
    → Around B m m'
    → ((a : Address) (n : ℕ) → Held m.storage a n → B a n → B' a n)
    → Around B' m' m''
    → Around B m m''
Around-trans B B' m m' m'' r f r' = record {
  held = λ a n h. r'.held a n (r.held a n h);
  vectors = λ a h b. r'.vectors a (r.held a vector_size h) (f a vector_size h b) ∙ r.vectors a h b;
  slots = λ a h b. r'.slots a (r.held a 8 h) (f a 8 h b) ∙ r.slots a h b;
  sound = r'.sound;
}

-- The vector of a node is one of the blocks left alone.
abbrev pub Safe : (B : Address → ℕ → Type 0) → Memory → DagNodeArgument → Type 0
Safe B m no_args = Unit
Safe B m (single q) = Unit
Safe B m (many v) =
    B v vector_size × ((i : ℕ) → i < (m.vectors v).capacity → B (slot (m.vectors v).slice.ptr i) 8)

pub Shape-Around :
    (B : Address → ℕ → Type 0) (m m' : Memory) (arity : ℕ) (args : DagNodeArgument)
    (cs : List DagNodePtr)
    → Around B m m'
    → Safe B m args
    → Shape m arity args cs
    → Shape m' arity args cs × SameHeader m m' args
Shape-Around B m m' arity no_args cs r b s = (s, tt)
Shape-Around B m m' arity (single q) cs r b s = (s, tt)
Shape-Around B m m' arity (many v) cs r b o =
    let same : m'.vectors v ≡ m.vectors v = r.vectors v o.held b.0 in
    (
      record {
        ptr = o.ptr;
        header = same ∙ o.header;
        fits = o.fits;
        small = o.small;
        held = r.held v vector_size o.held;
        held_slots = r.held o.ptr (8 * arity) o.held_slots;
        items = λ i h.
            let inside : i < arity = omega (arith, o.fits) in
            r.slots (slot o.ptr i) (slot-Held m.storage o.ptr arity i o.held_slots inside) (
              subst (λ (d : NodeVector). (i : ℕ) → i < d.capacity → B (slot d.slice.ptr i) 8)
                o.header b.1 i inside)
            ∙ o.items i h;
      },
      same,
    )

pub SameHeader-Grows :
    (m m' : Memory) (arity : ℕ) (args : DagNodeArgument) (cs : List DagNodePtr)
    → Grows m m'
    → Shape m arity args cs
    → SameHeader m m' args
SameHeader-Grows m m' arity no_args cs g s = tt
SameHeader-Grows m m' arity (single q) cs g s = tt
SameHeader-Grows m m' arity (many v) cs g s = g.vectors v s.held

-- The blocks of a node's vector have been handed out.
abbrev pub InUse : Memory → Memory → DagNodeArgument → Type 0
InUse m₀ m no_args = Unit
InUse m₀ m (single q) = Unit
InUse m₀ m (many v) =
    Held m₀.storage v vector_size
    × Held m₀.storage (m.vectors v).slice.ptr (8 * (m.vectors v).capacity)

pub InUse-of_Shape :
    (m : Memory) (arity : ℕ) (args : DagNodeArgument) (cs : List DagNodePtr)
    → Shape m arity args cs
    → InUse m m args
InUse-of_Shape m arity no_args cs s = tt
InUse-of_Shape m arity (single q) cs s = tt
InUse-of_Shape m arity (many v) cs o = (
  o.held,
  subst (λ (d : NodeVector). Held m.storage d.slice.ptr (8 * d.capacity)) (sym o.header)
      o.held_slots,
)

-- Blocks that were handed out stay so, and the header of the vector is the same.
pub InUse-SameHeader :
    (m₀ m m' : Memory) (args : DagNodeArgument)
    → SameHeader m m' args
    → InUse m₀ m args
    → InUse m₀ m' args
InUse-SameHeader m₀ m m' no_args e used = tt
InUse-SameHeader m₀ m m' (single q) e used = tt
InUse-SameHeader m₀ m m' (many v) e (used, used_slots) = (
  used,
  subst (λ (d : NodeVector). Held m₀.storage d.slice.ptr (8 * d.capacity)) (sym e) used_slots,
)

pub InUse-Held :
    (m₀ m₁ m : Memory) (args : DagNodeArgument)
    → ((a : Address) (n : ℕ) → Held m₀.storage a n → Held m₁.storage a n)
    → InUse m₀ m args
    → InUse m₁ m args
InUse-Held m₀ m₁ m no_args f used = tt
InUse-Held m₀ m₁ m (single q) f used = tt
InUse-Held m₀ m₁ m (many v) f (used, used_slots) =
    (f v vector_size used, f (m.vectors v).slice.ptr (8 * (m.vectors v).capacity) used_slots)

Beside-swap :
    (d e : NodeVector) (v w : Address)
    → Beside d v w vector_size
    → Beside d v e.slice.ptr (8 * e.capacity)
    → Beside e w v vector_size × ((i : ℕ) → i < d.capacity → Beside e w (slot d.slice.ptr i) 8)
Beside-swap d e v w first last = (
  (ground (arith, first), ground (arith, last)),
  λ i h. (ground (arith, first), ground (arith, last)),
)

-- A vector made later is not touched where an older one is written.
pub Safe-of_Away :
    (m₀ m m' : Memory) (old new : DagNodeArgument)
    → InUse m₀ m old
    → Away m₀ m' new
    → Safe (Outside m old) m' new
Safe-of_Away m₀ m m' old no_args used away = tt
Safe-of_Away m₀ m m' old (single q) used away = tt
Safe-of_Away m₀ m m' no_args (many v) used away = (tt, λ i h. tt)
Safe-of_Away m₀ m m' (single q) (many v) used away = (tt, λ i h. tt)
Safe-of_Away m₀ m m' (many w) (many v) (used, used_slots) away =
    Beside-swap (m'.vectors v) (m.vectors w) v w (away w vector_size used)
      (away (m.vectors w).slice.ptr (8 * (m.vectors w).capacity) used_slots)

-- And an older one is not touched where a later one is written.
pub Safe-of_InUse :
    (m₀ m m' : Memory) (old new : DagNodeArgument)
    → InUse m₀ m old
    → Away m₀ m' new
    → Safe (Outside m' new) m old
Safe-of_InUse m₀ m m' no_args new used away = tt
Safe-of_InUse m₀ m m' (single q) new used away = tt
Safe-of_InUse m₀ m m' (many w) new (used, used_slots) away = (
  away w vector_size used,
  λ i h.
      away (slot (m.vectors w).slice.ptr i) 8
        (slot-Held m₀.storage (m.vectors w).slice.ptr (m.vectors w).capacity i used_slots h),
)

-- The kind of arguments that a node with a symbol of this arity has.
abbrev pub Suits : (arity : ℕ) → DagNodeArgument → Type 0
Suits arity no_args = arity ≤ 1
Suits arity (single q) = arity ≤ 1
Suits arity (many v) = 1 < arity
