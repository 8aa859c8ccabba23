-- ===== src/Tree/Print/Lines.antt =====
-- The lines that `print_tree` of src/util.rs prints of a tree.
use mod2gc.Base.{
  ℕ, zero, suc, ◌+◌, ◌*◌, ◌-◌, ◌<◌, ◌≡◌, ◌∙◌, refl, ap, Bool, true, false, none, some, List, [],
  ◌∷◌, ◌++◌, Outcome, ok, Returns, arith, length, length-append, ◌==◌, if◌then◌else◌,
}
use mathlib.Core.List.{append-nil}
use mod2gc.Flags.{BitFlags}
use mod2gc.Node.{NodePtr, DagNodePtr, DagNode}
use mod2gc.Symbol.{Symbol}
use mod2gc.Arenas.{arena_size, node_at}
use mod2gc.Vector.{Memory}
use mod2gc.Dag.{Heap, exists}
use mod2gc.Dag.Construct.{len_lem}
use mod2gc.Dag.Graph.{Graph, Shape}
use mod2gc.Dag.Frame.{Suits}
use mod2gc.Tree.Forest.{Forest, Tree, next}
use mod2gc.Tree.Build.{Ready, Populated}
use mod2gc.Tree.Nodes.{children_of, children_of-eq, iter_children-eq}
use mod2gc.Tree.Print.{Text, codes, connector, fmt, is_head, new_prefix, print_children, print_tree}

-- A node at a depth below the root, and whether it is the last of its siblings.
pub record Entry : Type 0 where
  pub node : NodePtr
  pub depth : ℕ
  pub last : Bool

-- The entries of the children, the last of which is marked.
abbrev pub siblings : (NodePtr → Bool → List Entry) → List DagNodePtr → List Entry
siblings visit [] = []
siblings visit (none ∷ cs) = siblings visit cs
siblings visit (some q ∷ []) = visit q true
siblings visit (some q ∷ c ∷ cs) = visit q false ++ siblings visit (c ∷ cs)

-- The nodes of so many levels, each before its children.
abbrev pub preorder : (g : Graph) (levels : ℕ) (depth : ℕ) → NodePtr → Bool → List Entry
preorder g zero depth q last = []
preorder g (suc levels) depth q last =
    record { node = q; depth = depth; last = last } ∷ siblings (preorder g levels (depth + 1)) (g q)

module _ (ops : BitFlags) (base : ℕ → ℕ) (junk : ℕ → ℕ → DagNode) (symbols : ℕ → Symbol)
    (text : ℕ → Text) (h : Heap) where
  -- The line of a node: behind three characters that say whether it is the last, it shows the node, and
  -- it is indented by four characters for each level.
  abbrev pub IsLine : Text → Entry → Type 0
  IsLine l e =
      (prefix : Text) × (shown : Text) × (length prefix + 3 ≡ 4 * e.depth)
      × (fmt ops base junk symbols text (node_at h.nodes.arenas e.node).symbol ≡ ok shown)
      × (l ≡ prefix ++ (if e.last then codes "╰──" else codes "├──") ++ shown)

  abbrev pub AreLines : List Text → List Entry → Type 0
  AreLines [] [] = Unit
  AreLines [] (e ∷ es) = ⊥
  AreLines (l ∷ ls) [] = ⊥
  AreLines (l ∷ ls) (e ∷ es) = IsLine l e × AreLines ls es

  AreLines-append :
      (ls ms : List Text) (es fs : List Entry)
      → AreLines ls es
      → AreLines ms fs
      → AreLines (ls ++ ms) (es ++ fs)
  AreLines-append [] ms [] fs a b = b
  AreLines-append [] ms (e ∷ es) fs a b = absurd a
  AreLines-append (l ∷ ls) ms [] fs a b = absurd a
  AreLines-append (l ∷ ls) ms (e ∷ es) fs (a, rest) b = (a, AreLines-append ls ms es fs rest b)

  new_prefix-length :
      (prefix : Text) (is_tail : Bool) (d : ℕ)
      → length prefix + 3 ≡ 4 * d
      → length (new_prefix prefix is_tail) + 3 ≡ 4 * (d + 1)
  new_prefix-length [] is_tail d e = absurd (omega (arith, e))
  new_prefix-length (c ∷ cs) true d e =
      let l = length-append (c ∷ cs) (codes "    ") in omega (arith, l, e)
  new_prefix-length (c ∷ cs) false d e =
      let l = length-append (c ∷ cs) (codes "│   ") in omega (arith, l, e)

  connector_below :
      (prefix : Text) (tail : Bool) (d : ℕ)
      → length prefix + 3 ≡ 4 * d
      → connector (is_head prefix) tail ≡ (if tail then codes "╰──" else codes "├──")
  connector_below [] tail d e = absurd (omega (arith, e))
  connector_below (c ∷ cs) tail d e = refl

  -- The loop over the children prints the entries of each.
  print_children-AreLines :
      (P : (q lo hi : NodePtr) → Type 0) (visit : DagNodePtr → Bool → Outcome (List Text))
      (entries : NodePtr → Bool → List Entry)
      → ((q lo hi : NodePtr) (tail : Bool)
          → P q lo hi
          → Returns (λ ls. AreLines ls (entries q tail)) (visit (some q) tail))
      → (cs : List DagNodePtr) (lo hi : NodePtr) (n i : ℕ) → i + length cs ≡ n
      → Forest P cs lo hi
      → Returns
          (λ ls. AreLines ls (siblings entries cs))
          (print_children ops base junk symbols text visit n i cs)
  unfolding print_children
  print_children-AreLines P visit entries f [] lo hi n i e ts = ([], refl, tt)
  print_children-AreLines P visit entries f (x ∷ []) lo hi n i e
        (q, mid, is_q, first, last, t, ts) =
      let tail : (i == n - 1) ≡ true = ground (arith, e) in
      let (ls, ran, a) = f q lo mid true t in
      (ls, rw (is_q, tail, ran) (ap ok (append-nil ls)), rw is_q a)
  print_children-AreLines P visit entries f (x ∷ y ∷ cs) lo hi n i e
        (q, mid, is_q, first, last, t, ts) =
      let tail : (i == n - 1) ≡ false = ground (arith, e) in
      let (ls, ran, a) = f q lo mid false t in
      let (ms, ran', b) =
        print_children-AreLines P visit entries f (y ∷ cs) mid hi n (i + 1) (omega (arith, e)) ts in
      (
        ls ++ ms,
        rw (is_q, tail, ran, ran') refl,
        rw is_q (AreLines-append ls ms (entries q false) (siblings entries (y ∷ cs)) a b),
      )

  abbrev g : Graph
  g = children_of ops base junk symbols h

  -- What is printed of a node with the children `cs`.
  abbrev IsPrinted : (prefix : Text) (tail : Bool) (q : NodePtr) → List Entry → List Text → Type 0
  IsPrinted prefix tail q entries ls =
      (shown : Text) × (rest : List Text) × (fmt ops base junk symbols text
          (node_at h.nodes.arenas q).symbol
        ≡ ok shown)
      × (ls ≡ (prefix ++ connector (is_head prefix) tail ++ shown) ∷ rest)
      × AreLines rest entries

  print_tree-eq :
      (n : ℕ) (q : NodePtr) (k : ℕ) (cs : List DagNodePtr) (prefix : Text) (tail : Bool)
      (entries : List Entry)
      → q.arena < h.nodes.boxes
      → q.index < arena_size
      → (node_at h.nodes.arenas q).symbol ≡ some k
      → length cs ≡ (symbols k).arity
      → Shape h.memory (symbols k).arity (node_at h.nodes.arenas q).args cs
      → Suits (symbols k).arity (node_at h.nodes.arenas q).args
      → Returns
          (λ ls. AreLines ls entries)
          (print_children ops base junk symbols text
            (λ child tail'.
              print_tree ops base junk symbols text n child (new_prefix prefix tail) tail' h)
            (length cs)
            0
            cs)
      → Returns
          (IsPrinted prefix tail q entries)
          (print_tree ops base junk symbols text (suc n) (some q) prefix tail h)
  unfolding print_tree
  print_tree-eq n q k cs prefix tail entries in_arenas in_array named number shape suits
        (rest, ran, a) =
      let there : exists h q ≡ true = ground arith in
      let children = iter_children-eq ops base junk symbols h q k cs named number shape suits in
      let size =
        len_lem ops base junk symbols h (node_at h.nodes.arenas q) (symbols k).arity cs shape in
      let shown = codes "node<" ++ text (symbols k).name ++ codes ">" in
      let fmt_eq = ap (fmt ops base junk symbols text) named in
      (
        (prefix ++ connector (is_head prefix) tail ++ shown) ∷ rest,
        rw (there, fmt_eq, children, size, ran) refl,
        (shown, rest, fmt_eq, refl, a),
      )

  module _ (width : ℕ) (m : Memory) where
    -- A tree of no more levels than the fuel.
    print_tree-Tree :
        (n : ℕ) (q lo hi : NodePtr) (prefix : Text) (tail : Bool) (d : ℕ)
        → length prefix + 3 ≡ 4 * d
        → Tree symbols width h m n q lo hi
        → Returns
            (λ ls. AreLines ls (preorder g n d q tail))
            (print_tree ops base junk symbols text n (some q) prefix tail h)
    print_tree-Tree zero q lo hi prefix tail d wide t = absurd t
    print_tree-Tree (suc n) q lo hi prefix tail d wide (cs, t, ts) =
        let listed = children_of-eq ops base junk symbols h q cs (
          iter_children-eq ops base junk symbols h q t.symbol cs t.named t.number t.shape
            t.suits) in
        let (ls, ran, (shown, rest, fmt_eq, is_ls, a)) =
          print_tree-eq n q t.symbol cs prefix tail (siblings (preorder g n (d + 1)) cs) t.in_arenas
            t.in_array t.named t.number t.shape t.suits
            (print_children-AreLines (Tree symbols width h m n)
              (λ child tail'.
                print_tree ops base junk symbols text n child (new_prefix prefix tail) tail' h)
              (preorder g n (d + 1))
              (λ r a b tail' u.
                print_tree-Tree n r a b (new_prefix prefix tail) tail' (d + 1)
                  (new_prefix-length prefix tail d wide) u)
              cs (next q) hi (length cs) 0 (omega arith) ts) in
        (
          ls,
          ran,
          rw (is_ls, listed)
              (
                (
                  prefix,
                  shown,
                  wide,
                  fmt_eq,
                  ap (λ c. prefix ++ c ++ shown) (connector_below prefix tail d wide),
                ),
                a,
              ),
        )

  -- The root stands on the first line as it is; the lines behind it are those of its children, from depth 1.
  abbrev pub IsDrawing : (levels : ℕ) (p : NodePtr) → List Text → Type 0
  IsDrawing levels p ls =
      (shown : Text) × (rest : List Text) × (fmt ops base junk symbols text
          (node_at h.nodes.arenas p).symbol
        ≡ ok shown)
      × (ls ≡ shown ∷ rest)
      × AreLines rest (siblings (preorder g levels 1) (g p))

  -- For the heap that `build_random_tree` leaves, by the theorem on it, `print_tree` with an empty
  -- prefix and `is_tail` false returns if its recursion may go one level deeper than the maximum
  -- height; it prints a line for each node, before the lines of its children, which come in their
  -- order. The first line shows the root alone, and that of a node at depth `d` has 4 * d - 3
  -- characters, then the three that say whether the node is the last of its siblings, then the
  -- node.
  pub print_tree-IsDrawing :
      (width : ℕ) (h₀ : Heap) (p at : NodePtr) (k levels : ℕ)
      → Ready ops symbols h₀ p at k
      → Populated ops symbols width h₀ p k levels at h
      → Returns
          (IsDrawing levels p)
          (print_tree ops base junk symbols text (suc levels) (some p) [] false h)
  print_tree-IsDrawing width h₀ p at k levels ready (cs, number, made) =
      let named = ap (λ (d : DagNode). d.symbol) made.written ∙ ready.named in
      let in_arenas : p.arena < h.nodes.boxes =
        (let lt = ready.exists in let le = made.grown in omega (arith, lt, le)) in
      let listed =
        children_of-eq ops base junk symbols h p cs
          (iter_children-eq ops base junk symbols h p k cs named number made.shape made.suits) in
      rw listed (
        print_tree-eq levels p k cs [] false (siblings (preorder g levels 1) cs) in_arenas
          ready.before.0 named number made.shape made.suits
          (print_children-AreLines (Tree symbols width h h₀.memory levels)
            (λ child tail'. print_tree ops base junk symbols text levels child (codes " ") tail' h)
            (preorder g levels 1)
            (λ r a b tail' u.
              print_tree-Tree width h₀.memory levels r a b (codes " ") tail' 1 refl u)
            cs at made.hi (length cs) 0 (omega arith) made.forest))
