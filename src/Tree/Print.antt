-- ===== src/Tree/Print.antt =====
-- `print_tree` of src/util.rs, by the lines that it prints.
pub mod Lines
use Prim.Native.String.{String}
use Prim.Native.Char.{code}
use mod2gc.Base.{
  ℕ, zero, suc, ◌+◌, ◌-◌, ◌≡◌, Bool, true, false, none, some, List, [], ◌∷◌, ◌++◌, Outcome, ok,
  panic, undefined, out_of_fuel, ◌>>=◌, ◌==◌, if◌then◌else◌,
}
use mod2gc.Flags.{BitFlags}
use mod2gc.Node.{NodePtr, DagNodePtr, SymbolPtr, DagNode}
use mod2gc.Symbol.{Symbol}
use mod2gc.Dag.{Heap, read_node, iter_children, len}

-- A text by its code points.
abbrev pub Text : Type 0
Text = List ℕ

abbrev pub codes : String → Text
codes String.[] = []
codes (String.◌∷◌ c s) = code c ∷ codes s

-- `prefix.is_empty()`
abbrev pub is_head : Text → Bool
is_head [] = true
is_head (c ∷ cs) = false

-- What stands between the prefix and the node.
abbrev pub connector : (head tail : Bool) → Text
connector head tail = if head then [] else if tail then codes "╰──" else codes "├──"

-- The prefix for the children.
abbrev pub new_prefix : (prefix : Text) (is_tail : Bool) → Text
new_prefix prefix is_tail =
    if is_tail
    then prefix ++ codes "    "
    else if is_head prefix
    then codes " "
    else prefix ++ codes "│   "

-- `text` is the string that an interned name stands for.
module _ (ops : BitFlags) (base : ℕ → ℕ) (junk : ℕ → ℕ → DagNode) (symbols : ℕ → Symbol)
    (text : ℕ → Text) where
  -- `Display` for a node.
  abbrev pub fmt : SymbolPtr → Outcome Text
  fmt none = undefined
  fmt (some k) = ok (codes "node<" ++ text (symbols k).name ++ codes ">")

  -- The loop over the children, from the child number `i` of `len`; `visit` is the recursive call.
  unfoldable pub print_children :
      (visit : DagNodePtr → (is_tail : Bool) → Outcome (List Text)) (len i : ℕ)
      → List DagNodePtr
      → Outcome (List Text)
  print_children visit len i [] = ok []
  print_children visit len i (child ∷ children) = do
    lines ← visit child (i == len - 1)
    rest ← print_children visit len (i + 1) children
    ok (lines ++ rest)

  -- `fuel` bounds the depth of the recursion.
  unfoldable pub print_tree :
      (fuel : ℕ) (node : DagNodePtr) (prefix : Text) (is_tail : Bool) → Heap → Outcome (List Text)
  print_tree zero p prefix is_tail h = out_of_fuel
  print_tree (suc fuel) none prefix is_tail h = panic
  print_tree (suc fuel) (some p) prefix is_tail h = do
    d ← read_node h p
    shown ← fmt d.symbol
    children ← iter_children ops base junk symbols h d
    rest ←
        print_children (λ child tail. print_tree fuel child (new_prefix prefix is_tail) tail h)
          (len ops base junk symbols h d) 0 children
    ok ((prefix ++ connector (is_head prefix) is_tail ++ shown) ∷ rest)
