-- ===== src/Node.antt =====
-- src/dag_node/mod.rs and src/dag_node/node.rs: the nodes of the graph, and what the collector asks
-- of one.
use mod2gc.Base.{ℕ, Bool, true, false, not, ◌&&◌, Option, none, some, ◌==◌, ◌+◌}
use mod2gc.Flags.{DagNodeFlags, BitFlags, marked}
use mod2gc.Storage.{Address}

-- A pointer to a node, or to the end of an arena's array: the arena, and the index in its array.
pub record NodePtr : Type 0 where
  pub arena : ℕ
  pub index : ℕ

-- `*mut DagNode`, `none` for null.
abbrev pub DagNodePtr : Type 0
DagNodePtr = Option NodePtr

-- `*const Symbol`: a symbol's number, `none` for null.
abbrev pub SymbolPtr : Type 0
SymbolPtr = Option ℕ

-- `value` is the source's `Data`.
pub data DagNodeKind : Type 0 where
  free acu au cui variable na value : DagNodeKind

-- `Many` points to a `NodeVector` in bucket memory.
pub data DagNodeArgument : Type 0 where
  no_args : DagNodeArgument
  single : DagNodePtr → DagNodeArgument
  many : Address → DagNodeArgument

pub record DagNode : Type 0 where
  pub symbol : SymbolPtr
  pub args : DagNodeArgument
  pub kind : DagNodeKind
  pub flags : DagNodeFlags

-- Pointers compared with `==`.
abbrev pub same_node : DagNodePtr → DagNodePtr → Bool
same_node none none = true
same_node none (some q) = false
same_node (some p) none = false
same_node (some p) (some q) = (p.arena == q.arena) && (p.index == q.index)

-- `ptr.add(n)`.
abbrev pub add : NodePtr → ℕ → NodePtr
add p n = record p { index = p.index + n }

abbrev pub needs_destruction : DagNode → Bool
needs_destruction d = elim d.args [ no_args ↦ false | single _ ↦ false | many _ ↦ true ]

module _ (ops : BitFlags) where
  abbrev pub is_marked : DagNode → Bool
  is_marked d = ops.contains d.flags marked

  abbrev pub simple_reuse : DagNode → Bool
  simple_reuse d = not (is_marked d) && not (needs_destruction d)

  -- `flags.remove(Marked)`.
  abbrev pub unmark : DagNode → DagNode
  unmark d = record d { flags = ops.remove d.flags marked }

  -- `flags = DagNodeFlags::default()`, and `DagNodeFlags::empty()`.
  abbrev pub clear_flags : DagNode → DagNode
  clear_flags d = record d { flags = ops.empty }
