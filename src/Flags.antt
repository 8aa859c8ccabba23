-- ===== src/Flags.antt =====
-- src/dag_node/flags.rs: the flags of a node. `BitFlags` of the crate enumflags2 keeps them in a
-- byte; its operations are a parameter, with what its documentation says of them.
pub mod Bits
use mod2gc.Base.{ℕ, ◌≡◌, ◌≢◌, Bool, true, false}

pub data DagNodeFlag : Type 0 where
  marked needs_destruction reduced copied : DagNodeFlag
  unrewritable unstackable ground_flag hash_valid : DagNodeFlag

-- `DagNodeFlags`, a byte.
abbrev pub DagNodeFlags : Type 0
DagNodeFlags = ℕ

-- `BitFlags<DagNodeFlag, u8>`: a set of flags, with its empty value and single flags put in and out.
pub record BitFlags : Type 0 where
  pub empty : DagNodeFlags
  pub contains : DagNodeFlags → DagNodeFlag → Bool
  pub insert : DagNodeFlags → DagNodeFlag → DagNodeFlags
  pub remove : DagNodeFlags → DagNodeFlag → DagNodeFlags
  pub contains-empty : (f : DagNodeFlag) → contains empty f ≡ false
  pub contains-insert_self : (s : DagNodeFlags) (f : DagNodeFlag) → contains (insert s f) f ≡ true
  pub contains-insert_ne :
      (s : DagNodeFlags) (f g : DagNodeFlag) → f ≢ g → contains (insert s f) g ≡ contains s g
  pub contains-remove_self : (s : DagNodeFlags) (f : DagNodeFlag) → contains (remove s f) f ≡ false
  pub contains-remove_ne :
      (s : DagNodeFlags) (f g : DagNodeFlag) → f ≢ g → contains (remove s f) g ≡ contains s g

-- `IrreducibleByVariantEquations`, an alias.
abbrev pub irreducible_by_variant_equations : DagNodeFlag
irreducible_by_variant_equations = unrewritable

-- `RewritingFlags`.
pub rewriting_flags : BitFlags → DagNodeFlags
rewriting_flags ops =
    ops.insert (ops.insert (ops.insert (ops.insert ops.empty reduced) unrewritable) unstackable)
      ground_flag
