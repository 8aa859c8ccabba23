-- ===== src/Symbol.antt =====
-- src/symbol.rs: symbols, their hash and their order.
pub mod Ranks
mod Tests
use Prim.Native.Nat.{bit_or}
use mod2gc.Base.{
  List, [], ◌∷◌, ℕ, ◌*◌, ◌%◌, ◌^◌, Bool, true, false, none, some, Outcome, ok, undefined, ltb, ◌==◌,
  if◌then◌else◌,
}
use mod2gc.Node.{SymbolPtr}

-- `IString`, an interned string of the crate ustr: its number.
abbrev pub IString : Type 0
IString = ℕ

pub data SymbolType : Type 0 where
  standard variable operator data_type : SymbolType

-- `SymbolAttribute`, the flags of a symbol.
pub data SymbolAttribute : Type 0 where
  precedence gather format latex : SymbolAttribute
  strategy memoized frozen constructor : SymbolAttribute
  associative commutative left_identity right_identity idempotent iterated : SymbolAttribute

-- The sets of flags that have names, by their members.
abbrev pub axioms : List SymbolAttribute
axioms = associative ∷ commutative ∷ left_identity ∷ right_identity ∷ idempotent ∷ []

abbrev pub collapse : List SymbolAttribute
collapse = left_identity ∷ right_identity ∷ idempotent ∷ []

abbrev pub simple_attributes : List SymbolAttribute
simple_attributes = associative ∷ commutative ∷ idempotent ∷ memoized ∷ constructor ∷ iterated ∷ []

-- What declarations of an operator have to agree on.
abbrev pub shared_attributes : List SymbolAttribute
shared_attributes =
    precedence ∷ gather ∷ format ∷ latex ∷ strategy ∷ memoized ∷ frozen ∷ associative ∷ commutative
    ∷ left_identity ∷ right_identity ∷ idempotent ∷ iterated ∷ []

-- `SymbolAttributes`, a word of flags.
abbrev pub SymbolAttributes : Type 0
SymbolAttributes = ℕ

pub record Symbol : Type 0 where
  pub name : IString
  pub arity : ℕ
  pub attributes : SymbolAttributes
  pub symbol_type : SymbolType
  pub hash_value : ℕ

pub data Order : Type 0 where
  less equal greater : Order

-- `u32::cmp`.
abbrev pub compare_u32 : ℕ → ℕ → Order
compare_u32 a b = if ltb a b then less else if a == b then equal else greater

-- `precomputed_hash` is the hash that ustr keeps with a string, 64 bits.
module _ (precomputed_hash : IString → ℕ) where
  -- `compute_hash`: the low 32 bits of the name's hash, or'ed with the arity in the top byte.
  unfoldable pub hash_of : IString → (arity : ℕ) → ℕ
  hash_of name arity = bit_or (precomputed_hash name % 2 ^ 32) (arity * 2 ^ 24 % 2 ^ 32)

  unfoldable pub compute_hash : Symbol → ℕ × Symbol
  compute_hash s = let hash = hash_of s.name s.arity in (hash, record s { hash_value = hash })

  unfoldable pub new : IString → (arity : ℕ) → Symbol
  new name arity =
      (compute_hash (record {
        name = name;
        arity = arity;
        attributes = 0;
        symbol_type = standard;
        hash_value = 0;
      })).1

abbrev pub is_variable : Symbol → Bool
is_variable s = elim s.symbol_type [ variable ↦ true | _ ↦ false ]

unfoldable pub compare : Symbol → Symbol → Order
compare s t = compare_u32 s.hash_value t.hash_value

-- `symbol().arity` behind a pointer; `symbols` are the symbols that the pointers lead to.
abbrev pub arity_of : (symbols : ℕ → Symbol) → SymbolPtr → Outcome ℕ
arity_of symbols none = undefined
arity_of symbols (some k) = ok (symbols k).arity
