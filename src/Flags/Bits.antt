-- ===== src/Flags/Bits.antt =====
-- Flags as the bits of a number: the parameter of the flags of src/dag_node/flags.rs can be met.
use mod2gc.Base.{
  ℕ, ◌+◌, ◌-◌, ◌/◌, ◌%◌, ◌≡◌, ◌≢◌, refl, Bool, true, false, arith, ◌==◌, if◌then◌else◌,
}
use mod2gc.Flags.{
  DagNodeFlag, marked, needs_destruction, reduced, copied, unrewritable, unstackable, ground_flag,
  hash_valid, BitFlags,
}

-- The value of a flag's bit.
abbrev pub weight : DagNodeFlag → ℕ
weight marked = 1
weight needs_destruction = 2
weight reduced = 4
weight copied = 8
weight unrewritable = 16
weight unstackable = 32
weight ground_flag = 64
weight hash_valid = 128

abbrev pub has_bit : ℕ → DagNodeFlag → Bool
has_bit s f = (s / weight f) % 2 == 1

abbrev pub set_bit : ℕ → DagNodeFlag → ℕ
set_bit s f = if has_bit s f then s else s + weight f

abbrev pub clear_bit : ℕ → DagNodeFlag → ℕ
clear_bit s f = if has_bit s f then s - weight f else s

pub has_bit-zero : (f : DagNodeFlag) → has_bit 0 f ≡ false
has_bit-zero marked = refl
has_bit-zero _ = refl

pub has_bit-set_self : (s : ℕ) (f : DagNodeFlag) → has_bit (set_bit s f) f ≡ true
has_bit-set_self s marked = ground arith
has_bit-set_self s _ = ground arith

pub has_bit-clear_self : (s : ℕ) (f : DagNodeFlag) → has_bit (clear_bit s f) f ≡ false
has_bit-clear_self s marked = ground arith
has_bit-clear_self s _ = ground arith

pub has_bit-set_ne : (s : ℕ) (f g : DagNodeFlag) → f ≢ g → has_bit (set_bit s f) g ≡ has_bit s g
has_bit-set_ne s marked marked ne = ground arith
has_bit-set_ne s marked _ ne = ground arith
has_bit-set_ne s needs_destruction marked ne = ground arith
has_bit-set_ne s needs_destruction _ ne = ground arith
has_bit-set_ne s reduced marked ne = ground arith
has_bit-set_ne s reduced _ ne = ground arith
has_bit-set_ne s copied marked ne = ground arith
has_bit-set_ne s copied _ ne = ground arith
has_bit-set_ne s unrewritable marked ne = ground arith
has_bit-set_ne s unrewritable _ ne = ground arith
has_bit-set_ne s unstackable marked ne = ground arith
has_bit-set_ne s unstackable _ ne = ground arith
has_bit-set_ne s ground_flag marked ne = ground arith
has_bit-set_ne s ground_flag _ ne = ground arith
has_bit-set_ne s hash_valid marked ne = ground arith
has_bit-set_ne s hash_valid _ ne = ground arith

pub has_bit-clear_ne : (s : ℕ) (f g : DagNodeFlag) → f ≢ g → has_bit (clear_bit s f) g ≡ has_bit s g
has_bit-clear_ne s marked marked ne = ground arith
has_bit-clear_ne s marked _ ne = ground arith
has_bit-clear_ne s needs_destruction marked ne = ground arith
has_bit-clear_ne s needs_destruction _ ne = ground arith
has_bit-clear_ne s reduced marked ne = ground arith
has_bit-clear_ne s reduced _ ne = ground arith
has_bit-clear_ne s copied marked ne = ground arith
has_bit-clear_ne s copied _ ne = ground arith
has_bit-clear_ne s unrewritable marked ne = ground arith
has_bit-clear_ne s unrewritable _ ne = ground arith
has_bit-clear_ne s unstackable marked ne = ground arith
has_bit-clear_ne s unstackable _ ne = ground arith
has_bit-clear_ne s ground_flag marked ne = ground arith
has_bit-clear_ne s ground_flag _ ne = ground arith
has_bit-clear_ne s hash_valid marked ne = ground arith
has_bit-clear_ne s hash_valid _ ne = ground arith

abbrev pub bits : BitFlags
bits = record {
  empty = 0;
  contains = has_bit;
  insert = set_bit;
  remove = clear_bit;
  contains-empty = has_bit-zero;
  contains-insert_self = has_bit-set_self;
  contains-insert_ne = has_bit-set_ne;
  contains-remove_self = has_bit-clear_self;
  contains-remove_ne = has_bit-clear_ne;
}
