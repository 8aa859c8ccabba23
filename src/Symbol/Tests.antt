-- ===== src/Symbol/Tests.antt =====
-- Runs of src/symbol.rs, and its order at concrete symbols.
use mod2gc.Base.{ℕ, ◌+◌, ◌*◌, ◌^◌, ◌≡◌, refl, arith, ◌==◌, if◌then◌else◌}
use mod2gc.Symbol.{IString, less, greater, hash_of, compute_hash, new, compare}
use mod2gc.Symbol.Ranks.{compare_lem}

-- Hashes of 24 digits.
abbrev short : IString → ℕ
short name = name * 1000 + 7

compare_lem_example : compare (new short 9 2) (new short 4 3) ≡ less
compare_lem_example =
    compare_lem short 9 4 2 3 (omega arith) (omega arith) (omega arith) (omega arith)

-- A hash of 32 digits covers the arity: the symbol of arity 1 is the greater one.
abbrev long : IString → ℕ
long name = if name == 0 then 2 ^ 31 else 0

covered : compare (new long 0 1) (new long 1 2) ≡ greater
unfolding compare new compute_hash hash_of
covered = refl
