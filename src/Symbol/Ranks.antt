-- ===== src/Symbol/Ranks.antt =====
-- The order of symbols of src/symbol.rs, by arity and then by the hash of the name.
use Prim.Native.Nat.{bit_or, digits, bit_or-bitwise}
use native.Mathlib.Nat.{pow-suc}
use mod2gc.Base.{
  ℕ, zero, suc, ◌+◌, ◌*◌, ◌/◌, ◌%◌, ◌^◌, ◌≤◌, ◌<◌, max, ◌≡◌, ◌∙◌, refl, ap, sym, arith, ltb, ◌==◌,
  if◌then◌else◌,
}
use mod2gc.Symbol.{IString, less, greater, compare_u32, hash_of, compute_hash, new, compare}

-- Steps beyond the digits of the first number change nothing.
or_steps : (b a n m : ℕ) → a ≤ m → a ≤ n → digits (λ c. c) max m a b ≡ digits (λ c. c) max n a b
or_steps b zero zero m le' le = or_zero m
  where
    or_zero : (m : ℕ) → digits (λ c. c) max m zero b ≡ b
    or_zero zero = refl
    or_zero (suc m) = refl
or_steps b zero (suc n) zero le' le = refl
or_steps b zero (suc n) (suc m) le' le = refl
or_steps b (suc a) zero m le' le = absurd (omega arith)
or_steps b (suc a) (suc n) zero le' le = absurd (omega arith)
or_steps b (suc a) (suc n) (suc m) le' le =
    ap (λ d. d * 2 + max (suc a % 2) (b % 2))
      (or_steps (b / 2) (suc a / 2) n m (omega arith) (omega arith))

zero-bit_or : (b : ℕ) → bit_or 0 b ≡ b
zero-bit_or b = bit_or-bitwise 0 b

-- The lowest digit apart.
bit_or_low : (a b : ℕ) → bit_or a b ≡ bit_or (a / 2) (b / 2) * 2 + max (a % 2) (b % 2)
bit_or_low zero b = omega (arith, zero-bit_or b, zero-bit_or (b / 2))
bit_or_low (suc a) b =
    bit_or-bitwise (suc a) b
    ∙ ap (λ d. d * 2 + max (suc a % 2) (b % 2))
        (or_steps (b / 2) (suc a / 2) (suc a / 2) a (omega arith) (omega arith)
          ∙ sym (bit_or-bitwise (suc a / 2) (b / 2)))

swap : (x y : ℕ) → x * (y * 2) ≡ 2 * (x * y)
swap x y = grind arith

-- Numbers with no digit in common are added.
bit_or_apart : (k a b c : ℕ) → a < 2 ^ k → c ≡ b * 2 ^ k → bit_or a c ≡ a + c
bit_or_apart zero a b c lt e =
    let none_left : a ≡ 0 = omega (arith, lt) in rw none_left (omega (arith, zero-bit_or c))
bit_or_apart (suc k) a b c lt e =
    let twice : c ≡ 2 * (b * 2 ^ k) = e ∙ ap (λ p. b * p) (pow-suc 2 k) ∙ swap b (2 ^ k) in
    let half : c / 2 ≡ b * 2 ^ k = omega (arith, twice) in
    let low : c % 2 ≡ 0 = omega (arith, twice) in
    let rest =
      bit_or_apart k (a / 2) b (c / 2) (let p = pow-suc 2 k in omega (arith, lt, p)) half in
    omega (arith, bit_or_low a c, rest, low)

module _ (precomputed_hash : IString → ℕ) where
  -- The value of a hash, where the hash of the name has 24 digits.
  hash_of_lem :
      (name : IString) (arity : ℕ)
      → precomputed_hash name % 2 ^ 32 < 2 ^ 24
      → arity < 2 ^ 8
      → hash_of precomputed_hash name arity ≡ precomputed_hash name % 2 ^ 32 + arity * 2 ^ 24
  unfolding hash_of
  hash_of_lem name arity few byte =
      let kept : arity * 2 ^ 24 % 2 ^ 32 ≡ arity * 2 ^ 24 = omega arith in
      bit_or_apart 24 (precomputed_hash name % 2 ^ 32) arity (arity * 2 ^ 24 % 2 ^ 32) few kept
      ∙ omega (arith, kept)

  -- For names whose hash, cut to 32 bits, has no more than 24, and arities of 8 bits, `compare` of
  -- two new symbols is the order by arity first, and by the hash of the name where the arities are
  -- the same.
  pub compare_lem :
      (x y : IString) (a b : ℕ)
      → a < 2 ^ 8
      → b < 2 ^ 8
      → precomputed_hash x % 2 ^ 32 < 2 ^ 24
      → precomputed_hash y % 2 ^ 32 < 2 ^ 24
      → compare (new precomputed_hash x a) (new precomputed_hash y b) ≡ (
          if a == b
          then compare_u32 (precomputed_hash x % 2 ^ 32) (precomputed_hash y % 2 ^ 32)
          else if ltb a b
          then less
          else greater)
  unfolding compare new compute_hash
  compare_lem x y a b byte byte' few few' =
      ground (arith, hash_of_lem x a few byte, hash_of_lem y b few' byte')
