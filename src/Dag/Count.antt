-- ===== src/Dag/Count.antt =====
-- The number of the nodes with no mark, by which the recursion of `mark` of src/dag_node/node.rs goes
-- down.
use mod2gc.Base.{
  ℕ, zero, suc, ◌+◌, ◌*◌, ◌≤◌, ◌<◌, ◌≡◌, refl, inl, inr, Bool, true, false, arith, ◌==◌,
  if◌then◌else◌, Bool-cases,
}

-- The places below `n` that are not set.
pub unset : (ℕ → Bool) → ℕ → ℕ
unset f zero = 0
unset f (suc n) = unset f n + (if f n then 0 else 1)

-- The places of `b` rows.
pub total : (ℕ → ℕ → Bool) → (b n : ℕ) → ℕ
total f zero n = 0
total f (suc b) n = total f b n + unset (f b) n

unset-same : (f g : ℕ → Bool) (n : ℕ) → ((j : ℕ) → j < n → g j ≡ f j) → unset f n ≡ unset g n
unfolding unset
unset-same f g zero e = refl
unset-same f g (suc n) e =
    rw (e n (omega arith)) (omega (arith, unset-same f g n (λ j h. e j (omega arith))))

unset-flip :
    (f g : ℕ → Bool) (n k : ℕ)
    → k < n
    → f k ≡ false
    → g k ≡ true
    → ((j : ℕ) → (j == k) ≡ false → g j ≡ f j)
    → unset f n ≡ unset g n + 1
unfolding unset
unset-flip f g zero k lt off on e = absurd (omega arith)
unset-flip f g (suc n) k lt off on e = elim (Bool-cases (n == k)) [
  | inl here ↦
      let same : n ≡ k = ground arith in
      let rest = unset-same f g n (λ j h. e j (ground arith)) in
      rw (same, off, on) (omega (arith, rw same at rest))
  | inr later ↦ rw (e n later) (omega (arith, unset-flip f g n k (ground arith) off on e))
]

pub total-same :
    (f g : ℕ → ℕ → Bool) (b n : ℕ)
    → ((a j : ℕ) → a < b → j < n → g a j ≡ f a j)
    → total f b n ≡ total g b n
unfolding total
total-same f g zero n e = refl
total-same f g (suc b) n e = omega (
  arith,
  total-same f g b n (λ a j h. e a j (omega arith)),
  unset-same (f b) (g b) n (λ j. e b j (omega arith)),
)

-- One place is set.
pub total-flip :
    (f g : ℕ → ℕ → Bool) (b n c k : ℕ)
    → c < b
    → k < n
    → f c k ≡ false
    → g c k ≡ true
    → ((a j : ℕ) → (a == c) ≡ false → g a j ≡ f a j)
    → ((j : ℕ) → (j == k) ≡ false → g c j ≡ f c j)
    → total f b n ≡ total g b n + 1
unfolding total
total-flip f g zero n c k lt lt' off on other row = absurd (omega arith)
total-flip f g (suc b) n c k lt lt' off on other row = elim (Bool-cases (b == c)) [
  | inl here ↦
      let same : b ≡ c = ground arith in
      let rest = total-same f g b n (λ a j h k. other a j (ground arith)) in
      let one = unset-flip (f c) (g c) n k lt' off on row in
      rw same (omega (arith, rw same at rest, one))
  | inr later ↦ omega (
    arith,
    total-flip f g b n c k (ground arith) lt' off on other row,
    unset-same (f b) (g b) n (λ j h. other b j later),
  )
]

-- There are no more places than there are.
pub unset-le : (f : ℕ → Bool) (n : ℕ) → unset f n ≤ n
unfolding unset
unset-le f zero = omega arith
unset-le f (suc n) = ground (arith, unset-le f n)

pub total-le : (f : ℕ → ℕ → Bool) (b n : ℕ) → total f b n ≤ b * n
unfolding total
total-le f zero n = omega arith
total-le f (suc b) n = grind (arith, total-le f b n, unset-le (f b) n)

unset-none : (f : ℕ → Bool) (n : ℕ) → ((j : ℕ) → j < n → f j ≡ false) → unset f n ≡ n
unfolding unset
unset-none f zero off = refl
unset-none f (suc n) off =
    rw (off n (omega arith)) (omega (arith, unset-none f n (λ j lt. off j (omega arith))))

pub total-none :
    (f : ℕ → ℕ → Bool) (b n : ℕ) → ((a j : ℕ) → a < b → j < n → f a j ≡ false) → total f b n ≡ b * n
unfolding total
total-none f zero n off = omega arith
total-none f (suc b) n off = grind (
  arith,
  total-none f b n (λ a j lt. off a j (omega arith)),
  unset-none (f b) n (λ j. off b j (omega arith)),
)
