-- ===== src/Base/Order.antt =====
-- Lists of numbers that fall.
use Prim.Native.Nat.{ℕ, ◌≤◌, ◌<◌}
use mathlib.Core.List.{List, [], ◌∷◌, ◌++◌}
use native.Mathlib.Omega.{arith}
use mod2gc.Base.Lists.{length, All, All-of_append}

-- The numbers fall along the list, from below `n`: none stands twice in it.
abbrev pub Below : ℕ → List ℕ → Type 0
Below n [] = Unit
Below n (b ∷ bs) = (b < n) × Below b bs

pub length-Below : (n : ℕ) (xs : List ℕ) → Below n xs → length xs ≤ n
length-Below n [] h = omega arith
length-Below n (b ∷ bs) h = omega (arith, length-Below b bs h.1)

pub Below-mono : (n m : ℕ) (xs : List ℕ) → n ≤ m → Below n xs → Below m xs
Below-mono n m [] le h = tt
Below-mono n m (b ∷ bs) le h = (omega arith, h.1)

pub Below-of_append : (n : ℕ) (xs ys : List ℕ) → Below n (xs ++ ys) → Below n ys
Below-of_append n [] ys h = h
Below-of_append n (x ∷ xs) ys h = Below-mono x n ys (omega arith) (Below-of_append x xs ys h.1)

pub All-Below : (n : ℕ) (xs : List ℕ) → Below n xs → All (λ b. b < n) xs
All-Below n [] h = tt
All-Below n (b ∷ bs) h = (h.0, All-Below n bs (Below-mono b n bs (omega arith) h.1))

-- The items on both sides of one item.
pub Below-front :
    (n : ℕ) (xs : List ℕ) (c : ℕ) (ys : List ℕ) → Below n (xs ++ c ∷ ys) → All (λ x. c < x) xs
Below-front n [] c ys h = tt
Below-front n (x ∷ xs) c ys h = (
  (All-of_append (λ b. b < x) xs (c ∷ ys) (All-Below x (xs ++ c ∷ ys) h.1)).0,
  Below-front x xs c ys h.1,
)

pub Below-without :
    (n : ℕ) (xs : List ℕ) (c : ℕ) (ys : List ℕ) → Below n (xs ++ c ∷ ys) → Below n (xs ++ ys)
Below-without n [] c ys h = Below-mono c n ys (omega arith) h.1
Below-without n (x ∷ xs) c ys h = (h.0, Below-without x xs c ys h.1)
