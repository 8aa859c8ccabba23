-- ===== src/Base/Run.antt =====
-- What a run of the code comes to. `undefined` is a read or a pointer step that Rust gives no
-- meaning to, `exited` the end of the process, and `out_of_fuel` says only that a loop was given too few rounds.
use mathlib.Core.Path.{◌≡◌, refl, sym, ◌∙◌, subst}

pub data Outcome {α} (R : Type α) : Type α where
  panic undefined out_of_fuel exited : Outcome R
  ok : R → Outcome R

-- A step, and what follows it unless it stops the run.
infixl 5 ◌>>=◌
abbrev pub ◌>>=◌ {α β} :
    {Q : Type α} {R : Type β} (m : Outcome Q) (next : Q → Outcome R) → Outcome R
panic >>= next = panic
undefined >>= next = undefined
exited >>= next = exited
out_of_fuel >>= next = out_of_fuel
ok q >>= next = next q

-- A chain that succeeds has a first step that does.
pub >>=-eq-ok {α β} :
    {Q : Type α} {R : Type β} {r : R} (m : Outcome Q) (next : Q → Outcome R)
    (succeeds : (m >>= next) ≡ ok r)
    → (q : Q) × (m ≡ ok q) × (next q ≡ ok r)
>>=-eq-ok panic next e = cc
>>=-eq-ok undefined next e = cc
>>=-eq-ok exited next e = cc
>>=-eq-ok out_of_fuel next e = cc
>>=-eq-ok (ok q) next e = (q, refl, e)

-- A run that succeeds, with a result that satisfies the predicate.
abbrev pub Returns {ℓ κ} : {A : Type ℓ} → (A → Type κ) → Outcome A → Type (ℓ ⊔ κ)
Returns {A} P m = (a : A) × (m ≡ ok a) × P a

-- Chains of steps that return.
pub Returns-bind {ℓ κ μ} :
    {A : Type ℓ} {B : Type κ} (P : A → Type ℓ) (Q : B → Type μ) (m : Outcome A) (f : A → Outcome B)
    → Returns P m
    → ((a : A) → P a → Returns Q (f a))
    → Returns Q (m >>= f)
Returns-bind P Q m f r next = let (a, e, p) = r in rw e (next a p)

pub ok_injective {ℓ} : {A : Type ℓ} {a b : A} → ◌≡◌ {A = Outcome A} (ok a) (ok b) → a ≡ b
ok_injective e = cc

-- What is known of the result holds of the result at hand.
pub Returns_at {ℓ κ} :
    {A : Type ℓ} (P : A → Type κ) (m : Outcome A) {b : A} → Returns P m → m ≡ ok b → P b
Returns_at P m r e = subst P (ok_injective (sym r.1 ∙ e)) r.2

-- Chains whose second steps agree.
pub >>=-cong {α β} :
    {Q : Type α} {R : Type β} (m : Outcome Q) (f g : Q → Outcome R)
    → ((q : Q) → f q ≡ g q)
    → (m >>= f) ≡ (m >>= g)
>>=-cong panic f g e = refl
>>=-cong undefined f g e = refl
>>=-cong exited f g e = refl
>>=-cong out_of_fuel f g e = refl
>>=-cong (ok q) f g e = e q
