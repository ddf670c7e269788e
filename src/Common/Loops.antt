-- ===== src/Common/Loops.antt =====
-- A `while` loop: at most `fuel` rounds of it.
use Prim.Native.Nat.{ℕ, zero, suc}
use mathlib.Core.Path.{◌≡◌, refl}
use mathlib.Core.Bool.{Bool, true, false}

unfoldable pub while {ℓ} : {State : Type ℓ} → ℕ → (State → Bool) → (State → State) → State → State
while zero goes_on round now = now
while (suc fuel) goes_on round now = elim (goes_on now) [
  | false ↦ now
  | true ↦ while fuel goes_on round (round now)
]

module _ {ℓ} {State : Type ℓ} (fuel : ℕ) (goes_on : State → Bool) (round : State → State)
    {now : State} where
  pub while-true :
      goes_on now ≡ true → while (suc fuel) goes_on round now ≡ while fuel goes_on round (round now)
  unfolding while
  while-true e = rw (e, while)

  pub while-false : goes_on now ≡ false → while fuel goes_on round now ≡ now
  unfolding while
  while-false e = stays fuel
    where
      stays : (n : ℕ) → while n goes_on round now ≡ now
      stays zero = refl
      stays (suc n) = rw (e, while)
