-- ===== src/Prelude/Faults.antt =====
-- Code that may meet undefined behaviour: `none` is a fault, such as a read or a write outside the
-- memory of an array. No theorem says anything of a run after a fault.
use Prim.Native.Nat.{ℕ, zero, suc, ◌<◌}
use mathlib.Core.Path.{◌≡◌, refl, ap}
use mathlib.Core.List.{List, ◌∷◌, [], ◌++◌}
use mathlib.Core.Option.{Option, none, some}
use native.Mathlib.Omega.{arith}
use rinha.Prelude.Tests.{ltb, if◌then◌else◌}
use rinha.Prelude.Lists.{length, set, length-append}

infixl 5 ◌>>=◌
abbrev pub ◌>>=◌ {ℓ κ} : {A : Type ℓ} {B : Type κ} → Option A → (A → Option B) → Option B
none >>= f = none
some a >>= f = f a

-- Inversion of a run with no fault.
pub >>=-eq-some {ℓ κ} :
    {A : Type ℓ} {B : Type κ} (m : Option A) (f : A → Option B) {b : B}
    → (m >>= f) ≡ some b
    → (a : A) × (m ≡ some a) × (f a ≡ some b)
>>=-eq-some none f h = cc
>>=-eq-some (some a) f h = (a, refl, h)

-- `xs[i] = v` on an array.
abbrev pub write_at {ℓ} : {A : Type ℓ} → List A → ℕ → A → Option (List A)
write_at xs i v = if ltb i (length xs) then some (set xs i v) else none

pub write_at-lt {ℓ} :
    {A : Type ℓ} (xs : List A) (i : ℕ) (v : A) → i < length xs → write_at xs i v ≡ some (set xs i v)
write_at-lt xs i v h = ground arith

module _ {ℓ} {A : Type ℓ} where
  set-front :
      (xs ys : List A) (y c : A) (k : ℕ) → k ≡ length xs → set (xs ++ y ∷ ys) k c ≡ xs ++ c ∷ ys
  set-front [] ys y c zero e = refl
  set-front [] ys y c (suc k) e = absurd (omega arith)
  set-front (x ∷ xs) ys y c zero e = absurd (omega arith)
  set-front (x ∷ xs) ys y c (suc k) e = ap (◌∷◌ x) (set-front xs ys y c k (omega arith))

  -- A write to the place behind a front.
  pub write_at-front :
      (xs ys : List A) (y c : A) (k : ℕ)
      → k ≡ length xs
      → write_at (xs ++ y ∷ ys) k c ≡ some (xs ++ c ∷ ys)
  write_at-front xs ys y c k e =
      rw (← set-front xs ys y c k e)
        (write_at-lt (xs ++ y ∷ ys) k c (let n = length-append xs (y ∷ ys) in omega arith))
