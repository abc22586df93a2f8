-- ===== src/Prelude/Stateful.antt =====
-- Calls that change a world outside the program, and may fault.
use mathlib.Core.Path.{◌≡◌}
use mathlib.Core.Option.{Option, none, some}

abbrev pub Action : Type 0 → Type 0 → Type 0
Action W A = W → Option (A × W)

module _ {W : Type 0} where
  abbrev pub pure : {A : Type 0} → A → Action W A
  pure a w = some (a, w)

  -- A call that does not return: the process stops, or a loop has used up its fuel.
  abbrev pub stopped : {A : Type 0} → Action W A
  stopped w = none

  abbrev pub lift : {A : Type 0} → Option A → Action W A
  lift none w = none
  lift (some a) w = some (a, w)

  abbrev pub effect : {A : Type 0} → (W → A × W) → Action W A
  effect f w = some (f w)

  abbrev pub modify : (W → W) → Action W (Unit {0})
  modify f w = some (tt, f w)

  abbrev pub gets : {A : Type 0} → (W → A) → Action W A
  gets f w = some (f w, w)

  infixl 5 ◌>>=◌ ◌>>◌
  abbrev pub ◌>>=◌ : {A B : Type 0} → Action W A → (A → Action W B) → Action W B
  ◌>>=◌ m f w = elim (m w) [ none ↦ none | some (a, w') ↦ f a w' ]

  abbrev pub ◌>>◌ : {B : Type 0} → Action W (Unit {0}) → Action W B → Action W B
  m >> k = m >>= λ _. k

  -- A call that returns hands its value and its world on.
  pub >>=-some :
      {A B : Type 0} (m : Action W A) (f : A → Action W B) {a : A} {w w' : W}
      → m w ≡ some (a, w')
      → (m >>= f) w ≡ f a w'
  >>=-some m f e = rw (e, ◌>>=◌)
