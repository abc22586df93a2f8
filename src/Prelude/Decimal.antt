-- ===== src/Prelude/Decimal.antt =====
-- The decimal text of a number, as `std::to_string` and Abseil write it and `std::stoi` reads it.
use Prim.Native.Nat.{ℕ, zero, suc, ◌+◌, ◌-◌, ◌*◌, ◌/◌, ◌%◌, ◌≤◌}
use mathlib.Core.Path.{◌≡◌, refl}
use mathlib.Core.Logic.{inl, inr}
use mathlib.Core.Bool.{Bool, ◌&&◌, ◌||◌}
use mathlib.Core.Option.{Option, none, some}
use mathlib.Core.List.{List, [], ◌∷◌}
use native.Mathlib.Omega.{arith}
use rinha.Prelude.Tests.{ltb, leb, ◌==◌, if◌then◌else◌, Bool-cases}
use rinha.Prelude.Lists.{All}
use rinha.Prelude.Int.{ℤ, pos, negsuc, neg}
use rinha.Prelude.Faults.{◌>>=◌}
use rinha.Prelude.Machine.{FitsInt}

-- The digits of `n` before `out`. A round writes one digit; `n` rounds are enough.
unfoldable pub digits_before : ℕ → ℕ → List ℕ → List ℕ
digits_before zero n out = (b'0' + n % 10) ∷ out
digits_before (suc f) n out =
    let rest = digits_before f (n / 10) ((b'0' + n % 10) ∷ out) in
    if ltb n 10 then (b'0' + n) ∷ out else rest

unfoldable pub digits : ℕ → List ℕ
unfolding digits_before
digits n = digits_before n n []

unfoldable pub decimal : ℤ → List ℕ
unfolding digits
decimal (pos n) = digits n
decimal (negsuc n) = b'-' ∷ digits (suc n)

abbrev pub IsDigit : ℕ → Type 0
IsDigit c = (b'0' ≤ c) × (c ≤ b'9')

-- The number that digits spell behind `n`.
abbrev pub value : ℕ → List ℕ → ℕ
value n [] = n
value n (c ∷ s) = value (n * 10 + (c - b'0')) s

pub le-value : (n : ℕ) (s : List ℕ) → n ≤ value n s
le-value n [] = omega arith
le-value n (c ∷ s) = omega (arith, le-value (n * 10 + (c - b'0')) s)

value-digits_before :
    (f n : ℕ) (out : List ℕ) → n ≤ f → value 0 (digits_before f n out) ≡ value n out
unfolding digits_before
value-digits_before zero n out h = ground arith
value-digits_before (suc f) n out h = elim (Bool-cases (ltb n 10)) [
  | inl last ↦ rw last (ground arith)
  | inr more ↦
      rw (more, value-digits_before f (n / 10) ((b'0' + n % 10) ∷ out) (ground arith))
        (ground arith)
]

-- The digits of a number spell it.
pub value-digits : (n : ℕ) → value 0 (digits n) ≡ n
unfolding digits
value-digits n = value-digits_before n n [] (omega arith)

digits_before-IsDigit :
    (f n : ℕ) (out : List ℕ) → n ≤ f → All IsDigit out → All IsDigit (digits_before f n out)
unfolding digits_before
digits_before-IsDigit zero n out h all = ((omega arith, omega arith), all)
digits_before-IsDigit (suc f) n out h all = elim (Bool-cases (ltb n 10)) [
  | inl last ↦ rw last ((omega arith, ground arith), all)
  | inr more ↦ rw more (
      digits_before-IsDigit f (n / 10) ((b'0' + n % 10) ∷ out) (ground arith)
        ((omega arith, omega arith), all))
]

pub digits-IsDigit : (n : ℕ) → All IsDigit (digits n)
unfolding digits
digits-IsDigit n = digits_before-IsDigit n n [] (omega arith) tt

-- `std::stoi`: blanks, a sign, digits; `none` where it throws.
abbrev is_blank : ℕ → Bool
is_blank c = c == 32 || (leb 9 c && leb c 13)

abbrev is_digit : ℕ → Bool
is_digit c = leb b'0' c && leb c b'9'

unfoldable pub read_digits : ℕ → List ℕ → ℕ
read_digits n [] = n
read_digits n (c ∷ s) = if is_digit c then read_digits (n * 10 + (c - b'0')) s else n

unfoldable pub read_number : List ℕ → Option ℕ
unfolding read_digits
read_number [] = none
read_number (c ∷ s) = if is_digit c then some (read_digits 0 (c ∷ s)) else none

unfoldable pub read_signed : List ℕ → Option ℤ
unfolding read_number
read_signed [] = none
read_signed (c ∷ s) =
    if c == b'-'
    then (read_number s >>= λ n. if leb n 2147483648 then some (neg (pos n)) else none)
    else if c == b'+'
    then (read_number s >>= λ n. if leb n 2147483647 then some (pos n) else none)
    else (read_number (c ∷ s) >>= λ n. if leb n 2147483647 then some (pos n) else none)

unfoldable pub stoi : List ℕ → Option ℤ
unfolding read_signed
stoi [] = none
stoi (c ∷ s) = let rest = stoi s in if is_blank c then rest else read_signed (c ∷ s)

digits_before-cons :
    (f n : ℕ) (out : List ℕ) → (c : ℕ) × (s : List ℕ) × (digits_before f n out ≡ c ∷ s)
unfolding digits_before
digits_before-cons zero n out = (b'0' + n % 10, out, refl)
digits_before-cons (suc f) n out = elim (Bool-cases (ltb n 10)) [
  | inl last ↦ (b'0' + n, out, rw last)
  | inr more ↦
      let (c, s, e) = digits_before-cons f (n / 10) ((b'0' + n % 10) ∷ out) in (c, s, rw more e)
]

read_digits-value : (n : ℕ) (s : List ℕ) → All IsDigit s → read_digits n s ≡ value n s
unfolding read_digits
read_digits-value n [] all = refl
read_digits-value n (c ∷ s) all =
    ground (arith, all.0, read_digits-value (n * 10 + (c - b'0')) s all.1)

read_number-digits : (n : ℕ) → read_number (digits n) ≡ some n
unfolding read_number digits
read_number-digits n =
    let (c, s, e) = digits_before-cons n n [] in
    let all : All IsDigit (c ∷ s) = rw (e) at (digits-IsDigit n) in
    let spelled : value 0 (c ∷ s) ≡ n = rw (e) at (value-digits n) in
    rw e (ground (arith, all.0, read_digits-value 0 (c ∷ s) all, spelled))

-- Every `int` is read back from its text.
pub stoi-decimal : (z : ℤ) → FitsInt z → stoi (decimal z) ≡ some z
unfolding stoi read_signed decimal digits neg
stoi-decimal (pos n) fits =
    let (c, s, e) = digits_before-cons n n [] in
    let all : All IsDigit (c ∷ s) = rw (e) at (digits-IsDigit n) in
    let number : read_number (c ∷ s) ≡ some n = rw (e) at (read_number-digits n) in
    rw e (ground (arith, all.0, number))
stoi-decimal (negsuc n) fits = rw (read_number-digits (suc n)) (ground arith)
