-- ===== src/Absl.antt =====
-- The functions of Abseil that the program calls, as a parameter, and what it relies on.
use rinha.Prelude.{
  ℕ, ◌+◌, ◌<◌, ◌≡◌, ◌⊎◌, ℤ, pos, Bool, true, false, ◌&&◌, List, [], ◌∷◌, ◌++◌, Bytes, decimal, ◌==◌,
}

pub record Absl : Type 0 where
  -- `absl::StartsWith(text, prefix)`
  pub starts_with : Bytes → Bytes → Bool
  -- `absl::SimpleAtoi(text, &out)`: success and what is left in `out`
  pub simple_atoi : Bytes → Bool × ℤ
  -- `absl::StrCat` of texts, and the text that it makes of an `int`
  pub str_cat : List Bytes → Bytes
  pub of_int : ℤ → Bytes
  -- `absl::StrAppend(&text, more)`
  pub str_append : Bytes → Bytes → Bytes

abbrev pub is_prefix : Bytes → Bytes → Bool
is_prefix [] s = true
is_prefix (c ∷ p) [] = false
is_prefix (c ∷ p) (d ∷ s) = c == d && is_prefix p s

abbrev pub concat : List Bytes → Bytes
concat [] = []
concat (s ∷ r) = s ++ concat r

-- The documented behaviour.
pub record Laws (a : Absl) : Type 0 where
  pub starts_with-eq : (s p : Bytes) → a.starts_with s p ≡ is_prefix p s
  pub simple_atoi_digit : (d : ℕ) → d < 10 → a.simple_atoi ((b'0' + d) ∷ []) ≡ (true, pos d)
  pub simple_atoi_other : (c : ℕ) → (c < b'0') ⊎ (b'9' < c) → (a.simple_atoi (c ∷ [])).0 ≡ false
  pub str_cat-eq : (parts : List Bytes) → a.str_cat parts ≡ concat parts
  pub of_int-eq : (z : ℤ) → a.of_int z ≡ decimal z
  pub str_append-eq : (text more : Bytes) → a.str_append text more ≡ text ++ more
