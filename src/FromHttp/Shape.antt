-- ===== src/FromHttp/Shape.antt =====
-- The body that the clients send, and where its pieces stand.
use rinha.Prelude.{
  ℕ, IsDigit, value, ◌+◌, ◌-◌, ◌^◌, ◌≤◌, ◌<◌, ◌≡◌, ◌≢◌, refl, ◌⊎◌, ℤ, pos, [], ◌∷◌, ◌++◌, Bytes,
  ◌==◌, if◌then◌else◌, length, drop, All, arith, neg, length-append,
}
use rinha.FromHttp.Positions.{drop_next, drop_behind}

-- The pieces of a body `{"valor": N, "tipo": "T", "descricao": "D"}`. The code does not look at
-- what stands in `lead`, `gap` and `gap'`: they only have a length.
pub record Body : Type 0 where
  pub lead : Bytes
  pub digits : Bytes
  pub gap : Bytes
  pub tipo : ℕ
  pub gap' : Bytes
  pub description : Bytes

abbrev pub from_gap' : Body → Bytes
from_gap' b = b.gap' ++ (b.description ++ (b'"' ∷ b'}' ∷ []))

abbrev pub from_gap : Body → Bytes
from_gap b = b.gap ++ (b.tipo ∷ from_gap' b)

abbrev pub print : Body → Bytes
print b = b.lead ++ (b.digits ++ (b',' ∷ from_gap b))

pub record IsShaped (b : Body) : Type 0 where
  pub lead_length : length b.lead ≡ 10
  pub all_digits : All IsDigit b.digits
  pub gap_length : length b.gap ≡ 10
  pub known : (b.tipo ≡ b'c') ⊎ (b.tipo ≡ b'd')
  pub gap'_length : length b.gap' ≡ 17
  pub unquoted : All (λ c. c ≢ b'"') b.description
  pub some_text : 1 ≤ length b.description
  pub short : length b.description ≤ 10
  pub small : length b.digits < 2 ^ 32

-- One whose number fits an `int`.
pub record IsWellFormed (b : Body) : Type 0 where
  pub shaped : IsShaped b
  pub fits : value 0 b.digits ≤ 2 ^ 31 - 1

abbrev pub amount : Body → ℤ
amount b = if b.tipo == b'd' then neg (pos (value 0 b.digits)) else pos (value 0 b.digits)

-- The text in an array of bytes: closed by a zero, with what stood behind it.
abbrev pub closed : Bytes → Bytes → Bytes
closed text old = text ++ (0 ∷ drop (length text + 1) old)

pub no_char : (c : ℕ) (ds : Bytes) → (c < b'0') ⊎ (b'9' < c) → All IsDigit ds → All (λ x. x ≢ c) ds
no_char c [] far all = tt
no_char c (d ∷ ds) far all = (λ e. absurd (omega arith), no_char c ds far all.1)

module _ (b : Body) (v : IsShaped b) where
  pub at_digits : drop 10 (print b) ≡ b.digits ++ (b',' ∷ from_gap b)
  at_digits = drop_behind (print b) 0 b.lead 10 refl (omega (arith, v.lead_length))

  pub at_comma : drop (10 + length b.digits) (print b) ≡ b',' ∷ from_gap b
  at_comma = drop_behind (print b) 10 b.digits _ at_digits refl

  pub at_gap : drop (10 + length b.digits + 1) (print b) ≡ from_gap b
  at_gap = drop_next (print b) _ at_comma

  pub at_tipo : drop (10 + length b.digits + 11) (print b) ≡ b.tipo ∷ from_gap' b
  at_tipo = drop_behind (print b) _ b.gap _ at_gap (omega (arith, v.gap_length))

  pub at_description :
      drop (10 + length b.digits + 11 + 18) (print b) ≡ b.description ++ (b'"' ∷ b'}' ∷ [])
  at_description =
      drop_behind (print b) _ b.gap' _ (drop_next (print b) _ at_tipo)
        (omega (arith, v.gap'_length))

  pub at_quote :
      drop (10 + length b.digits + 11 + 18 + length b.description) (print b) ≡ b'"' ∷ b'}' ∷ []
  at_quote = drop_behind (print b) _ b.description _ at_description refl

  pub length-print : length (print b) ≡ 10 + length b.digits + 11 + 18 + length b.description + 2
  length-print = omega (
    arith,
    length-append b.lead (b.digits ++ (b',' ∷ from_gap b)),
    length-append b.digits (b',' ∷ from_gap b),
    length-append b.gap (b.tipo ∷ from_gap' b),
    length-append b.gap' (b.description ++ (b'"' ∷ b'}' ∷ [])),
    length-append b.description (b'"' ∷ b'}' ∷ []),
    v.lead_length,
    v.gap_length,
    v.gap'_length,
  )
