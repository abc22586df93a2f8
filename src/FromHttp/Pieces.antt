-- ===== src/FromHttp/Pieces.antt =====
-- A text that passes the tests of `ParseJsonBody`, cut into the pieces of a body.
use rinha.Prelude.{
  ℕ, IsDigit, ◌+◌, ◌-◌, ◌^◌, ◌≤◌, ◌<◌, ◌≡◌, ◌≢◌, refl, ap, sym, ◌∙◌, ◌⊎◌, ℤ, pos, true, some, [],
  ◌∷◌, ◌++◌, Bytes, length, length-append, take, drop, take-drop, length-take, length-drop,
  drop-cons, All, arith, add_size, sub_size, append_assoc,
}
use rinha.FromHttp.{char_at, to_int_loop}
use rinha.FromHttp.Positions.{
  view_of, drop-append, drop-drop, drop_next, drop_behind, get_elem?-drop,
}
use rinha.FromHttp.Body.{Body, IsShaped, print}
use rinha.FromHttp.Accepts.{to_int_loop-All}

-- A place that is not behind the text is read from the text.
char_of :
    (text rest : Bytes) (i c : ℕ)
    → i < length text
    → char_at (view_of text rest) i ≡ some c
    → drop i text ≡ c ∷ drop (i + 1) text
char_of text rest i c inside at =
    let (x, here) = drop-cons i text inside in
    let same : some x ≡ some c =
      sym (get_elem?-drop (text ++ rest) i (drop-append text rest i (omega arith) here)) ∙ at in
    here ∙ ap (λ y. y ∷ drop (i + 1) text) (cc)

-- A piece of the text from a place on.
cut : (text s : Bytes) (i n j : ℕ) → drop i text ≡ s → j ≡ i + n → s ≡ take n s ++ drop j text
cut text s i n j at e =
    sym (take-drop n s)
    ∙ ap (λ r. take n s ++ r)
        (ap (drop n) (sym at) ∙ sym (drop-drop text i n) ∙ ap (λ k. drop k text) (sym e))

module _ (text ds ys desc zs : Bytes) (c : ℕ) (at_digits : drop 10 text ≡ ds ++ b',' ∷ ys)
    (at_tipo : drop (10 + length ds + 11) text ≡ c ∷ drop (10 + length ds + 11 + 1) text)
    (at_desc : drop (10 + length ds + 29) text ≡ desc ++ b'"' ∷ zs)
    (at_brace : drop (10 + length ds + 29 + length desc + 1) text
      ≡ b'}' ∷ drop (10 + length ds + 29 + length desc + 2) text)
    (ends : 10 + length ds + 29 + length desc + 2 ≡ length text) where
  abbrev tail : Bytes
  tail = drop (10 + length ds + 11 + 1) text

  abbrev found : Body
  found = record {
    lead = take 10 text;
    digits = ds;
    gap = take 10 ys;
    tipo = c;
    gap' = take 17 tail;
    description = desc;
  }

  at_ys : drop (10 + length ds + 1) text ≡ ys
  at_ys = drop_next text (10 + length ds) (drop_behind text 10 ds _ at_digits refl)

  nothing_left : (s : Bytes) → length s ≡ 0 → s ≡ []
  nothing_left [] e = refl
  nothing_left (x ∷ s) e = absurd (omega arith)

  zs_eq : zs ≡ b'}' ∷ []
  zs_eq =
      sym (drop_next text _ (drop_behind text _ desc _ at_desc refl))
      ∙ at_brace
      ∙ ap (◌∷◌ b'}')
          (nothing_left _ (omega (arith, length-drop (10 + length ds + 29 + length desc + 2) text)))

  tail_eq : tail ≡ take 17 tail ++ (desc ++ b'"' ∷ b'}' ∷ [])
  tail_eq =
      cut text tail _ 17 (10 + length ds + 29) refl (omega arith)
      ∙ ap (λ r. take 17 tail ++ r) (at_desc ∙ ap (λ s. desc ++ b'"' ∷ s) zs_eq)

  ys_eq : ys ≡ take 10 ys ++ (c ∷ tail)
  ys_eq =
      cut text ys _ 10 (10 + length ds + 11) at_ys (omega arith) ∙ ap (λ r. take 10 ys ++ r) at_tipo

  pub text_eq : text ≡ print found
  text_eq =
      cut text text 0 10 10 refl refl
      ∙ ap (λ r. take 10 text ++ r)
          (at_digits ∙ ap (λ r. ds ++ b',' ∷ r) (ys_eq ∙ ap (λ r. take 10 ys ++ c ∷ r) tail_eq))

  pub text-IsShaped :
      All IsDigit ds
      → (c ≡ b'c') ⊎ (c ≡ b'd')
      → All (λ x. x ≢ b'"') desc
      → 1 ≤ length desc
      → length desc ≤ 10
      → length text < 2 ^ 32
      → IsShaped found
  text-IsShaped digits known unquoted some_text short small =
      let ys_length = ap length at_ys in
      record {
        lead_length = length-take 10 text (omega arith);
        all_digits = digits;
        gap_length =
            length-take 10 ys
              (omega (arith, ap length at_ys, length-drop (10 + length ds + 1) text));
        known = known;
        gap'_length =
            length-take 17 tail (omega (arith, length-drop (10 + length ds + 11 + 1) text));
        unquoted = unquoted;
        some_text = some_text;
        short = short;
        small = omega arith;
      }

-- What stands behind a place of the text is in the text.
pub inside :
    (text xs ys : Bytes) (c i : ℕ) → drop i text ≡ xs ++ c ∷ ys → i + length xs + 1 ≤ length text
inside text xs ys c i at =
    omega (arith, ap length at, length-append xs (c ∷ ys), length-drop i text)

-- The facts that the tests leave, put together.
pub assembled :
    (text rest ds ys desc zs : Bytes) (comma end c : ℕ) (z : ℤ)
    → length text < 2 ^ 32
    → comma ≡ 10 + length ds
    → drop 10 text ≡ ds ++ b',' ∷ ys
    → to_int_loop (text ++ rest) (comma - 10) 10 (pos 0) ≡ some (true, z)
    → char_at (view_of text rest) (add_size comma 11) ≡ some c
    → (c ≡ b'c') ⊎ (c ≡ b'd')
    → drop (add_size (add_size comma 11) 18) text ≡ desc ++ b'"' ∷ zs
    → All (λ x. x ≢ b'"') desc
    → end ≡ add_size (add_size comma 11) 18 + length desc
    → add_size end 2 ≡ length text
    → char_at (view_of text rest) (end + 1) ≡ some b'}'
    → 1 ≤ sub_size end (add_size (add_size comma 11) 18)
    → sub_size end (add_size (add_size comma 11) 18) ≤ 10
    → (b : Body) × IsShaped b × (text ≡ print b)
assembled text rest ds ys desc zs comma end c z small place at_digits loop at_c known at_desc
      unquoted place' ends brace some_text short =
    let ds_le = inside text ds ys b',' 10 at_digits in
    let start : add_size (add_size comma 11) 18 ≡ 10 + length ds + 29 = omega arith in
    let tipo : add_size comma 11 ≡ 10 + length ds + 11 = omega arith in
    let at_desc' = rw start at at_desc in
    let few = inside text desc zs b'"' (10 + length ds + 29) at_desc' in
    let last : end + 1 ≡ 10 + length ds + 29 + length desc + 1 = omega arith in
    let rounds : comma - 10 ≡ length ds = omega arith in
    let at_tipo = char_of text rest (10 + length ds + 11) c (omega arith) (rw tipo at at_c) in
    let at_brace : drop (10 + length ds + 29 + length desc + 1) text
        ≡ b'}' ∷ drop (10 + length ds + 29 + length desc + 2) text =
      char_of text rest _ b'}' (omega arith) (rw last at brace)
      ∙ ap (λ k. b'}' ∷ drop k text) (omega arith) in
    let all =
      to_int_loop-All (text ++ rest) 10 (pos 0) z ds ((b',' ∷ ys) ++ rest)
        (drop-append text rest 10 (omega arith) at_digits ∙ append_assoc ds (b',' ∷ ys) rest)
        (rw rounds at loop) in
    let whole : 10 + length ds + 29 + length desc + 2 ≡ length text = omega arith in
    (
      found text ds ys desc zs c at_digits at_tipo at_desc' at_brace whole,
      text-IsShaped text ds ys desc zs c at_digits at_tipo at_desc' at_brace whole all known
          unquoted (omega arith) (omega arith) small,
      text_eq text ds ys desc zs c at_digits at_tipo at_desc' at_brace whole,
    )
