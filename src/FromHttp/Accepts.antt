-- ===== src/FromHttp/Accepts.antt =====
-- What a body that `ParseJsonBody` accepts looks like: each test of the code, read backwards.
use rinha.Prelude.{
  ℕ, IsDigit, ◌+◌, ◌-◌, ◌≤◌, ◌≡◌, ◌≢◌, refl, ap, ◌∙◌, ◌⊎◌, inl, inr, ℤ, pos, add_int, mul_int, Bool,
  true, false, not, ◌&&◌, ◌||◌, Option, none, some, [], ◌∷◌, ◌++◌, Bytes, ltb, ◌==◌, if◌then◌else◌,
  length, drop, All, arith, npos, add_size, sub_size, Bool-cases, Option-cases,
}
use rinha.Structs.{Transaction}
use rinha.FromHttp.{
  View, index_of, find_char, char_at, to_int_loop, substring_to_int, parse_description, parse_tipo,
  parse_json_body,
}
use rinha.FromHttp.Positions.{view_of, chars-view_of, get_elem?-drop, drop_next}

no_fault : {A : Type 0} {a : A} → none ≡ some a → ⊥
no_fault h = cc

not_refused :
    {A : Type 0} {t t' : A} → ◌≡◌ {A = Option (Bool × A)} (some (false, t)) (some (true, t')) → ⊥
not_refused h = cc

-- A test that did not refuse.
passed :
    {A : Type 0} (refuses : Bool) (t : A) (m : Option (Bool × A)) {t' : A}
    → (if refuses then some (false, t) else m) ≡ some (true, t')
    → (refuses ≡ false) × (m ≡ some (true, t'))
passed true t m h = cc
passed false t m h = (refl, h)

index_of-split :
    (c : ℕ) (s : Bytes) (k : ℕ)
    → index_of c s ≡ some k
    → (xs : Bytes) × (ys : Bytes) × (s ≡ xs ++ c ∷ ys) × All (λ x. x ≢ c) xs × (k ≡ length xs)
index_of-split c [] k h = cc
index_of-split c (x ∷ s) k h = elim (Bool-cases (x == c)) [
  | inl here ↦ ([], s, ap (λ y. y ∷ s) (ground (arith, here)), tt, ground (arith, h, here))
  | inr other ↦ elim (Option-cases (index_of c s)) [
    | inl lost ↦ absurd (no_fault (rw (other, lost) at h))
    | inr (n, found) ↦
        let (xs, ys, at, clean, place) = index_of-split c s n found in
        (
          x ∷ xs,
          ys,
          ap (◌∷◌ x) at,
          ((λ e. ground (arith, other, e)), clean),
          ground (arith, place, (rw (other, found) at h)),
        )
  ]
]

npos_found : (npos == npos) ≡ false → ⊥
npos_found h = ground arith

-- A character that `find` has found.
pub find_char-split :
    (c : ℕ) (text rest : Bytes) (from : ℕ)
    → (find_char (view_of text rest) c from == npos) ≡ false
    → (xs : Bytes) × (ys : Bytes) × (drop from text ≡ xs ++ c ∷ ys)
      × All (λ x. x ≢ c) xs
      × (find_char (view_of text rest) c from ≡ from + length xs)
find_char-split c text rest from h = elim (Option-cases (index_of c (drop from text))) [
  | inl lost ↦ absurd (npos_found (rw (chars-view_of text rest, lost) at h))
  | inr (k, found) ↦
      let (xs, ys, at, clean, place) = index_of-split c (drop from text) k found in
      (xs, ys, at, clean, rw (chars-view_of text rest, found) (ap (λ n. from + n) place))
]

-- The loop of `SubstringToInt` only passes digits.
pub to_int_loop-All :
    (mem : Bytes) (i : ℕ) (x z : ℤ) (xs ys : Bytes)
    → drop i mem ≡ xs ++ ys
    → to_int_loop mem (length xs) i x ≡ some (true, z)
    → All IsDigit xs
unfolding to_int_loop
to_int_loop-All mem i x z [] ys at h = tt
to_int_loop-All mem i x z (c ∷ xs) ys at h =
    let (digit, rest) =
      passed (ltb c b'0' || ltb b'9' c) x
        (to_int_loop mem (length xs) (i + 1) (add_int (mul_int x 10) (pos (c - b'0'))))
        (rw (get_elem?-drop mem i at) at h) in
    (
      ground (arith, digit),
      to_int_loop-All mem (i + 1) (add_int (mul_int x 10) (pos (c - b'0'))) z xs ys
          (drop_next mem i at) rest,
    )

module _ (body : View) where
  pub number_passed :
      (t t' : Transaction)
      → parse_json_body body t ≡ some (true, t')
      → ((find_char body b',' 10 == npos) ≡ false)
        × (z : ℤ) × (substring_to_int body 10 (find_char body b',' 10) ≡ some (true, z))
        × (parse_tipo body (find_char body b',' 10) (record t { value = z }) ≡ some (true, t'))
  unfolding parse_json_body
  number_passed t t' h =
      let (found, h1) =
        passed
          (ltb (find_char body b'.' 10) (find_char body b',' 10) || find_char body b',' 10 == npos)
          t _ h in
      elim (Option-cases (substring_to_int body 10 (find_char body b',' 10))) [
        | inl fault ↦ absurd (no_fault (rw fault at h1))
        | inr ((false, z), digits) ↦ absurd (not_refused (rw digits at h1))
        | inr ((true, z), digits) ↦ (ground (arith, found), z, digits, rw digits at h1)
      ]

  pub tipo_passed :
      (comma : ℕ) (t t' : Transaction)
      → parse_tipo body comma t ≡ some (true, t')
      → (c : ℕ) × (char_at body (add_size comma 11) ≡ some c)
        × ((c ≡ b'c') ⊎ (c ≡ b'd'))
        × (t1 : Transaction) × (parse_description body (add_size comma 11) t1 ≡ some (true, t'))
  unfolding parse_tipo
  tipo_passed comma t t' h = elim (Option-cases (char_at body (add_size comma 11))) [
    | inl fault ↦ absurd (no_fault (rw fault at h))
    | inr (c, at) ↦
        let (known, h2) = passed (not (c == b'c') && not (c == b'd')) t _ (rw at at h) in
        (c, at, ground (arith, known), _, h2)
  ]

  pub description_passed :
      (tipo_idx : ℕ) (t t' : Transaction)
      → parse_description body tipo_idx t ≡ some (true, t')
      → let start = add_size tipo_idx 18 in
        let end = find_char body b'"' start in
        ((end == npos) ≡ false)
        × (add_size end 2 ≡ body.size)
        × (char_at body (end + 1) ≡ some b'}')
        × (1 ≤ sub_size end start)
        × (sub_size end start ≤ 10)
  unfolding parse_description
  description_passed tipo_idx t t' h =
      let start = add_size tipo_idx 18 in
      let end = find_char body b'"' start in
      let (found, h1) = passed (end == npos) t _ h in
      let (ends, h2) = passed (not (add_size end 2 == body.size)) t _ h1 in
      elim (Option-cases (char_at body (end + 1))) [
        | inl fault ↦ absurd (no_fault (rw fault at h2))
        | inr (c, at) ↦
            let (brace, h4) = passed (not (c == b'}')) t _ (rw at at h2) in
            let (few, h5) =
              passed (ltb 10 (sub_size end start) || ltb (sub_size end start) 1) t _ h4 in
            (
              found,
              ground (arith, ends),
              at ∙ ap some (ground (arith, brace)),
              ground (arith, few),
              ground (arith, few),
            )
      ]
