-- ===== src/RequestProcessor/Numbers.antt =====
-- `WriteNumberToString` prints a number right-aligned into blanks.
use rinha.Prelude.{
  ℕ, zero, suc, ◌+◌, ◌-◌, ◌*◌, ◌/◌, ◌%◌, ◌^◌, ◌≤◌, ◌<◌, ◌≡◌, ◌≢◌, refl, ap, sym, ◌∙◌, inl, inr, ℤ,
  pos, negsuc, pos_part, neg_int, neg_int_id, neg, decimal, digits, digits_before, some, [], ◌∷◌,
  ◌++◌, append_assoc, ◌>>=◌, Bytes, ltb, if◌then◌else◌, length, length-append, length-replicate,
  replicate, write_at, write_at-front, arith, Bool-cases, FitsInt,
}
use native.Mathlib.Decide.{dec_lt}
use rinha.RequestProcessor.{digits_loop, write_sign, write_number_to_string}

-- How many digits a number has.
width : ℕ → ℕ → ℕ
width zero n = 1
width (suc f) n = let rest = suc (width f (n / 10)) in if ltb n 10 then 1 else rest

tens : ℕ → ℕ
tens zero = 1
tens (suc k) = 10 * tens k

width-le : (k f n : ℕ) → n < tens (suc k) → width f n ≤ suc k
unfolding width tens
width-le zero zero n h = omega arith
width-le zero (suc f) n h = ground arith
width-le (suc k) zero n h = omega arith
width-le (suc k) (suc f) n h = ground (arith, width-le k f (n / 10) (omega arith))

length-digits_before :
    (f n : ℕ) (out : Bytes) → length (digits_before f n out) ≡ width f n + length out
unfolding digits_before width
length-digits_before zero n out = omega arith
length-digits_before (suc f) n out =
    ground (arith, length-digits_before f (n / 10) ((b'0' + n % 10) ∷ out))

digits_before-append : (f n : ℕ) (out : Bytes) → digits_before f n out ≡ digits_before f n [] ++ out
unfolding digits_before
digits_before-append zero n out = refl
digits_before-append (suc f) n out = elim (Bool-cases (ltb n 10)) [
  | inl last ↦ rw last
  | inr more ↦
      rw
        (
          more,
          digits_before-append f (n / 10) ((b'0' + n % 10) ∷ out),
          digits_before-append f (n / 10) ((b'0' + n % 10) ∷ []),
        )
        (sym (append_assoc (digits_before f (n / 10) []) ((b'0' + n % 10) ∷ []) out))
]

replicate-snoc : (k v : ℕ) (out : Bytes) → replicate (suc k) v ++ out ≡ replicate k v ++ (v ∷ out)
replicate-snoc zero v out = refl
replicate-snoc (suc k) v out = ap (◌∷◌ v) (replicate-snoc k v out)

-- A write to the last of some blanks.
write_last :
    (pre : Bytes) (k : ℕ) (out : Bytes) (c i : ℕ)
    → i ≡ length pre + k
    → write_at (pre ++ (replicate (suc k) 32 ++ out)) i c
      ≡ some (pre ++ (replicate k 32 ++ (c ∷ out)))
write_last pre k out c i e =
    ap (λ s. write_at (pre ++ s) i c) (replicate-snoc k 32 out)
    ∙ ap (λ s. write_at s i c) (sym (append_assoc pre (replicate k 32) (32 ∷ out)))
    ∙ write_at-front (pre ++ replicate k 32) out 32 c i
        (omega (arith, e, length-append pre (replicate k 32), length-replicate {A = ℕ} k 32))
    ∙ ap some (append_assoc pre (replicate k 32) (c ∷ out))

digits_loop_end : (f : ℕ) (str : Bytes) (next : ℕ) → digits_loop f 0 str next ≡ some (str, next)
unfolding digits_loop
digits_loop_end zero str next = refl
digits_loop_end (suc f) str next = refl

-- A round over at least one blank.
digits_round :
    (f n j next d : ℕ) (pre out : Bytes)
    → next ≡ suc (length pre + j)
    → d ≡ b'0' + suc n % 10
    → digits_loop (suc f) (suc n) (pre ++ (replicate (suc j) 32 ++ out)) next
      ≡ digits_loop f (suc n / 10) (pre ++ (replicate j 32 ++ (d ∷ out))) (length pre + j)
unfolding digits_loop
digits_round f n j next d pre out e digit =
    let same : suc n % 10 + b'0' ≡ d = omega arith in
    rw (e, same)
      (ap (λ m. m >>= λ str. digits_loop f (suc n / 10) str (length pre + j))
        (write_last pre j out d (length pre + j) refl))

-- The loop puts the digits over the last blanks.
digits_loop-blanks :
    (f n k m : ℕ) (pre out : Bytes)
    → 0 < n
    → n ≤ f
    → k ≡ m + width f n
    → digits_loop f n (pre ++ (replicate k 32 ++ out)) (length pre + k)
      ≡ some (pre ++ (replicate m 32 ++ digits_before f n out), length pre + m)
unfolding digits_before width
digits_loop-blanks zero n k m pre out some_n enough e = absurd (omega arith)
digits_loop-blanks (suc f) zero k m pre out some_n enough e = absurd (omega arith)
digits_loop-blanks (suc f) (suc n) k m pre out some_n enough e =
    elim (Bool-cases (ltb (suc n) 10)) [
      | inl last ↦
          let one : k ≡ suc m = rw (last) at e ∙ omega arith in
          let none_left : suc n / 10 ≡ 0 = ground arith in
          rw (last, one)
            (digits_round f n m (length pre + suc m) (b'0' + suc n) pre out (omega arith)
                (ground arith)
              ∙ rw none_left (digits_loop_end f _ _))
      | inr more ↦
          let wider : k ≡ suc (m + width f (suc n / 10)) = (rw (more) at e) ∙ omega arith in
          rw (more, wider)
            (digits_round f n (m + width f (suc n / 10))
                (length pre + suc (m + width f (suc n / 10))) (b'0' + suc n % 10) pre out
                (omega arith) refl
              ∙ digits_loop-blanks f (suc n / 10) (m + width f (suc n / 10)) m pre
                  ((b'0' + suc n % 10) ∷ out) (ground arith) (omega arith) refl)
    ]

-- A text at the right end of `k` places.
abbrev pub pad : ℕ → Bytes → Bytes
pad k s = replicate (k - length s) 32 ++ s

-- At most ten digits.
width-int : (n : ℕ) → n ≤ 2 ^ 31 - 1 → width n n ≤ 10
unfolding tens
width-int n h = width-le 9 n n (omega arith)

digits_padded :
    (n k : ℕ) (pre post : Bytes)
    → 0 < n
    → n ≤ 2 ^ 31 - 1
    → 11 ≤ k
    → (m : ℕ) × (digits_loop n n (pre ++ (replicate k 32 ++ post)) (length pre + k)
        ≡ some (pre ++ (replicate (suc m) 32 ++ (digits n ++ post)), length pre + suc m))
      × (suc m + length (digits n) ≡ k)
unfolding digits
digits_padded n k pre post some_n small wide =
    let w = width-int n small in
    let l : length (digits_before n n []) ≡ width n n = length-digits_before n n [] ∙ omega arith in
    let m : ℕ = k - width n n - 1 in
    (
      m,
      digits_loop-blanks n n k (suc m) pre post some_n (omega arith) (omega arith)
          ∙ ap (λ s. some (pre ++ (replicate (suc m) 32 ++ s), length pre + suc m))
              (digits_before-append n n post),
      omega arith,
    )

neg_negsuc : (n : ℕ) → neg (negsuc n) ≡ pos (suc n)
unfolding neg
neg_negsuc n = ground arith

opposite : (n : ℕ) → n < 2 ^ 31 - 1 → pos_part (neg_int (negsuc n)) ≡ suc n
opposite n h = ap pos_part (neg_int_id (negsuc n) (rw (neg_negsuc n) (omega arith)) ∙ neg_negsuc n)

write_sign_last :
    (m next : ℕ) (pre out : Bytes)
    → next ≡ length pre + suc m
    → write_sign (pre ++ (replicate (suc m) 32 ++ out)) next
      ≡ some (pre ++ (replicate m 32 ++ (b'-' ∷ out)))
unfolding write_sign
write_sign_last m next pre out e =
    let e' : next ≡ suc (length pre + m) = omega arith in rw e' (write_last pre m out b'-' _ refl)

not_least : (n : ℕ) → negsuc n ≢ negsuc (2 ^ 31 - 1) → n ≤ 2 ^ 31 - 1 → n < 2 ^ 31 - 1
not_least n h fits = elim (dec_lt n (2 ^ 31 - 1)) [
  | yes lt ↦ lt
  | no ge ↦ absurd (h (ap negsuc (omega arith)))
]

pad_zero :
    (k end_idx : ℕ) (pre post : Bytes)
    → end_idx + 1 ≡ length pre + k
    → 11 ≤ k
    → write_at (pre ++ (replicate k 32 ++ post)) end_idx b'0'
      ≡ some (pre ++ (pad k (b'0' ∷ []) ++ post))
pad_zero k end_idx pre post place wide =
    let one : k ≡ suc (k - 1) = omega arith in
    let left : suc (k - 1) - 1 ≡ k - 1 = omega arith in
    rw (one, left)
      (write_last pre (k - 1) post b'0' end_idx (omega arith)
        ∙ ap (λ s. some (pre ++ s)) (sym (append_assoc (replicate (k - 1) 32) (b'0' ∷ []) post)))

pad_positive :
    (n k end_idx : ℕ) (pre post : Bytes)
    → suc n ≤ 2 ^ 31 - 1
    → end_idx + 1 ≡ length pre + k
    → 11 ≤ k
    → write_number_to_string (pos (suc n)) (pre ++ (replicate k 32 ++ post)) end_idx
      ≡ some (pre ++ (pad k (digits (suc n)) ++ post))
unfolding write_number_to_string
pad_positive n k end_idx pre post fits place wide =
    let (m, loop, total) = digits_padded (suc n) k pre post (omega arith) fits wide in
    let left : k - length (digits (suc n)) ≡ suc m = omega arith in
    rw (place, loop, left)
      (ap (λ s. some (pre ++ s)) (sym (append_assoc (replicate (suc m) 32) (digits (suc n)) post)))

pad_negative :
    (n k end_idx : ℕ) (pre post : Bytes)
    → n < 2 ^ 31 - 1
    → end_idx + 1 ≡ length pre + k
    → 11 ≤ k
    → write_number_to_string (negsuc n) (pre ++ (replicate k 32 ++ post)) end_idx
      ≡ some (pre ++ (pad k (b'-' ∷ digits (suc n)) ++ post))
unfolding write_number_to_string
pad_negative n k end_idx pre post fits place wide =
    let (m, loop, total) = digits_padded (suc n) k pre post (omega arith) (omega arith) wide in
    let left : k - suc (length (digits (suc n))) ≡ m = omega arith in
    rw (opposite n fits, place, loop, left)
      (write_sign_last m _ pre (digits (suc n) ++ post) refl
        ∙ ap (λ s. some (pre ++ s))
            (sym (append_assoc (replicate m 32) (b'-' ∷ digits (suc n)) post)))

-- `WriteNumberToString` over eleven blanks or more leaves the decimal text right-aligned, for every
-- `int` but the least one, and changes no other byte.
pub write_number_to_string-pad :
    (z : ℤ) (k end_idx : ℕ) (pre post : Bytes)
    → FitsInt z
    → z ≢ negsuc (2 ^ 31 - 1)
    → end_idx + 1 ≡ length pre + k
    → 11 ≤ k
    → write_number_to_string z (pre ++ (replicate k 32 ++ post)) end_idx
      ≡ some (pre ++ (pad k (decimal z) ++ post))
unfolding write_number_to_string decimal digits digits_before
write_number_to_string-pad (pos zero) k end_idx pre post fits least place wide =
    pad_zero k end_idx pre post place wide
write_number_to_string-pad (pos (suc n)) k end_idx pre post fits least place wide =
    pad_positive n k end_idx pre post (omega arith) place wide
write_number_to_string-pad (negsuc n) k end_idx pre post fits least place wide =
    pad_negative n k end_idx pre post (not_least n least (omega arith)) place wide

-- An `int` has at most eleven characters, so it fits the field.
pub length-pad :
    (z : ℤ) (k : ℕ) → FitsInt z → z ≢ negsuc (2 ^ 31 - 1) → 11 ≤ k → length (pad k (decimal z)) ≡ k
unfolding decimal digits
length-pad (pos n) k fits least wide =
    let w = width-int n (omega arith) in
    omega (
      arith,
      length-append (replicate (k - length (digits n)) 32) (digits n),
      length-replicate {A = ℕ} (k - length (digits n)) 32,
      length-digits_before n n [],
    )
length-pad (negsuc n) k fits least wide =
    let w = width-int (suc n) (not_least n least (omega arith)) in
    omega (
      arith,
      length-append (replicate (k - suc (length (digits (suc n)))) 32) (b'-' ∷ digits (suc n)),
      length-replicate {A = ℕ} (k - suc (length (digits (suc n)))) 32,
      length-digits_before (suc n) (suc n) [],
    )
