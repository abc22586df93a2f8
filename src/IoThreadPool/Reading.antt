-- ===== src/IoThreadPool/Reading.antt =====
-- How a thread of the server reads the bytes of a client into its buffer.
use rinha.Prelude.{
  ℕ, zero, suc, ◌+◌, ◌-◌, ◌≤◌, ◌≡◌, refl, ap, ap₂, sym, ◌∙◌, ◌⊎◌, inl, inr, Bool, true, false, some,
  [], ◌∷◌, ◌++◌, Bytes, append_assoc, length, length-append, length-drop, length-take, take, drop,
  take-drop, take-front, arith,
}
use rinha.Os.{Os, Source}
use rinha.FromHttp.Positions.{drop-drop}
use rinha.IoThreadPool.{k_buffer_writtable_size, k_buffer_total_size, overwrite, read_loop}

drop-append_ge : (xs ys : Bytes) (n k : ℕ) → n ≡ length xs + k → drop n (xs ++ ys) ≡ drop k ys
drop-append_ge [] ys n k e = ap (λ i. drop i ys) (omega arith)
drop-append_ge (x ∷ xs) ys zero k e = absurd (omega arith)
drop-append_ge (x ∷ xs) ys (suc n) k e = drop-append_ge xs ys n k (omega arith)

-- Bytes behind bytes.
overwrite-overwrite :
    (buffer s r : Bytes) (at : ℕ)
    → at ≤ length buffer
    → overwrite (overwrite buffer at s) (at + length s) r ≡ overwrite buffer at (s ++ r)
overwrite-overwrite buffer s r at h =
    let front : length (take at buffer ++ s) ≡ at + length s =
      length-append (take at buffer) s ∙ ap (λ n. n + length s) (length-take at buffer h) in
    let whole : overwrite buffer at s ≡ (take at buffer ++ s) ++ drop (at + length s) buffer =
      sym (append_assoc (take at buffer) s (drop (at + length s) buffer)) in
    ap₂ (λ x y. x ++ (r ++ y))
      (ap (take (at + length s)) whole ∙ take-front (take at buffer ++ s) _ _ (sym front))
      (ap (drop (at + length s + length r)) whole
        ∙ drop-append_ge (take at buffer ++ s) _ _ (length r) (omega (arith, front))
        ∙ sym (drop-drop buffer (at + length s) (length r))
        ∙ ap (λ n. drop n buffer) (omega (arith, length-append s r)))
    ∙ append_assoc (take at buffer) s (r ++ drop (at + length (s ++ r)) buffer)
    ∙ ap (λ x. take at buffer ++ x) (sym (append_assoc s r (drop (at + length (s ++ r)) buffer)))

overwrite-nothing : (buffer : Bytes) (at : ℕ) → overwrite buffer at [] ≡ buffer
overwrite-nothing buffer at =
    ap (λ n. take at buffer ++ drop n buffer) (omega arith) ∙ take-drop at buffer

pub length-overwrite :
    (buffer s : Bytes) (at : ℕ)
    → at + length s ≤ length buffer
    → length (overwrite buffer at s) ≡ length buffer
length-overwrite buffer s at h = omega (
  arith,
  length-append (take at buffer) (s ++ drop (at + length s) buffer),
  length-append s (drop (at + length s) buffer),
  length-take at buffer (omega arith),
  length-drop (at + length s) buffer,
)

module _ {W : Type 0} (os : Os W) (fd : ℕ) (source : Source os fd) where
  open source use {waiting}

  -- How the loop ends: it has put the first bytes that waited behind the `at` bytes of the buffer, and
  -- stops short of the last only where they fill it.
  unfoldable pub Filled : Bytes → ℕ → W → Bytes → ℕ → Bool → W → Type 0
  Filled buffer at w buffer' count done w' =
      (got : Bytes) × (buffer' ≡ overwrite buffer at got)
      × (count ≡ at + length got)
      × (count ≤ k_buffer_writtable_size)
      × (waiting w ≡ got ++ waiting w')
      × ((count ≡ k_buffer_writtable_size) × (done ≡ true) ⊎ (length (waiting w') ≡ 0))

  Filled-step :
      (buffer s buffer' : Bytes) (at count : ℕ) (done : Bool) (w w1 w' : W)
      → at ≤ length buffer
      → waiting w ≡ s ++ waiting w1
      → Filled (overwrite buffer at s) (at + length s) w1 buffer' count done w'
      → Filled buffer at w buffer' count done w'
  unfolding Filled
  Filled-step buffer s buffer' at count done w w1 w' room split (got, text, total, few, left, end) =
      (
        s ++ got,
        text ∙ overwrite-overwrite buffer s got at room,
        omega (arith, total, length-append s got),
        few,
        split ∙ ap (λ r. s ++ r) left ∙ sym (append_assoc s got (waiting w')),
        end,
      )

  Filled-nothing :
      (buffer : Bytes) (at : ℕ) (done : Bool) (w w' : W)
      → waiting w ≡ waiting w'
      → at ≤ k_buffer_writtable_size
      → (at ≡ k_buffer_writtable_size) × (done ≡ true) ⊎ (length (waiting w') ≡ 0)
      → Filled buffer at w buffer at done w'
  unfolding Filled
  Filled-nothing buffer at done w w' same few end =
      ([], sym (overwrite-nothing buffer at), omega arith, few, same, end)

  full_or_left :
      (at : ℕ) (w w' : W)
      → waiting w ≡ [] ++ waiting w'
      → at ≤ k_buffer_writtable_size
      → (1 ≤ 0) ⊎ (k_buffer_writtable_size - at ≡ 0) ⊎ (length (waiting w) ≡ 0)
      → (at ≡ k_buffer_writtable_size) × (true ≡ true) ⊎ (length (waiting w') ≡ 0)
  full_or_left at w w' same few (inl more) = absurd (omega arith)
  full_or_left at w w' same few (inr (inl full)) = inl (omega arith, refl)
  full_or_left at w w' same few (inr (inr empty)) = inr (ap length (sym same) ∙ empty)

  pub read_loop-Filled :
      (fuel at : ℕ) (buffer : Bytes) (w : W)
      → length buffer ≡ k_buffer_total_size
      → at ≤ k_buffer_writtable_size
      → k_buffer_writtable_size + 1 ≤ at + fuel
      → (buffer' : Bytes) × (count : ℕ) × (done : Bool) × (w' : W) × (read_loop os fuel fd buffer at
            w
          ≡ some ((buffer', count, done), w'))
        × Filled buffer at w buffer' count done w'
  unfolding read_loop
  read_loop-Filled zero at buffer w size few enough = absurd (omega arith)
  read_loop-Filled (suc fuel) at buffer w size few enough =
      elim (source.on_read (k_buffer_writtable_size - at) w) [
        | inl ([], e, split, short, why) ↦ (
          buffer,
          at,
          true,
          (os.read fd (k_buffer_writtable_size - at) w).1,
          rw (e, read_loop) refl,
          Filled-nothing buffer at true w _ split few (full_or_left at w _ split few why),
        )
        | inl (b ∷ s, e, split, short, why) ↦
            let (buffer', count, done, w', runs, filled) =
              read_loop-Filled fuel (at + length (b ∷ s)) (overwrite buffer at (b ∷ s))
                (os.read fd (k_buffer_writtable_size - at) w).1
                (length-overwrite buffer (b ∷ s) at (omega arith) ∙ size) (omega arith)
                (omega arith) in
            (
              buffer',
              count,
              done,
              w',
              rw (e, read_loop) runs,
              Filled-step buffer (b ∷ s) buffer' at count done w _ w' (omega arith) split filled,
            )
        | inr (e, same, none_left) ↦ (
          buffer,
          at,
          false,
          (os.read fd (k_buffer_writtable_size - at) w).1,
          rw (e, read_loop) refl,
          Filled-nothing buffer at false w _ same few (inr (ap length (sym same) ∙ none_left)),
        )
      ]
