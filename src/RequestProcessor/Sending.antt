-- ===== src/RequestProcessor/Sending.antt =====
-- The loop that writes a response to a client.
use rinha.Prelude.{
  ℕ, zero, suc, ◌≤◌, ◌≡◌, refl, ap, sym, ◌∙◌, Bool, true, false, not, ◌⊎◌, inl, inr, Option, none,
  some, [], ◌∷◌, ◌++◌, append_assoc, append-nil, Bytes, length, take, drop, take-drop, arith,
}
use rinha.Prelude.Stateful.{>>=-some}
use rinha.Os.{Os, Written, count, error}
use rinha.RequestProcessor.{write_loop, send_response}

length-drop-le : (n : ℕ) (s : Bytes) → length (drop n s) ≤ length s
length-drop-le zero s = omega arith
length-drop-le (suc n) [] = omega arith
length-drop-le (suc n) (b ∷ s) = omega (arith, length-drop-le n s)

-- What a descriptor has taken so far: a `write` takes a beginning of its bytes, or nothing.
pub record Sink {W : Type 0} (os : Os W) (fd : ℕ) : Type 0 where
  pub taken : W → Bytes
  pub on_write :
      (s : Bytes) (w : W) (n : ℕ)
      → (os.write fd s w).0 ≡ count n
      → taken (os.write fd s w).1 ≡ taken w ++ take n s
  pub on_error :
      (s : Bytes) (w : W) (again : Bool)
      → (os.write fd s w).0 ≡ error again
      → taken (os.write fd s w).1 ≡ taken w
  pub on_close : (w : W) → taken (os.close fd w) ≡ taken w

Written-cases : (r : Written) → ((n : ℕ) × (r ≡ count n)) ⊎ ((again : Bool) × (r ≡ error again))
Written-cases (count n) = inl (n, refl)
Written-cases (error again) = inr (again, refl)

module _ {W : Type 0} (os : Os W) (fd : ℕ) (sink : Sink os fd) where
  open sink use {taken}

  -- How the loop ends: the sink took what is no longer left, in order.
  abbrev Sent : Bytes → W → Option ((Bytes × Bool) × W) → Type 0
  Sent s w none = ⊥
  Sent s w (some ((left, closed), w')) =
      (front : Bytes) × (s ≡ front ++ left) × (taken w' ≡ taken w ++ front)

  Sent-nothing :
      (s : Bytes) (w w' : W) (closed : Bool)
      → taken w' ≡ taken w
      → Sent s w (some ((s, closed), w'))
  Sent-nothing s w w' closed same = ([], refl, same ∙ sym (append-nil (taken w)))

  Sent-after :
      (n : ℕ) (s : Bytes) (w w1 : W) (r : Option ((Bytes × Bool) × W))
      → taken w1 ≡ taken w ++ take n s
      → Sent (drop n s) w1 r
      → Sent s w r
  Sent-after n s w w1 none more h = h
  Sent-after n s w w1 (some ((left, closed), w')) more (front, split, got) = (
    take n s ++ front,
    sym (take-drop n s) ∙ ap (◌++◌ (take n s)) split ∙ sym (append_assoc (take n s) front left),
    got ∙ ap (λ t. t ++ front) more ∙ append_assoc (taken w) (take n s) front,
  )

  write_loop-Sent :
      (fuel : ℕ) (s : Bytes) (w : W) → length s ≤ fuel → Sent s w (write_loop os fuel fd s w)
  unfolding write_loop
  write_loop-Sent zero [] w h = Sent-nothing [] w w false refl
  write_loop-Sent zero (b ∷ s) w h = absurd (omega arith)
  write_loop-Sent (suc fuel) [] w h = Sent-nothing [] w w false refl
  write_loop-Sent (suc fuel) (b ∷ s) w h = elim (Written-cases (os.write fd (b ∷ s) w).0) [
    | inl (zero, e) ↦
        rw (e, write_loop)
          (Sent-nothing (b ∷ s) w _ true (sink.on_write (b ∷ s) w 0 e ∙ append-nil (taken w)))
    | inl (suc n, e) ↦
        rw (e, write_loop)
          (Sent-after (suc n) (b ∷ s) w _ _ (sink.on_write (b ∷ s) w (suc n) e)
            (write_loop-Sent fuel (drop n s) _ (omega (arith, length-drop-le n s))))
    | inr (again, e) ↦
        rw (e, write_loop) (Sent-nothing (b ∷ s) w _ (not again) (sink.on_error (b ∷ s) w again e))
  ]

  send_closed :
      (s : Bytes) (w : W) (r : Option ((Bytes × Bool) × W))
      → r ≡ write_loop os (length s) fd s w
      → Sent s w r
      → (left front : Bytes) × (w' : W) × (send_response os fd s w ≡ some (left, w'))
        × (s ≡ front ++ left)
        × (taken w' ≡ taken w ++ front)
  unfolding send_response
  send_closed s w none e h = absurd h
  send_closed s w (some ((left, false), w')) e (front, split, got) =
      (left, front, w', (>>=-some (write_loop os (length s) fd s) _ (sym e)), split, got)
  send_closed s w (some ((left, true), w')) e (front, split, got) = (
    left,
    front,
    os.close fd w',
    (>>=-some (write_loop os (length s) fd s) _ (sym e)),
    split,
    sink.on_close w' ∙ got,
  )

  -- Where a write takes a beginning of its bytes, the loop ends whatever the writes return: the client has got a beginning of the response, in
  -- order and once, and what is left is the rest.
  pub send_response-taken :
      (s : Bytes) (w : W)
      → (left front : Bytes) × (w' : W) × (send_response os fd s w ≡ some (left, w'))
        × (s ≡ front ++ left)
        × (taken w' ≡ taken w ++ front)
  send_response-taken s w = send_closed s w _ refl (write_loop-Sent (length s) s w (omega arith))

module _ {W : Type 0} (os : Os W) (fd : ℕ) (sink : Sink os fd)
    (takes : (s : Bytes) (w : W)
      → 1 ≤ length s
      → (n : ℕ) × ((os.write fd s w).0 ≡ count (suc n))) where
  open sink use {taken}

  write_loop-all :
      (fuel : ℕ) (s : Bytes) (w : W)
      → length s ≤ fuel
      → (w' : W) × (write_loop os fuel fd s w ≡ some (([], false), w')) × (taken w' ≡ taken w ++ s)
  unfolding write_loop
  write_loop-all zero [] w h = (w, refl, sym (append-nil (taken w)))
  write_loop-all zero (b ∷ s) w h = absurd (omega arith)
  write_loop-all (suc fuel) [] w h = (w, refl, sym (append-nil (taken w)))
  write_loop-all (suc fuel) (b ∷ s) w h =
      let (n, e) = takes (b ∷ s) w (omega arith) in
      let (w', runs, got) =
        write_loop-all fuel (drop n s) (os.write fd (b ∷ s) w).1
          (omega (arith, length-drop-le n s)) in
      (
        w',
        rw (e, write_loop) runs,
        got
            ∙ ap (λ t. t ++ drop n s) (sink.on_write (b ∷ s) w (suc n) e)
            ∙ append_assoc (taken w) (take (suc n) (b ∷ s)) (drop n s)
            ∙ ap (◌++◌ (taken w)) (take-drop (suc n) (b ∷ s)),
      )

  -- Where every write of some bytes takes a beginning of them, at least one byte, the client gets the whole response, in
  -- order and once, however the writes cut it, and the connection stays open.
  pub send_response-all :
      (s : Bytes) (w : W)
      → (w' : W) × (send_response os fd s w ≡ some ([], w')) × (taken w' ≡ taken w ++ s)
  unfolding send_response
  send_response-all s w =
      let (w', runs, got) = write_loop-all (length s) s w (omega arith) in
      (w', >>=-some (write_loop os (length s) fd s) _ runs, got)

-- What no `write` changes is after the loop what it was before it.
module _ {W A : Type 0} (os : Os W) (fd : ℕ) (f : W → A)
    (takes : (s : Bytes) (w : W) → 1 ≤ length s → (n : ℕ) × ((os.write fd s w).0 ≡ count (suc n)))
    (keeps : (s : Bytes) (w : W) → f (os.write fd s w).1 ≡ f w) where
  write_loop-kept :
      (fuel : ℕ) (s : Bytes) (w : W)
      → length s ≤ fuel
      → (w' : W) × (write_loop os fuel fd s w ≡ some (([], false), w')) × (f w' ≡ f w)
  unfolding write_loop
  write_loop-kept zero [] w h = (w, refl, refl)
  write_loop-kept zero (b ∷ s) w h = absurd (omega arith)
  write_loop-kept (suc fuel) [] w h = (w, refl, refl)
  write_loop-kept (suc fuel) (b ∷ s) w h =
      let (n, e) = takes (b ∷ s) w (omega arith) in
      let (w', runs, same) =
        write_loop-kept fuel (drop n s) (os.write fd (b ∷ s) w).1
          (omega (arith, length-drop-le n s)) in
      (w', rw (e, write_loop) runs, same ∙ keeps (b ∷ s) w)

  pub send_response-kept :
      (s : Bytes) (w : W) {w' : W} → send_response os fd s w ≡ some ([], w') → f w' ≡ f w
  unfolding send_response
  send_response-kept s w {w'} sent =
      let (w2, runs, same) = write_loop-kept (length s) s w (omega arith) in
      let ends = >>=-some (write_loop os (length s) fd s) _ runs in
      let it : ◌≡◌ {A = Option (Bytes × W)} (some ([], w2)) (some ([], w')) = sym ends ∙ sent in
      let world : w2 ≡ w' = cc in ap f (sym world) ∙ same
