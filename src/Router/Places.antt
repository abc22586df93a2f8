-- ===== src/Router/Places.antt =====
-- The places and the counters of a queue of the router.
use rinha.Prelude.{
  ℕ, zero, suc, ◌+◌, ◌%◌, ◌^◌, ◌<◌, ◌≡◌, ◌≢◌, refl, sym, ap, ◌∙◌, ◌⊎◌, inl, inr, ℤ, pos, add_int,
  add_int-one, some, List, [], ◌∷◌, ◌++◌, length, get_elem?, get_elem?-set_ne, set, arith,
  write_at-lt,
}
use rinha.Router.{Available}
use rinha.Router.Tickets.{Errand, giving, count_start, read_place, count_end, write_place}

-- What `fetch_add` gives.
pub count_start-eq :
    (a : Available) (start k : ℕ) (q : Available)
    → a.start_idx ≡ pos start
    → k + 1 < 2 ^ 31
    → count_start a ≡ (pos k, q)
    → (k ≡ start) × (q ≡ record a { start_idx = pos (start + 1) })
unfolding count_start
count_start-eq a start k q e small h =
    let here : pos start ≡ pos k = sym e ∙ ap (λ (r : ℤ × Available). r.0) h in
    let same : k ≡ start = cc in
    (
      same,
      sym (ap (λ (r : ℤ × Available). r.1) h)
          ∙ ap (λ z. record a { start_idx = z })
              (ap (λ z. add_int z (pos 1)) e ∙ add_int-one start (omega (arith, same))),
    )

pub count_end-eq :
    (a : Available) (end k : ℕ) (q : Available)
    → a.end_idx ≡ pos end
    → k + 1 < 2 ^ 31
    → count_end a ≡ (pos k, q)
    → (k ≡ end) × (q ≡ record a { end_idx = pos (end + 1) })
unfolding count_end
count_end-eq a end k q e small h =
    let here : pos end ≡ pos k = sym e ∙ ap (λ (r : ℤ × Available). r.0) h in
    let same : k ≡ end = cc in
    (
      same,
      sym (ap (λ (r : ℤ × Available). r.1) h)
          ∙ ap (λ z. record a { end_idx = z })
              (ap (λ z. add_int z (pos 1)) e ∙ add_int-one end (omega (arith, same))),
    )

-- A place that holds a connection is read.
pub read_place-some :
    (a : Available) (k u : ℕ)
    → get_elem? a.connections (k % 1000) ≡ some (pos u)
    → read_place a (pos k) ≡ some (pos u)
unfolding read_place
read_place-some a k u h = rw h refl

pub write_place-eq :
    (a : Available) (k u : ℕ) (q : Available)
    → length a.connections ≡ 1000
    → write_place a (pos k) (pos u) ≡ some q
    → q ≡ record a { connections = set a.connections (k % 1000) (pos u) }
unfolding write_place
write_place-eq a k u q places h =
    let runs : write_place a (pos k) (pos u)
        ≡ some (record a { connections = set a.connections (k % 1000) (pos u) }) =
      rw (write_at-lt a.connections (k % 1000) (pos u) (omega (arith, places))) refl in
    cc

-- The place `k` holds the connection `u`, or a thread is to write it there.
abbrev pub IsPlaced : List ℤ → List Errand → ℕ → ℕ → Type 0
IsPlaced places hands u k =
    (get_elem? places (k % 1000) ≡ some (pos u))
    ⊎ ((i : ℕ) × (get_elem? hands i ≡ some (giving k u)))

pub tail_entry :
    (n u v : ℕ) (vs rest : List ℕ)
    → vs ≡ u ∷ rest
    → get_elem? vs n ≡ some v
    → (n ≡ 0) ⊎ ((m : ℕ) × (n ≡ suc m) × (get_elem? rest m ≡ some v))
tail_entry zero u v vs rest e h = inl refl
tail_entry (suc m) u v vs rest e h = inr (m, refl, sym (ap (λ ws. get_elem? ws (suc m)) e) ∙ h)

pub snoc_entry :
    (n u v : ℕ) (vs : List ℕ)
    → get_elem? (vs ++ (u ∷ [])) n ≡ some v
    → (get_elem? vs n ≡ some v) ⊎ ((n ≡ length vs) × (u ≡ v))
snoc_entry zero u v [] h = inr (refl, cc)
snoc_entry (suc n) u v [] h = cc
snoc_entry zero u v (w ∷ vs) h = inl h
snoc_entry (suc n) u v (w ∷ vs) h = elim (snoc_entry n u v vs h) [
  | inl inside ↦ inl inside
  | inr (last, same) ↦ inr (ap suc last, same)
]

pub get_elem?-append_left :
    (n : ℕ) (vs ws : List ℕ) {v : ℕ} → get_elem? vs n ≡ some v → get_elem? (vs ++ ws) n ≡ some v
get_elem?-append_left n [] ws h = cc
get_elem?-append_left zero (w ∷ vs) ws h = h
get_elem?-append_left (suc n) (w ∷ vs) ws h = get_elem?-append_left n vs ws h

-- A write to the place `k` leaves another one.
pub set-IsPlaced :
    (places : List ℤ) (hands : List Errand) (k j u v : ℕ)
    → k % 1000 ≢ j % 1000
    → IsPlaced places hands v j
    → IsPlaced (set places (k % 1000) (pos u)) hands v j
set-IsPlaced places hands k j u v apart (inl place) =
    inl (get_elem?-set_ne places (k % 1000) (j % 1000) (pos u) apart ∙ place)
set-IsPlaced places hands k j u v apart (inr giver) = inr giver
