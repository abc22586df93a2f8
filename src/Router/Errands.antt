-- ===== src/Router/Errands.antt =====
-- Counting over the errands of the threads of the router at a queue.
use rinha.Prelude.{
  ℕ, zero, suc, ◌+◌, ◌≤◌, ◌<◌, ◌≡◌, ◌≢◌, refl, ap, ◌∙◌, ◌⊎◌, inl, inr, some, List, [], ◌∷◌, ◌==◌,
  if◌then◌else◌, length, length-append, get_elem?, get_elem?-set_ne, set, arith,
}
use rinha.Router.Proxy.{count, count-append}
use rinha.Router.Tickets.{Errand, giving, held_by, promised, remove}

pub count-promised :
    (hands : List Errand) (i x : ℕ) (h h' : Errand)
    → get_elem? hands i ≡ some h
    → count x (promised (set hands i h')) + count x (held_by h)
      ≡ count x (promised hands) + count x (held_by h')
count-promised [] i x h h' e = cc
count-promised (g ∷ hands) zero x h h' e =
    let same : g ≡ h = cc in
    omega (
      arith,
      count-append x (held_by h') (promised hands),
      count-append x (held_by g) (promised hands),
      ap (λ y. count x (held_by y)) same,
    )
count-promised (g ∷ hands) (suc i) x h h' e = omega (
  arith,
  count-append x (held_by g) (promised hands),
  count-append x (held_by g) (promised (set hands i h')),
  count-promised hands i x h h' e,
)

pub length-promised :
    (hands : List Errand) (i : ℕ) (h h' : Errand)
    → get_elem? hands i ≡ some h
    → length (promised (set hands i h')) + length (held_by h)
      ≡ length (promised hands) + length (held_by h')
length-promised [] i h h' e = cc
length-promised (g ∷ hands) zero h h' e =
    let same : g ≡ h = cc in
    omega (
      arith,
      length-append (held_by h') (promised hands),
      length-append (held_by g) (promised hands),
      ap (λ y. length (held_by y)) same,
    )
length-promised (g ∷ hands) (suc i) h h' e = omega (
  arith,
  length-append (held_by g) (promised hands),
  length-append (held_by g) (promised (set hands i h')),
  length-promised hands i h h' e,
)

pub count-remove :
    (u x : ℕ) (vs : List ℕ)
    → 1 ≤ count u vs
    → count x vs ≡ count x (remove u vs) + (if u == x then 1 else 0)
count-remove u x [] h = absurd (omega arith)
count-remove u x (v ∷ vs) h = ground (arith, count-remove u x vs)

pub length-remove : (u : ℕ) (vs : List ℕ) → 1 ≤ count u vs → length vs ≡ length (remove u vs) + 1
length-remove u [] h = absurd (omega arith)
length-remove u (v ∷ vs) h = ground (arith, length-remove u vs)

-- A hand of the other threads, or the one that was put there.
pub hand_cases :
    (hands : List Errand) (i j : ℕ) (h h' : Errand)
    → get_elem? (set hands i h) j ≡ some h'
    → ((j ≡ i) × (h ≡ h')) ⊎ (get_elem? hands j ≡ some h')
hand_cases [] i j h h' e = inr e
hand_cases (g ∷ hands) zero zero h h' e = inl (refl, cc)
hand_cases (g ∷ hands) zero (suc j) h h' e = inr e
hand_cases (g ∷ hands) (suc i) zero h h' e = inr e
hand_cases (g ∷ hands) (suc i) (suc j) h h' e = elim (hand_cases hands i j h h' e) [
  | inl (same, it) ↦ inl (ap suc same, it)
  | inr other ↦ inr other
]

pub same_hand :
    (hands : List Errand) (i j : ℕ) (g h : Errand)
    → get_elem? hands i ≡ some g
    → get_elem? hands j ≡ some h
    → i ≡ j
    → g ≡ h
same_hand hands i j g h at_i at_j e =
    let here : get_elem? hands i ≡ get_elem? hands j = ap (get_elem? hands) e in cc

pub other_hand :
    (hands : List Errand) (i j : ℕ) (g h h' : Errand)
    → get_elem? hands i ≡ some g
    → get_elem? hands j ≡ some h
    → g ≢ h
    → get_elem? (set hands i h') j ≡ some h
other_hand hands i j g h h' at_i at_j differ =
    get_elem?-set_ne hands i j h' (λ (e : i ≡ j). differ (same_hand hands i j g h at_i at_j e))
    ∙ at_j

-- A place that another thread is to write is still to be written by it.
pub still_giving :
    {P : Type 0} (hands : List Errand) (i : ℕ) (g h' : Errand) (k u : ℕ)
    → get_elem? hands i ≡ some g
    → g ≢ giving k u
    → P ⊎ ((j : ℕ) × (get_elem? hands j ≡ some (giving k u)))
    → P ⊎ ((j : ℕ) × (get_elem? (set hands i h') j ≡ some (giving k u)))
still_giving hands i g h' k u mine differ (inl place) = inl place
still_giving hands i g h' k u mine differ (inr (j, other)) =
    inr (j, other_hand hands i j g (giving k u) h' mine other differ)

pub in_range : {A : Type 0} (xs : List A) (i : ℕ) {v : A} → get_elem? xs i ≡ some v → i < length xs
in_range [] i h = cc
in_range (x ∷ xs) zero h = omega arith
in_range (x ∷ xs) (suc i) h = omega (arith, in_range xs i h)
