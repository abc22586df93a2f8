-- ===== src/Server/Launch.antt =====
-- The threads of a server start while `main` still makes others, and all take the ids of their connections
-- from one counter (rinha/handler_socket.cc, rinha/thread_pool.cc, rinha/io_thread_pool.cc).
use rinha.Prelude.{
  ℕ, zero, suc, ◌+◌, ◌<◌, ◌^◌, ◌≡◌, ◌≢◌, refl, ap, sym, ◌∙◌, ◌⊎◌, inl, inr, ℤ, pos, add_int,
  add_int-one, Bool, true, false, Option, none, some, List, [], ◌∷◌, ◌++◌, get_elem?, set, arith,
}
use rinha.HandlerSocket.{count_id}

-- How far a thread is: it has no id, the one for its reads, or both.
pub data Progress : Type 0 where
  waiting : Progress
  reading : ℤ → Progress
  connected : ℤ → ℤ → Progress

pub record Launch : Type 0 where
  pub id_count : ℤ
  pub threads : List Progress

-- In any order: `main` makes a thread, and a thread takes its next id, in one atomic step.
pub data LaunchStep : Launch → Launch → Type 0 where
  makes : (s : Launch) → LaunchStep s (record s { threads = s.threads ++ (waiting ∷ []) })
  reads :
      (s : Launch) (i : ℕ)
      → get_elem? s.threads i ≡ some waiting
      → LaunchStep s (record {
        id_count = (count_id s.id_count).1;
        threads = set s.threads i (reading (count_id s.id_count).0);
      })
  writes :
      (s : Launch) (i : ℕ) (read_id : ℤ)
      → get_elem? s.threads i ≡ some (reading read_id)
      → LaunchStep s (record {
        id_count = (count_id s.id_count).1;
        threads = set s.threads i (connected read_id (count_id s.id_count).0);
      })

abbrev pub at_start : Launch
at_start = record { id_count = pos 0; threads = [] }

pub data LaunchReach : Launch → Type 0 where
  start : LaunchReach at_start
  next : {s s' : Launch} → LaunchReach s → LaunchStep s s' → LaunchReach s'

-- The id of a thread for its reads (true) or its writes.
abbrev pub id_at : Progress → Bool → Option ℤ
id_at waiting b = none
id_at (reading k) true = some k
id_at (reading k) false = none
id_at (connected k j) true = some k
id_at (connected k j) false = some j

-- The `count` ids below the counter were given, each once.
pub record IsGiven (s : Launch) (count : ℕ) : Type 0 where
  pub counts : s.id_count ≡ pos count
  pub given :
      (i : ℕ) (t : Progress) (b : Bool) (z : ℤ)
      → get_elem? s.threads i ≡ some t
      → id_at t b ≡ some z
      → (k : ℕ) × (z ≡ pos k) × (k < count)
  pub once :
      (i j : ℕ) (t u : Progress) (b d : Bool) (z : ℤ)
      → get_elem? s.threads i ≡ some t
      → get_elem? s.threads j ≡ some u
      → id_at t b ≡ some z
      → id_at u d ≡ some z
      → (i ≡ j) × (b ≡ d)

set_cases :
    {A : Type 0} (xs : List A) (i j : ℕ) (v w : A)
    → get_elem? (set xs i v) j ≡ some w
    → ((j ≡ i) × (v ≡ w)) ⊎ (get_elem? xs j ≡ some w)
set_cases [] i j v w e = inr e
set_cases (x ∷ xs) zero zero v w e = inl (refl, cc)
set_cases (x ∷ xs) zero (suc j) v w e = inr e
set_cases (x ∷ xs) (suc i) zero v w e = inr e
set_cases (x ∷ xs) (suc i) (suc j) v w e = elim (set_cases xs i j v w e) [
  | inl (same, it) ↦ inl (ap suc same, it)
  | inr other ↦ inr other
]

snoc_cases :
    {A : Type 0} (xs : List A) (i : ℕ) (v w : A)
    → get_elem? (xs ++ (v ∷ [])) i ≡ some w
    → (get_elem? xs i ≡ some w) ⊎ (v ≡ w)
snoc_cases [] zero v w e = inr cc
snoc_cases [] (suc i) v w e = cc
snoc_cases (x ∷ xs) zero v w e = inl e
snoc_cases (x ∷ xs) (suc i) v w e = snoc_cases xs i v w e

-- What a thread has behind its next id: the new one in the place `d`, or one that it had.
abbrev pub Takes : Progress → Progress → Bool → ℤ → Type 0
Takes t t' d new =
    (b : Bool) (z : ℤ) → id_at t' b ≡ some z → ((b ≡ d) × (z ≡ new)) ⊎ (id_at t b ≡ some z)

pub reading-Takes : (k : ℤ) → Takes waiting (reading k) true k
reading-Takes k true z e = inl (refl, cc)
reading-Takes k false z e = cc

pub connected-Takes : (k j : ℤ) → Takes (reading k) (connected k j) false j
connected-Takes k j true z e = inr e
connected-Takes k j false z e = inl (refl, cc)

-- An id behind a step: the new one, or one that some thread had.
slot_cases :
    (threads : List Progress) (i j : ℕ) (t t' u : Progress) (d b : Bool) (new z : ℤ)
    → get_elem? threads i ≡ some t
    → Takes t t' d new
    → get_elem? (set threads i t') j ≡ some u
    → id_at u b ≡ some z
    → ((j ≡ i) × (b ≡ d) × (z ≡ new))
      ⊎ ((v : Progress) × (get_elem? threads j ≡ some v) × (id_at v b ≡ some z))
slot_cases threads i j t t' u d b new z mine takes at is = elim (set_cases threads i j t' u at) [
  | inl (same, it) ↦ elim (takes b z (ap (λ v. id_at v b) it ∙ is)) [
    | inl (place, fresh) ↦ inl (same, place, fresh)
    | inr old ↦ inr (t, ap (get_elem? threads) same ∙ mine, old)
  ]
  | inr other ↦ inr (u, other, is)
]

pub Takes-IsGiven :
    (s : Launch) (i : ℕ) (t t' : Progress) (d : Bool) (count : ℕ)
    → IsGiven s count
    → get_elem? s.threads i ≡ some t
    → Takes t t' d s.id_count
    → count + 1 < 2 ^ 31
    → IsGiven
        (record { id_count = add_int s.id_count (pos 1); threads = set s.threads i t' })
        (count + 1)
Takes-IsGiven s i t t' d count h mine takes small = record {
  counts = ap (λ z. add_int z (pos 1)) h.counts ∙ add_int-one count (omega arith);
  given = λ j u b z at is.
      elim (slot_cases s.threads i j t t' u d b s.id_count z mine takes at is) [
        | inl (same, place, fresh) ↦ (count, fresh ∙ h.counts, omega arith)
        | inr (v, old, had) ↦ let (k, e, below) = h.given j v b z old had in (k, e, omega arith)
      ];
  once = λ j k u v b e z at at' is is'.
      elim (slot_cases s.threads i j t t' u d b s.id_count z mine takes at is) [
        | inl (same, place, fresh) ↦
            elim (slot_cases s.threads i k t t' v d e s.id_count z mine takes at' is') [
              | inl (same', place', _) ↦ (same ∙ sym same', place ∙ sym place')
              | inr (x, old, had) ↦ absurd (unused k x e z old had (fresh ∙ h.counts))
            ]
        | inr (w, first, had) ↦
            elim (slot_cases s.threads i k t t' v d e s.id_count z mine takes at' is') [
              | inl (_, _, fresh) ↦ absurd (unused j w b z first had (fresh ∙ h.counts))
              | inr (x, second, had') ↦ h.once j k w x b e z first second had had'
            ]
      ];
}
  where
    unused :
        (j : ℕ) (v : Progress) (b : Bool) (z : ℤ)
        → get_elem? s.threads j ≡ some v
        → id_at v b ≡ some z
        → z ≢ pos count
    unused j v b z at is fresh =
        let (k, e, below) = h.given j v b z at is in
        let same : pos k ≡ pos count = sym e ∙ fresh in
        let number : k ≡ count = cc in omega (arith, number, below)

pub makes-IsGiven :
    (s : Launch) (count : ℕ)
    → IsGiven s count
    → IsGiven (record s { threads = s.threads ++ (waiting ∷ []) }) count
makes-IsGiven s count h = record {
  counts = h.counts;
  given = λ i t b z at is. elim (snoc_cases s.threads i waiting t at) [
    | inl there ↦ h.given i t b z there is
    | inr it ↦ let none_yet : none ≡ some z = ap (λ u. id_at u b) it ∙ is in cc
  ];
  once = λ i j t u b d z at at' is is'. elim (snoc_cases s.threads i waiting t at) [
    | inl there ↦ elim (snoc_cases s.threads j waiting u at') [
      | inl there' ↦ h.once i j t u b d z there there' is is'
      | inr it ↦ let none_yet : none ≡ some z = ap (λ v. id_at v d) it ∙ is' in cc
    ]
    | inr it ↦ let none_yet : none ≡ some z = ap (λ v. id_at v b) it ∙ is in cc
  ];
}
