-- ===== src/ToJson/Extract.antt =====
-- The extract lists the transactions that the record holds, the latest first.
use rinha.Prelude.{
  ℕ, zero, suc, ◌+◌, ◌-◌, ◌%◌, ◌≤◌, ◌<◌, ◌≡◌, refl, ap, sym, inl, inr, Bool, not, Option, some,
  List, [], ◌∷◌, ◌++◌, append_assoc, append-nil, ◌>>=◌, Bytes, codes, ◌==◌, if◌then◌else◌, length,
  get_or, get_elem?-eq-get_or, arith, Option-cases, Bool-cases, lt→ltb, le→ltb, subst,
}
use rinha.Structs.{Transaction, Customer}
use rinha.Customers.{blank, back, recent, IsRing}
use rinha.Absl.{Absl, Laws}
use rinha.ToJson.{transaction_to_json, down_loop, ring_loop, transactions_to_json}

-- A comma before what follows, if anything does.
abbrev pub separator : List Bytes → Bytes
separator [] = []
separator (s ∷ r) = codes ","

abbrev pub join : List Bytes → Bytes
join [] = []
join (s ∷ r) = s ++ (separator r ++ join r)

length-back : (ts : List Transaction) (n i : ℕ) → length (back ts n i) ≡ n
unfolding back
length-back ts zero i = refl
length-back ts (suc n) i = ap suc (length-back ts n ((i + 9) % 10))

module _ (absl : Absl) where
  -- The texts of some transactions, unless one faults.
  unfoldable pub texts : List Transaction → Option (List Bytes)
  texts [] = some []
  texts (t ∷ ts) = do s ← transaction_to_json absl t; r ← texts ts; some (s ∷ r)

  separator-texts :
      (ts : List Transaction) (r : List Bytes)
      → texts ts ≡ some r
      → separator r ≡ (if not (length ts == 0) then codes "," else [])
  unfolding texts
  separator-texts [] r h = ground arith
  separator-texts (t ∷ ts) [] h = ground arith
  separator-texts (t ∷ ts) (s ∷ r) h = ground arith

  -- One round of a loop: the text, and a comma if transactions are left.
  round_text :
      (laws : Laws absl) (json s : Bytes) (ts : List Transaction) (last : Bool)
      → last ≡ (length ts == 0)
      → let json' = absl.str_append json s in
        (texts ts >>= λ r.
        some ((if not last then absl.str_append json' (codes ",") else json') ++ join r))
        ≡ ((texts ts >>= λ r. some (s ∷ r)) >>= λ r. some (json ++ join r))
  round_text laws json s ts last e = elim (Option-cases (texts ts)) [
    | inl fails ↦ rw fails
    | inr (r, found) ↦ rw (found, e, separator-texts ts r found) (appended r)
  ]
    where
      appended :
          (r : List Bytes)
          → some (
              (if not (length ts == 0)
                then absl.str_append (absl.str_append json s) (codes ",")
                else absl.str_append json s)
              ++ join r)
            ≡ some (json ++ (s ++ ((if not (length ts == 0) then codes "," else []) ++ join r)))
      appended r = elim (Bool-cases (length ts == 0)) [
        | inl end ↦ simp (end, laws.str_append-eq, append_assoc)
        | inr more ↦ simp (more, laws.str_append-eq, append_assoc)
      ]

  down_loop-texts :
      (laws : Laws absl) (ts : List Transaction) (n : ℕ) (json : Bytes)
      → n ≤ 10
      → length ts ≡ 10
      → down_loop absl ts n json ≡ (texts (back ts n n) >>= λ r. some (json ++ join r))
  unfolding down_loop texts back
  down_loop-texts laws ts zero json few places = ap some (sym (append-nil json))
  down_loop-texts laws ts (suc i) json few places =
      let place : (suc i + 9) % 10 ≡ i = omega arith in
      rw (place, get_elem?-eq-get_or ts i blank (omega arith))
        (elim (Option-cases (transaction_to_json absl (get_or ts i blank))) [
          | inl fails ↦ rw fails
          | inr (s, found) ↦
              rw (found, down_loop-texts laws ts i _ (omega arith) places)
                (round_text laws json s (back ts i i) (i == 0)
                  (ap (λ n. n == 0) (sym (length-back ts i i))))
        ])

  ring_loop-texts :
      (laws : Laws absl) (ts : List Transaction) (n j i : ℕ) (json : Bytes)
      → n + j ≡ 10
      → i < 10
      → length ts ≡ 10
      → ring_loop absl ts n j i json
        ≡ (texts (back ts n ((i + 1) % 10)) >>= λ r. some (json ++ join r))
  unfolding ring_loop texts back
  ring_loop-texts laws ts zero j i json count in_ring places = ap some (sym (append-nil json))
  ring_loop-texts laws ts (suc n) j i json count in_ring places =
      let place : ((i + 1) % 10 + 9) % 10 ≡ i = omega arith in
      let next : (((i + 10 - 1) % 10) + 1) % 10 ≡ i = omega arith in
      let last : (j == 9) ≡ (length (back ts n i) == 0) = ground (arith, length-back ts n i) in
      rw (place, get_elem?-eq-get_or ts i blank (omega arith))
        (elim (Option-cases (transaction_to_json absl (get_or ts i blank))) [
          | inl fails ↦ rw fails
          | inr (s, found) ↦
              rw
                (
                  found,
                  ring_loop-texts laws ts n (j + 1) ((i + 10 - 1) % 10) _ (omega arith)
                      (omega arith) places,
                  next,
                )
                (round_text laws json s (back ts n i) (j == 9) last)
        ])

  -- Under the laws of Abseil and the invariant of the ring, `to_json` of the array prints exactly the transactions that the record holds, the latest first,
  -- with commas between them; it faults only where the text of one of them does.
  pub transactions_to_json-recent :
      (x : Customer)
      → Laws absl
      → IsRing x
      → transactions_to_json absl x.transactions x.transaction_count x.next_transaction_index
        ≡ (texts (recent x) >>= λ r. some (join r))
  unfolding transactions_to_json recent
  transactions_to_json-recent x laws v = elim v.filling [
    | inl (few, same) ↦
        rw (lt→ltb x.transaction_count 10 few, ← same)
          (down_loop-texts laws x.transactions x.next_transaction_index [] (omega arith) v.places)
    | inr (full, _) ↦
        let next : ((x.next_transaction_index + 10 - 1) % 10 + 1) % 10 ≡ x.next_transaction_index =
          let inside = v.next_in in omega arith in
        rw (le→ltb x.transaction_count 10 full) (
          subst
            (λ i.
              ring_loop absl x.transactions 10 0 ((x.next_transaction_index + 10 - 1) % 10) []
              ≡ (texts (back x.transactions 10 i) >>= λ r. some (join r)))
            next
            (ring_loop-texts laws x.transactions 10 0 ((x.next_transaction_index + 10 - 1) % 10) []
              refl (omega arith) v.places))
  ]
