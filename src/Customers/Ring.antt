-- ===== src/Customers/Ring.antt =====
-- One more transaction: the ring keeps the ten latest.
use rinha.Prelude.{
  ℕ, zero, suc, ◌+◌, ◌-◌, ◌%◌, ◌≤◌, ◌<◌, ◌≡◌, refl, ap, ap₂, ◌∙◌, sym, ◌⊎◌, inl, inr, List, ◌∷◌,
  ltb, leb, if◌then◌else◌, length, get_or, set, take, arith, get_or-set_ne, get_or-set_self,
  length-set, some, add_int,
}
use rinha.Structs.{Transaction, Customer}
use rinha.Customers.{blank, back, recent, shown, IsRing}
use rinha.MariaDatabase.{record_transaction}

-- Fewer than ten steps back do not meet the place that was written.
back-set :
    (ts : List Transaction) (t : Transaction) (j d n i : ℕ)
    → n < d
    → d ≤ 10
    → j < 10
    → i ≡ (j + d) % 10
    → back (set ts j t) n i ≡ back ts n i
unfolding back
back-set ts t j d zero i few ten lt e = refl
back-set ts t j d (suc n) i few ten lt e =
    ap₂ ◌∷◌ (get_or-set_ne ts j ((i + 9) % 10) t blank (omega arith))
      (back-set ts t j (d - 1) n ((i + 9) % 10) (omega arith) (omega arith) lt (omega arith))

least : ℕ → ℕ → ℕ
least zero n = zero
least (suc k) zero = zero
least (suc k) (suc n) = suc (least k n)

least-eq : (k n : ℕ) → (n ≤ k) × (least k n ≡ n) ⊎ (k < n) × (least k n ≡ k)
unfolding least
least-eq zero zero = inl (omega arith, refl)
least-eq zero (suc n) = inr (omega arith, refl)
least-eq (suc k) zero = inl (omega arith, refl)
least-eq (suc k) (suc n) = ground (arith, least-eq k n)

take-back : (ts : List Transaction) (k n i : ℕ) → take k (back ts n i) ≡ back ts (least k n) i
unfolding back least
take-back ts zero n i = refl
take-back ts (suc k) zero i = refl
take-back ts (suc k) (suc n) i =
    ap (◌∷◌ (get_or ts ((i + 9) % 10) blank)) (take-back ts k n ((i + 9) % 10))

-- The entry that was written is the latest; the others follow as before, ten at most.
recent-set :
    (ts : List Transaction) (t : Transaction) (i n : ℕ)
    → length ts ≡ 10
    → i < 10
    → back (set ts i t) (suc (least 9 n)) ((i + 1) % 10) ≡ take 10 (t ∷ back ts n i)
unfolding back
recent-set ts t i n places lt =
    let here : ((i + 1) % 10 + 9) % 10 ≡ i = omega arith in
    rw (here, get_or-set_self ts i t blank (omega arith))
      (ap (◌∷◌ t) (
        back-set ts t i 10 (least 9 n) i (ground (arith, least-eq 9 n)) (omega arith) lt
          (omega arith)
        ∙ sym (take-back ts 9 n i)))

-- The counter of the new record: one more, up to 11.
next_count : ℕ → ℕ
next_count n = if leb n 10 then n + 1 else n

shown_next :
    (n : ℕ)
    → (if ltb (next_count n) 10 then next_count n else 10)
      ≡ suc (least 9 (if ltb n 10 then n else 10))
unfolding next_count
shown_next n = ground (arith, least-eq 9 n, least-eq 9 10)

-- `MariaDbExecuteTransaction` keeps the ring: recording a transaction faults nowhere, adds its value
-- to the balance, leaves the limit, and puts it before the transactions that the record showed,
-- of which it keeps the ten latest.
pub record_transaction-recent :
    (c : Customer) (t : Transaction)
    → IsRing c
    → (c' : Customer) × (record_transaction c t ≡ some c')
      × (recent c' ≡ take 10 (t ∷ recent c))
      × (c'.balance ≡ add_int c.balance t.value)
      × (c'.limit ≡ c.limit)
      × IsRing c'
unfolding record_transaction recent next_count
record_transaction-recent c t v = (
  c',
  ground (arith, v.places, v.next_in),
  rw (shown_next c.transaction_count)
      (recent-set c.transactions t c.next_transaction_index (shown c) v.places v.next_in),
  refl,
  refl,
  record {
    places = length-set c.transactions c.next_transaction_index t ∙ v.places;
    next_in = omega arith;
    filling = ground (arith, v.filling);
  },
)
  where
    c' : Customer
    c' = record {
      limit = c.limit;
      balance = add_int c.balance t.value;
      transactions = set c.transactions c.next_transaction_index t;
      transaction_count = next_count c.transaction_count;
      next_transaction_index = (c.next_transaction_index + 1) % 10;
    }
