-- ===== src/MariaDatabase/Ledger.antt =====
-- The rule of the bank, on one row: what a transaction does to a customer and to the version, as one
-- step that nothing interrupts.
use rinha.Prelude.{
  ℕ, ◌+◌, ◌≤◌, ◌<◌, ◌≡◌, refl, ap, ◌∙◌, ◌⊎◌, inl, inr, true, false, Bool, not, subst, sym, set, All,
  write_at-lt, ltb, leb, ltb_ℤ, ◌%◌, add_int-FitsInt, some, List, [], ◌∷◌, ◌++◌, ◌==◌, neg_int,
  ◌≤ℤ◌, add_int, length, if◌then◌else◌, arith, Bool-cases,
}
use rinha.Structs.{Transaction, Customer, TransactionResult}
use rinha.Customers.{IsRing}
use rinha.Customers.Sized.{IsSized, IsSizedEntry, set-All}
use rinha.Customers.Ring.{record_transaction-recent}
use rinha.MariaDatabase.{overdraws, record_transaction}

-- A customer and the version of the row.
abbrev pub Stand : Type 0
Stand = Customer × ℕ

-- The rule, on its own: a transaction is accepted where the balance that it leads to is not below the
-- negated limit.
unfoldable pub accepts : Customer → Transaction → Bool
accepts x t = not (ltb_ℤ (add_int x.balance t.value) (neg_int x.limit))

-- It then changes the balance by its value, and takes the oldest of the ten places.
unfoldable pub enter : Transaction → Customer → Customer
enter t x = record {
  limit = x.limit;
  balance = add_int x.balance t.value;
  transactions = set x.transactions x.next_transaction_index t;
  transaction_count =
      if ltb x.transaction_count 11 then x.transaction_count + 1 else x.transaction_count;
  next_transaction_index =
      if x.next_transaction_index == 9 then 0 else x.next_transaction_index + 1;
}

unfoldable pub post : Transaction → Stand → Stand
post t r = if accepts r.0 t then (enter t r.0, r.1 + 1) else r

-- What the caller is told.
unfoldable pub outcome : Transaction → Stand → TransactionResult × Customer
outcome t r =
    if accepts r.0 t
    then (TransactionResult.success, enter t r.0)
    else (TransactionResult.limit_exceeded, r.0)

-- The code follows the rule.
pub accepts-overdraws : (x : Customer) (t : Transaction) → accepts x t ≡ not (overdraws x t)
unfolding accepts overdraws
accepts-overdraws x t = refl

counted : (n : ℕ) → (if leb n 10 then n + 1 else n) ≡ (if ltb n 11 then n + 1 else n)
counted n = ground arith

next_place : (i : ℕ) → i < 10 → (i + 1) % 10 ≡ (if i == 9 then 0 else i + 1)
next_place i h = ground arith

record_transaction-enter :
    (x : Customer) (t : Transaction) → IsRing x → record_transaction x t ≡ some (enter t x)
unfolding record_transaction enter
record_transaction-enter x t v =
    rw
      (
        write_at-lt x.transactions x.next_transaction_index t (omega (arith, v.places, v.next_in)),
        counted x.transaction_count,
        next_place x.next_transaction_index v.next_in,
      )
      refl

-- A record that the code makes of a ring is the rule's.
enter-eq :
    (x : Customer) (t : Transaction) {y : Customer}
    → IsRing x
    → record_transaction x t ≡ some y
    → y ≡ enter t x
enter-eq x t v e = let rule = record_transaction-enter x t v in cc

-- Several transactions, one behind the other.
unfoldable pub after : List Transaction → Stand → Stand
after [] r = r
after (t ∷ ts) r = after ts (post t r)

pub after-append :
    (ts us : List Transaction) (r : Stand) → after (ts ++ us) r ≡ after us (after ts r)
unfolding after
after-append [] us r = refl
after-append (t ∷ ts) us r = after-append ts us (post t r)

pub outcome-refused :
    (t : Transaction) (r : Stand)
    → overdraws r.0 t ≡ true
    → (outcome t r ≡ (TransactionResult.limit_exceeded, r.0)) × (post t r ≡ r)
unfolding outcome post
outcome-refused t r over =
    let refuses : accepts r.0 t ≡ false = accepts-overdraws r.0 t ∙ ap not over in
    (rw refuses refl, rw refuses refl)

pub outcome-accepted :
    (t : Transaction) (r : Stand) {x : Customer}
    → IsRing r.0
    → overdraws r.0 t ≡ false
    → record_transaction r.0 t ≡ some x
    → (outcome t r ≡ (TransactionResult.success, x)) × (post t r ≡ (x, r.1 + 1))
unfolding outcome post
outcome-accepted t r v within done =
    let takes : accepts r.0 t ≡ true = accepts-overdraws r.0 t ∙ ap not within in
    let same = enter-eq r.0 t v done in
    (
      rw takes (ap (λ y. (TransactionResult.success, y)) (sym same)),
      rw takes (ap (λ y. (y, r.1 + 1)) (sym same)),
    )

pub after-snoc :
    (ts : List Transaction) (t : Transaction) (r : Stand)
    → after (ts ++ t ∷ []) r ≡ post t (after ts r)
unfolding after
after-snoc ts t r = after-append ts (t ∷ []) r

-- The customer that the caller is told is the one of the row.
pub outcome-post : (t : Transaction) (r : Stand) → (outcome t r).1 ≡ (post t r).0
unfolding outcome post
outcome-post t r = elim (Bool-cases (accepts r.0 t)) [
  | inl takes ↦ rw takes refl
  | inr refuses ↦ rw refuses refl
]

-- A transaction leaves a row alone or gives it the next version.
post-cases : (t : Transaction) (r : Stand) → (post t r ≡ r) ⊎ ((post t r).1 ≡ r.1 + 1)
unfolding post
post-cases t r = elim (Bool-cases (accepts r.0 t)) [
  | inl takes ↦ inr (rw takes refl)
  | inr refuses ↦ inl (rw refuses refl)
]

-- So a row with the version that it had is the row that it was.
pub after-cases : (ts : List Transaction) (r : Stand) → (after ts r ≡ r) ⊎ (r.1 < (after ts r).1)
unfolding after
after-cases [] r = inl refl
after-cases (t ∷ ts) r = elim (post-cases t r) [
  | inl same ↦ elim (after-cases ts (post t r)) [
    | inl kept ↦ inl (kept ∙ same)
    | inr more ↦ inr (omega (arith, ap (λ (s : Stand). s.1) same))
  ]
  | inr next ↦ elim (after-cases ts (post t r)) [
    | inl kept ↦ inr (omega (arith, ap (λ (s : Stand). s.1) kept))
    | inr more ↦ inr (omega arith)
  ]
]

-- Where the version is another, there was a transaction.
pub after-some :
    (ts : List Transaction) (r : Stand) → ((after ts r).1 == r.1) ≡ false → 0 < length ts
unfolding after
after-some [] r other = ground arith
after-some (t ∷ ts) r other = omega arith

pub after-le : (ts : List Transaction) (r : Stand) → (after ts r).1 ≤ r.1 + length ts
unfolding after
after-le [] r = omega arith
after-le (t ∷ ts) r = elim (post-cases t r) [
  | inl same ↦ omega (arith, after-le ts (post t r), ap (λ (s : Stand). s.1) same)
  | inr next ↦ omega (arith, after-le ts (post t r))
]

enter-IsRing : (t : Transaction) (x : Customer) → IsRing x → IsRing (enter t x)
enter-IsRing t x v =
    let (y, done, _, _, _, ring) = record_transaction-recent x t v in
    subst IsRing (enter-eq x t v done) ring

pub enter-balance :
    (t : Transaction) (x : Customer) → (enter t x).balance ≡ add_int x.balance t.value
unfolding enter
enter-balance t x = refl

enter-IsSized : (t : Transaction) (x : Customer) → IsSizedEntry t → IsSized x → IsSized (enter t x)
unfolding enter
enter-IsSized t x entry v = record {
  limit_fits = v.limit_fits;
  balance_fits = add_int-FitsInt x.balance t.value;
  ring = enter-IsRing t x v.ring;
  entries = set-All IsSizedEntry x.transactions x.next_transaction_index t entry v.entries;
}

pub post-IsSized :
    (t : Transaction) (r : Stand) → IsSizedEntry t → IsSized r.0 → IsSized (post t r).0
unfolding post
post-IsSized t r entry v = elim (Bool-cases (accepts r.0 t)) [
  | inl takes ↦ rw takes (enter-IsSized t r.0 entry v)
  | inr refuses ↦ rw refuses v
]

pub after-IsSized :
    (ts : List Transaction) (r : Stand) → All IsSizedEntry ts → IsSized r.0 → IsSized (after ts r).0
unfolding after
after-IsSized [] r entries v = v
after-IsSized (t ∷ ts) r (entry, entries) v =
    after-IsSized ts (post t r) entries (post-IsSized t r entry v)

accepted-within :
    (x : Customer) (t : Transaction)
    → accepts x t ≡ true
    → neg_int x.limit ≤ℤ add_int x.balance t.value
unfolding accepts
accepted-within x t takes = ground arith

-- The bank's promise on a row: the balance is not below the negated limit.
unfoldable pub Covered : Stand → Type 0
Covered r = neg_int r.0.limit ≤ℤ r.0.balance

post-Covered :
    (t : Transaction) (r : Stand)
    → Covered r
    → Covered (post t r) × ((post t r).0.limit ≡ r.0.limit)
unfolding post enter Covered
post-Covered t r covered = elim (Bool-cases (accepts r.0 t)) [
  | inl takes ↦ rw takes (accepted-within r.0 t takes, refl)
  | inr refuses ↦ rw refuses (covered, refl)
]

pub after-Covered :
    (ts : List Transaction) (r : Stand)
    → Covered r
    → Covered (after ts r) × ((after ts r).0.limit ≡ r.0.limit)
unfolding after
after-Covered [] r covered = (covered, refl)
after-Covered (t ∷ ts) r covered =
    let (covered', limit) = post-Covered t r covered in
    let (rest, limit') = after-Covered ts (post t r) covered' in (rest, limit' ∙ limit)
