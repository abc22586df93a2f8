-- ===== src/Customers/Sized.antt =====
-- What fits the fixed sizes of rinha/structs.h: the image of a `Customer` in memory has room for these.
use rinha.Prelude.{ℕ, zero, suc, ◌<◌, ◌≡◌, FitsInt, List, [], ◌∷◌, ◌++◌, All, length, set}
use rinha.Structs.{Transaction, Customer}
use rinha.Customers.{IsRing}

-- An `int`, `char[11]` and `char[20]`.
pub record IsSizedEntry (t : Transaction) : Type 0 where
  pub value_fits : FitsInt t.value
  pub description_size : length t.description ≡ 11
  pub description_bytes : All (λ b. b < 256) t.description
  pub timestamp_size : length t.timestamp ≡ 20
  pub timestamp_bytes : All (λ b. b < 256) t.timestamp

-- Two `int`s, ten transactions, and two counters of one byte.
pub record IsSized (x : Customer) : Type 0 where
  pub limit_fits : FitsInt x.limit
  pub balance_fits : FitsInt x.balance
  pub ring : IsRing x
  pub entries : All IsSizedEntry x.transactions

pub set-All :
    {A : Type 0} (P : A → Type 0) (xs : List A) (i : ℕ) (v : A)
    → P v
    → All P xs
    → All P (set xs i v)
set-All P [] i v p all = tt
set-All P (x ∷ xs) zero v p (first, others) = (p, others)
set-All P (x ∷ xs) (suc i) v p (first, others) = (first, set-All P xs i v p others)

pub All-front : {A : Type 0} (P : A → Type 0) (xs ys : List A) → All P (xs ++ ys) → All P xs
All-front P [] ys all = tt
All-front P (x ∷ xs) ys (first, others) = (first, All-front P xs ys others)

pub All-back : {A : Type 0} (P : A → Type 0) (xs ys : List A) → All P (xs ++ ys) → All P ys
All-back P [] ys all = all
All-back P (x ∷ xs) ys (first, others) = All-back P xs ys others

pub All-append :
    {A : Type 0} (P : A → Type 0) (xs ys : List A) → All P xs → All P ys → All P (xs ++ ys)
All-append P [] ys all more = more
All-append P (x ∷ xs) ys (first, others) more = (first, All-append P xs ys others more)
