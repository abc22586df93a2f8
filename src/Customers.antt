-- ===== src/Customers.antt =====
-- The customer record as the code uses it: the last transactions in a ring of ten places.
pub mod Ring
pub mod Sized
use rinha.Prelude.{
  ℕ, zero, suc, ◌+◌, ◌%◌, ◌≤◌, ◌<◌, ◌≡◌, ◌⊎◌, pos, List, [], ◌∷◌, ltb, if◌then◌else◌, length,
  get_or, replicate,
}
use rinha.Structs.{Transaction, Customer}

-- A transaction of zero bytes, which `.transactions = {}` makes.
abbrev pub blank : Transaction
blank = record { value = pos 0; description = replicate 11 0; timestamp = replicate 20 0 }

-- The `n` entries before the place `i` of the ring, the latest first.
unfoldable pub back : List Transaction → ℕ → ℕ → List Transaction
back ts zero i = []
back ts (suc n) i = get_or ts ((i + 9) % 10) blank ∷ back ts n ((i + 9) % 10)

abbrev pub shown : Customer → ℕ
shown c = if ltb c.transaction_count 10 then c.transaction_count else 10

-- The transactions that the record still holds, the latest first.
unfoldable pub recent : Customer → List Transaction
recent c = back c.transactions (shown c) c.next_transaction_index

-- The ring has ten places; until it is full, the next place is the number of transactions.
pub record IsRing (c : Customer) : Type 0 where
  pub places : length c.transactions ≡ 10
  pub next_in : c.next_transaction_index < 10
  pub filling :
      (c.transaction_count < 10) × (c.next_transaction_index ≡ c.transaction_count)
      ⊎ (10 ≤ c.transaction_count) × (c.transaction_count ≤ 11)
