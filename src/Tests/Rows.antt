-- ===== src/Tests/Rows.antt =====
-- The theorems about the rows of the table, each applied at a concrete input.
use rinha.Prelude.{
  ℕ, ◌≡◌, ◌≢◌, refl, ap, ◌∙◌, ℤ, pos, digits, digits_before, wrap_int, negsuc, neg, ◌+ℤ◌, decimal,
  add_int, true, false, none, some, [], ◌∷◌, Bytes, codes, arith, replicate,
}
use rinha.Structs.{Customer, TransactionResult}
use rinha.HandlerSocket.{id_text, read_customer_hs, write_customer_hs}
use rinha.HandlerSocket.Server.{Entry, put}
use rinha.HandlerSocket.Read.{read_customer_hs-found, read_customer_hs-missing}
use rinha.HandlerSocket.Write.{write_customer_hs-hit, write_customer_hs-miss}
use rinha.MariaDatabase.{Shared, maria_db_get_customer, maria_db_execute_transaction}
use rinha.MariaDatabase.Execute.{Executed, Stored, maria_db_execute_transaction-Executed}
use rinha.Tests.Demo.{Memory, nothing, memory, session, server, newcomer, image}
use rinha.MariaDatabase.Balance.{maria_db_get_customer-found}
use rinha.Tests.Data.{newcomer_ring, payment, regular}

-- The table with the first customer under version 4.
abbrev pub table : Bytes → Entry
table = put (λ k. none) (codes "0") (some (image.to_bytes newcomer, pos 4))

abbrev pub world : Memory
world = record { table = table; rows = []; pending = nothing; output = []; input = [] }

abbrev pub shared : Shared memory image
shared = record { world = world; customer_write_mutexs = replicate 5 false }

payment-Stored :
    Stored server image (id_text (add_int (pos 1) (negsuc 0))) newcomer payment (pos 4) world
unfolding add_int ◌+ℤ◌ neg decimal digits digits_before wrap_int
payment-Stored = record {
  idle = tt;
  read_back = refl;
  version_fits = omega arith;
  stored = refl;
  ring = newcomer_ring;
  sum_fits = omega arith;
  limit_fits = omega arith;
}

maria_db_execute_transaction-Executed_example :
    (r : TransactionResult × Customer) × (w' : Memory) × (maria_db_execute_transaction memory image
        1 2 session
        (pos 1)
        payment
        (pos 77)
        newcomer
        shared
      ≡ some (r, record shared { world = w' }))
    × Unit {0}
    × Executed server image
        (id_text (add_int (pos 1) (negsuc 0)))
        newcomer
        payment
        (pos 4)
        world
        r
        w'
unfolding add_int ◌+ℤ◌ wrap_int
maria_db_execute_transaction-Executed_example =
    maria_db_execute_transaction-Executed server image 0 0 (pos 1) payment (pos 77) (pos 4) newcomer
      newcomer shared refl refl payment-Stored

read_customer_hs-found_example :
    (w' : Memory) × (read_customer_hs memory image 2 session (pos 0) regular (pos 9) world
      ≡ some ((true, newcomer, pos 4), w'))
    × Unit {0}
    × (w'.table ≡ table)
unfolding decimal digits digits_before ◌+ℤ◌
read_customer_hs-found_example =
    read_customer_hs-found server image 0 (pos 0) newcomer regular (pos 4) (pos 9) world tt
      (omega arith) refl refl

read_customer_hs-missing_example :
    (w' : Memory) × (read_customer_hs memory image 1 session (pos 3) regular (pos 9) world
      ≡ some ((true, regular, pos 9), w'))
    × Unit {0}
    × (w'.table ≡ table)
unfolding decimal digits digits_before ◌+ℤ◌
read_customer_hs-missing_example =
    read_customer_hs-missing server image 0 (pos 3) regular (pos 9) world tt refl

write_customer_hs-hit_example :
    (w' : Memory) × (write_customer_hs memory image 2 session (pos 0) regular (pos 4) world
      ≡ some (true, w'))
    × Unit {0}
    × (w'.table
        ≡ put table (id_text (pos 0)) (some (image.to_bytes regular, add_int (pos 4) (pos 1))))
unfolding decimal digits digits_before ◌+ℤ◌
write_customer_hs-hit_example =
    write_customer_hs-hit session image server 0 (pos 0) regular (pos 4) (image.to_bytes newcomer)
      world tt refl

version_of : Entry → ℤ
version_of none = pos 0
version_of (some (d, v)) = v

first : Bytes → ℕ
first [] = 0
first (c ∷ s) = c

stale :
    (old : Bytes) (v : ℤ) → decimal v ≡ decimal (pos 3) → table (id_text (pos 0)) ≢ some (old, v)
unfolding decimal digits digits_before ◌+ℤ◌ version_of first
stale old v same found =
    let four : decimal (pos 4) ≡ decimal (pos 3) = ap (λ e. decimal (version_of e)) found ∙ same in
    let e = ap first four in absurd (omega arith)

write_customer_hs-miss_example :
    (w' : Memory) × (write_customer_hs memory image 2 session (pos 0) regular (pos 3) world
      ≡ some (false, w'))
    × Unit {0}
    × (w'.table ≡ table)
write_customer_hs-miss_example =
    write_customer_hs-miss session image server 0 (pos 0) regular (pos 3) world tt stale

maria_db_get_customer-found_example :
    (w' : Memory) × (maria_db_get_customer memory image 2 session (pos 1) (pos 9) regular shared
      ≡ some ((true, newcomer), record shared { world = w' }))
    × Unit {0}
    × (w'.table ≡ table)
unfolding decimal digits digits_before ◌+ℤ◌ add_int wrap_int
maria_db_get_customer-found_example =
    maria_db_get_customer-found server image 0 (pos 1) (pos 9) (pos 4) newcomer regular shared refl
      tt (omega arith) refl refl
