-- ===== src/MariaDatabase.antt =====
-- rinha/maria_database.cc: the transaction of a customer, and the first filling of the table.
pub mod Mysql
pub mod Setup
pub mod Rounds
pub mod Execute
pub mod Balance
pub mod Ledger
pub mod Contended
pub mod Turns
pub mod Serial
pub mod History
use rinha.Prelude.{
  ℕ, zero, suc, ◌+◌, ◌%◌, ℤ, pos, negsuc, pos_part, ltb_ℤ, add_int, neg_int, Bool, true, false, not,
  ◌||◌, Option, none, some, List, [], ◌∷◌, leb, if◌then◌else◌, get_elem?, write_at, set,
}
use rinha.Prelude
use rinha.Prelude.Stateful.{Action, pure, stopped, lift, ◌>>=◌, ◌>>◌}
use rinha.Structs.{Transaction, Customer, TransactionResult}
use rinha.HandlerSocket.Interface.{Client, Layout}
use rinha.HandlerSocket.{Session, read_customer_hs, write_customer_hs}

-- `customer->balance + transaction.value < -customer->limit`
unfoldable pub overdraws : Customer → Transaction → Bool
overdraws customer t = ltb_ℤ (add_int customer.balance t.value) (neg_int customer.limit)

-- The customer with the transaction: the balance, the next place of the ring, and the counters.
unfoldable pub record_transaction : Customer → Transaction → Option Customer
record_transaction customer t =
    Prelude.◌>>=◌ (write_at customer.transactions customer.next_transaction_index t) λ ts.
      some (record {
        limit = customer.limit;
        balance = add_int customer.balance t.value;
        transactions = ts;
        transaction_count =
            if leb customer.transaction_count 10
            then customer.transaction_count + 1
            else customer.transaction_count;
        next_transaction_index = (customer.next_transaction_index + 1) % 10;
      })

-- `id > 5 || id < 1`
abbrev pub unknown_id : ℤ → Bool
unknown_id id = ltb_ℤ (pos 5) id || ltb_ℤ id (pos 1)

module _ (c : Client) (l : Layout) where
  -- What the threads of a process share: the mutexes of the customers, held or not.
  pub record Shared : Type 0 where
    pub world : c.World
    pub customer_write_mutexs : List Bool

  abbrev pub on_world : {A : Type 0} → Action c.World A → Action Shared A
  on_world m s = Prelude.◌>>=◌ (m s.world) λ r. some (r.0, record s { world = r.1 })

  -- `Lock` waits where the mutex is held: a call made then does not return.
  abbrev pub lock : ℕ → Action Shared (Unit {0})
  lock i s = Prelude.◌>>=◌ (get_elem? s.customer_write_mutexs i) λ held.
      if held
      then none
      else some (tt, record s { customer_write_mutexs = set s.customer_write_mutexs i true })

  abbrev pub unlock : ℕ → Action Shared (Unit {0})
  unlock i s = some (tt, record s { customer_write_mutexs = set s.customer_write_mutexs i false })

  -- The `while` loop of `MariaDbExecuteTransaction`, on fuel, up to the result: each round reads the
  -- customer, and a failed read or write begins the next. `unset` is what `int version;` holds.
  pub execute_loop :
      ℕ
      → ℕ
      → Session c
      → ℤ
      → Transaction
      → ℤ
      → Customer
      → Action c.World (TransactionResult × Customer)
  execute_loop zero rows s id t unset customer = stopped
  execute_loop (suc fuel) rows s id t unset customer = do
    r ← read_customer_hs c l rows s id customer unset
    if not r.0
        then execute_loop fuel rows s id t unset r.1
        else if overdraws r.1 t
        then pure (TransactionResult.limit_exceeded, r.1)
        else do
          customer' ← lift (record_transaction r.1 t)
          written ← write_customer_hs c l rows s id customer' r.2
          if not written
              then execute_loop fuel rows s id t unset customer'
              else pure (TransactionResult.success, customer')

  -- `MariaDbExecuteTransaction`, with the customer that it leaves behind the pointer.
  pub maria_db_execute_transaction :
      ℕ
      → ℕ
      → Session c
      → ℤ
      → Transaction
      → ℤ
      → Customer
      → Action Shared (TransactionResult × Customer)
  unfolding execute_loop
  maria_db_execute_transaction fuel rows s id t unset customer =
      if unknown_id id then pure (TransactionResult.not_found, customer) else do
        lock (pos_part (add_int id (negsuc 0)))
        r ← on_world (execute_loop fuel rows s (add_int id (negsuc 0)) t unset customer)
        unlock (pos_part (add_int id (negsuc 0)))
        pure r

  -- `MariaDbGetCustomer`
  unfoldable pub maria_db_get_customer :
      ℕ → Session c → ℤ → ℤ → Customer → Action Shared (Bool × Customer)
  maria_db_get_customer rows s id unset customer =
      if unknown_id id then pure (false, customer) else do
        r ← on_world (read_customer_hs c l rows s (add_int id (negsuc 0)) customer unset)
        if not r.0 then pure (false, r.1) else pure (true, r.1)
