-- ===== src/MariaDatabase/Rounds.antt =====
-- The rounds of the loop of `MariaDbExecuteTransaction`, and the call around the loop, from what the
-- calls of handler_socket.cc return.
use rinha.Prelude.{
  ℕ, suc, ◌≡◌, ap, ◌∙◌, ℤ, negsuc, pos_part, add_int, true, false, Option, some, get_elem?, set,
  set-set_self,
}
use rinha.Prelude.Stateful.{>>=-some}
use rinha.Structs.{Transaction, Customer, TransactionResult}
use rinha.HandlerSocket.Interface.{Client, Layout}
use rinha.HandlerSocket.{Session, read_customer_hs, write_customer_hs}
use rinha.MariaDatabase.{
  Shared, lock, on_world, overdraws, record_transaction, unknown_id, execute_loop,
  maria_db_execute_transaction,
}

abbrev pub mutex_of : ℤ → ℕ
mutex_of id = pos_part (add_int id (negsuc 0))

module _ {c : Client} (l : Layout) where
  pub refused_round :
      (s : Session c) (fuel rows : ℕ) (id : ℤ) (t : Transaction) (unset : ℤ)
      (customer out : Customer) (version : ℤ) (w w' : c.World)
      → read_customer_hs c l rows s id out unset w ≡ some ((true, customer, version), w')
      → overdraws customer t ≡ true
      → execute_loop c l (suc fuel) rows s id t unset out w
        ≡ some ((TransactionResult.limit_exceeded, customer), w')
  unfolding execute_loop
  refused_round s fuel rows id t unset customer out version w w' reads over =
      >>=-some (read_customer_hs c l rows s id out unset) _ reads ∙ rw over

  pub accepted_round :
      (s : Session c) (fuel rows : ℕ) (id : ℤ) (t : Transaction) (unset : ℤ)
      (customer customer' out : Customer) (version : ℤ) (w w' w'' : c.World)
      → read_customer_hs c l rows s id out unset w ≡ some ((true, customer, version), w')
      → overdraws customer t ≡ false
      → record_transaction customer t ≡ some customer'
      → write_customer_hs c l rows s id customer' version w' ≡ some (true, w'')
      → execute_loop c l (suc fuel) rows s id t unset out w
        ≡ some ((TransactionResult.success, customer'), w'')
  unfolding execute_loop
  accepted_round s fuel rows id t unset customer customer' out version w w' w'' reads within
        recorded writes =
      >>=-some (read_customer_hs c l rows s id out unset) _ reads
      ∙ rw (within, recorded)
          (>>=-some (write_customer_hs c l rows s id customer' version) _ writes)

  -- A round whose write came too late begins the next one.
  pub late_round :
      (s : Session c) (fuel rows : ℕ) (id : ℤ) (t : Transaction) (unset : ℤ)
      (customer customer' out : Customer) (version : ℤ) (w w' w'' : c.World)
      → read_customer_hs c l rows s id out unset w ≡ some ((true, customer, version), w')
      → overdraws customer t ≡ false
      → record_transaction customer t ≡ some customer'
      → write_customer_hs c l rows s id customer' version w' ≡ some (false, w'')
      → execute_loop c l (suc fuel) rows s id t unset out w
        ≡ execute_loop c l fuel rows s id t unset customer' w''
  unfolding execute_loop
  late_round s fuel rows id t unset customer customer' out version w w' w'' reads within recorded
        writes =
      >>=-some (read_customer_hs c l rows s id out unset) _ reads
      ∙ rw (within, recorded)
          (>>=-some (write_customer_hs c l rows s id customer' version) _ writes)

  lock-free :
      (i : ℕ) (shared : Shared c l)
      → get_elem? shared.customer_write_mutexs i ≡ some false
      → lock c l i shared
        ≡ some
            (tt, record shared { customer_write_mutexs = set shared.customer_write_mutexs i true })
  lock-free i shared free = rw free

  pub on_world-some :
      {A : Type 0} (m : c.World → Option (A × c.World)) (shared : Shared c l) {a : A} {w' : c.World}
      → m shared.world ≡ some (a, w')
      → on_world c l m shared ≡ some (a, record shared { world = w' })
  on_world-some m shared runs = rw runs

  -- The call around the loop: the mutex is free again when it returns.
  pub locked_call :
      (s : Session c) (fuel rows : ℕ) (id : ℤ) (t : Transaction) (unset : ℤ) (out : Customer)
      (shared : Shared c l)
      → {r : TransactionResult × Customer} {w' : c.World} → unknown_id id ≡ false
      → get_elem? shared.customer_write_mutexs (mutex_of id) ≡ some false
      → execute_loop c l fuel rows s (add_int id (negsuc 0)) t unset out shared.world ≡ some (r, w')
      → maria_db_execute_transaction c l fuel rows s id t unset out shared
        ≡ some (r, record shared { world = w' })
  unfolding maria_db_execute_transaction
  locked_call s fuel rows id t unset out shared {r} {w'} known free runs = rw known (
      >>=-some (lock c l (mutex_of id)) _ (lock-free (mutex_of id) shared free)
      ∙ >>=-some (on_world c l (execute_loop c l fuel rows s (add_int id (negsuc 0)) t unset out)) _
          (on_world-some (execute_loop c l fuel rows s (add_int id (negsuc 0)) t unset out) _ runs)
      ∙ ap (λ m. some (r, record { world = w'; customer_write_mutexs = m }))
          (set-set_self shared.customer_write_mutexs (mutex_of id) true false free))
