-- ===== src/RequestHandler/Transactions.antt =====
-- A transaction from its request to its result.
use rinha.Prelude.{ℕ, suc, ◌≡◌, refl, ℤ, negsuc, pos_part, add_int, false, some, Bytes, get_elem?}
use rinha.Prelude.Stateful.{Action, >>=-some}
use rinha.Structs.{Transaction, Customer, Request, RequestType, TransactionResult}
use rinha.Absl.{Absl}
use rinha.Time.{Clock, get_time}
use rinha.HandlerSocket.Interface.{Client, Layout}
use rinha.HandlerSocket.{Session, id_text}
use rinha.HandlerSocket.Server.{Server}
use rinha.MariaDatabase.{Shared, unknown_id, maria_db_execute_transaction}
use rinha.MariaDatabase.Execute.{Stored, Executed, maria_db_execute_transaction-Executed}
use rinha.RequestHandler.{
  strcpy, result_of, Unset, Worker, on_shared, handle_transaction, handle_request,
}

module _ {c : Client} {s : Session c} (server : Server c s) (l : Layout) (absl : Absl)
    (clock : Clock c.World) where
  pub on_shared-some :
      {A : Type 0} (m : Action (Shared c l) A) (worker : Worker absl c l clock) {a : A}
      {shared : Shared c l}
      → m worker.shared ≡ some (a, shared)
      → on_shared absl c l clock m worker ≡ some (a, record worker { shared = shared })
  on_shared-some m worker runs = rw runs refl

  -- The request's transaction under the time that the worker shows.
  abbrev pub stamped : Request → Bytes → Transaction
  stamped request timestamp = record (request.transaction) { timestamp = timestamp }

  transaction_runs :
      (fuel rows : ℕ) (unset : Unset) (request : Request) (time timestamp : Bytes) (out : Customer)
      (worker : Worker absl c l clock) (r : TransactionResult × Customer) (shared : Shared c l)
      → strcpy request.transaction.timestamp time ≡ some timestamp
      → maria_db_execute_transaction c l fuel rows s request.id
          (stamped request timestamp)
          unset.version
          out
          worker.shared
        ≡ some (r, shared)
      → handle_transaction absl c l clock fuel rows s unset request time out worker
        ≡ some ((result_of r.0, r.1), record worker { shared = shared })
  unfolding handle_transaction
  transaction_runs fuel rows unset request time timestamp out worker r shared copied runs =
      rw copied (
        >>=-some
          (on_shared absl c l clock (
            maria_db_execute_transaction c l fuel rows s request.id (stamped request timestamp)
              unset.version out))
          _
          (on_shared-some
            (maria_db_execute_transaction c l fuel rows s request.id (stamped request timestamp)
              unset.version out)
            worker runs))

  pub handle_request-Executed :
      (fuel rows : ℕ) (unset : Unset) (request : Request) (response_body timestamp : Bytes)
      (version : ℤ) (customer out : Customer) (worker : Worker absl c l clock)
      → request.type ≡ RequestType.transaction
      → strcpy request.transaction.timestamp
          (get_time clock worker.cache worker.shared.world).0.time_str
        ≡ some timestamp
      → unknown_id request.id ≡ false
      → get_elem? worker.shared.customer_write_mutexs (pos_part (add_int request.id (negsuc 0)))
        ≡ some false
      → Stored server l
          (id_text (add_int request.id (negsuc 0)))
          customer
          (stamped request timestamp)
          version
          (get_time clock worker.cache worker.shared.world).1
      → (r : TransactionResult × Customer) × (w' : c.World) × (handle_request absl c l clock
            (suc fuel)
            (suc (suc rows))
            s
            unset
            request
            response_body
            out
            worker
          ≡ some (
            (result_of r.0, response_body, r.1),
            record {
              shared = record (worker.shared) { world = w' };
              cache = (get_time clock worker.cache worker.shared.world).0;
            },
          ))
        × server.Idle w'
        × Executed server l
            (id_text (add_int request.id (negsuc 0)))
            customer
            (stamped request timestamp)
            version
            (get_time clock worker.cache worker.shared.world).1
            r
            w'
  unfolding handle_request
  handle_request-Executed fuel rows unset request response_body timestamp version customer out
        worker kind copied known free h =
      let after = get_time clock worker.cache worker.shared.world in
      let shared1 : Shared c l = record (worker.shared) { world = after.1 } in
      let worker1 : Worker absl c l clock = record { shared = shared1; cache = after.0 } in
      let (r, w', runs, idle, done) =
        maria_db_execute_transaction-Executed server l fuel rows request.id
          (stamped request timestamp) unset.version version customer out shared1 known free h in
      (
        r,
        w',
        rw kind (
            >>=-some
              (handle_transaction absl c l clock (suc fuel) (suc (suc rows)) s unset request
                after.0.time_str out)
              _
              (transaction_runs (suc fuel) (suc (suc rows)) unset request after.0.time_str timestamp
                out worker1 r (record shared1 { world = w' }) copied runs)),
        idle,
        done,
      )
