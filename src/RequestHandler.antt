-- ===== src/RequestHandler.antt =====
-- rinha/request_handler.cc: one request, from its fields to its result.
pub mod Transactions
pub mod Balances
use rinha.Prelude.{
  ℕ, ◌+◌, ◌≤◌, ℤ, Bool, true, false, not, Option, none, some, ◌∷◌, ◌++◌, Bytes, leb, if◌then◌else◌,
  length, drop,
}
use rinha.Prelude
use rinha.Prelude.Stateful.{Action, pure, lift, ◌>>=◌}
use rinha.Structs.{Customer, Request, RequestType, Result, TransactionResult}
use rinha.Absl.{Absl}
use rinha.Time.{Clock, TimeCache, get_time}
use rinha.ToJson.{c_str, customer_to_json}
use rinha.HandlerSocket.Interface.{Client, Layout}
use rinha.HandlerSocket.{Session}
use rinha.MariaDatabase.{Shared, maria_db_get_customer, maria_db_execute_transaction}

-- `std::strcpy(dst, src)` between arrays: the text and its zero byte must fit.
unfoldable pub strcpy : Bytes → Bytes → Option Bytes
strcpy dst src = Prelude.◌>>=◌ (c_str src) λ text.
    if leb (length text + 1) (length dst)
    then some (text ++ (0 ∷ drop (length text + 1) dst))
    else none

abbrev pub result_of : TransactionResult → Result
result_of TransactionResult.not_found = Result.not_found
result_of TransactionResult.limit_exceeded = Result.invalid_request
result_of TransactionResult.success = Result.success

-- What the stack holds where the code declares `int version;` and `Customer customer;`.
pub record Unset : Type 0 where
  pub version : ℤ
  pub customer : Customer

module _ (absl : Absl) (c : Client) (l : Layout) (clock : Clock c.World) where
  -- What a worker thread reaches: the shared state and its own clock text.
  pub record Worker : Type 0 where
    pub shared : Shared c l
    pub cache : TimeCache

  abbrev pub on_shared : {A : Type 0} → Action (Shared c l) A → Action Worker A
  on_shared m s = Prelude.◌>>=◌ (m s.shared) λ r. some (r.0, record s { shared = r.1 })

  -- `GetTime()`: the text that the pointer shows.
  abbrev pub current_time : Action Worker Bytes
  current_time s =
      let (cache', w) = get_time clock s.cache s.shared.world in
      some (cache'.time_str, record { shared = record (s.shared) { world = w }; cache = cache' })

  pub handle_balance :
      ℕ → Session c → Unset → Request → Bytes → Bytes → Action Worker (Result × Bytes)
  handle_balance rows s unset request time response_body = do
    r ← on_shared (maria_db_get_customer c l rows s request.id unset.version unset.customer)
    if not r.0 then pure (Result.not_found, response_body) else do
      data_extrato ← lift (c_str time)
      json ← lift (customer_to_json absl r.1 data_extrato)
      pure (Result.success, json)

  pub handle_transaction :
      ℕ → ℕ → Session c → Unset → Request → Bytes → Customer → Action Worker (Result × Customer)
  handle_transaction fuel rows s unset request time customer = do
    timestamp ← lift (strcpy request.transaction.timestamp time)
    r ← on_shared (
        maria_db_execute_transaction c l fuel rows s request.id
          (record (request.transaction) { timestamp = timestamp }) unset.version customer)
    pure (result_of r.0, r.1)

  -- `HandleRequest`: the result, the response body and the customer as they are left.
  unfoldable pub handle_request :
      ℕ
      → ℕ
      → Session c
      → Unset
      → Request
      → Bytes
      → Customer
      → Action Worker (Result × Bytes × Customer)
  unfolding handle_balance handle_transaction
  handle_request fuel rows s unset request response_body customer = do
    time ← current_time
    elim request.type [
      | RequestType.balance ↦
          handle_balance rows s unset request time response_body >>= λ r. pure (r.0, r.1, customer)
      | RequestType.transaction ↦
          handle_transaction fuel rows s unset request time customer >>= λ r.
          pure (r.0, response_body, r.1)
    ]
