-- ===== src/RequestProcessor.antt =====
-- rinha/request_processor.cc: a received buffer, the response that it gets, and the writes.
pub mod Numbers
pub mod Response
pub mod Sending
pub mod Requests
pub mod Payments
pub mod Extracts
use rinha.Prelude.{
  ℕ, zero, suc, ◌+◌, ◌-◌, ◌/◌, ◌%◌, ℤ, pos, negsuc, pos_part, ltb_ℤ, neg_int, Bool, true, false,
  not, Option, none, some, List, [], ◌∷◌, ◌++◌, Bytes, codes, ltb, ◌==◌, if◌then◌else◌, length,
  take, drop, replicate, write_at, set,
}
use rinha.Prelude
use rinha.Prelude.Stateful.{Action, pure, lift, stopped, effect, modify, ◌>>=◌, ◌>>◌}
use rinha.Structs.{Transaction, Customer, Request, RequestType, Result}
use rinha.Absl.{Absl}
use rinha.Os.{Os, Written, count, error}
use rinha.FromHttp.{View, from_http}
use rinha.Time.{Clock}
use rinha.HandlerSocket.Interface.{Client, Layout}
use rinha.HandlerSocket.{Session}
use rinha.RequestHandler.{Worker, Unset, handle_request}

abbrev pub k_ok_header : Bytes
k_ok_header = codes "HTTP/1.1 200 OK\r\nContent-Type: application/json\r\nContent-Length: "

abbrev pub k_bad_request_header : Bytes
k_bad_request_header = codes "HTTP/1.1 422 Unprocessable Entity\r\nContent-Length: 0\r\n\r\n"

abbrev pub k_not_found_header : Bytes
k_not_found_header = codes "HTTP/1.1 404 NOT FOUND\r\nContent-Length: 0\r\n\r\n"

-- The text that `transaction_result_buffer` begins with; the array has 140 bytes.
abbrev pub transaction_template : Bytes
transaction_template =
    codes "HTTP/1.1 200 OK\r\nContent-Type: "
    ++ (codes "application/json\r\nContent-Length: 62\r\n\r\n"
        ++ codes "{\"limite\":                    , \"saldo\":                     }")

abbrev pub initial_buffer : Bytes
initial_buffer = transaction_template ++ replicate 7 0

abbrev pub k_limite_begin_idx : ℕ
k_limite_begin_idx = 31 + 40 + 11 - 1

abbrev pub k_limite_end_idx : ℕ
k_limite_end_idx = 31 + 40 + 30 - 1

abbrev pub k_saldo_begin_idx : ℕ
k_saldo_begin_idx = 31 + 40 + 41 - 1

abbrev pub k_saldo_end_idx : ℕ
k_saldo_end_idx = 31 + 40 + 61 - 1

-- `while (number > 0)`: the digits from the last one back. `next` is `i + 1`, and a write at -1 is a
-- fault. A positive `int` has at most as many rounds as its value.
pub digits_loop : ℕ → ℕ → Bytes → ℕ → Option (Bytes × ℕ)
digits_loop zero number str next = some (str, next)
digits_loop (suc fuel) zero str next = some (str, next)
digits_loop (suc fuel) (suc n) str zero = none
digits_loop (suc fuel) (suc n) str (suc i) =
    Prelude.◌>>=◌ (write_at str i (suc n % 10 + b'0')) λ str'. digits_loop fuel (suc n / 10) str' i

-- `str[i] = '-'` with `next` again `i + 1`.
pub write_sign : Bytes → ℕ → Option Bytes
write_sign str zero = none
write_sign str (suc i) = write_at str i b'-'

-- `WriteNumberToString`
pub write_number_to_string : ℤ → Bytes → ℕ → Option Bytes
unfolding digits_loop write_sign
write_number_to_string (pos zero) str end_idx = write_at str end_idx b'0'
write_number_to_string (pos (suc n)) str end_idx =
    Prelude.◌>>=◌ (digits_loop (suc n) (suc n) str (end_idx + 1)) λ r. some r.0
write_number_to_string (negsuc n) str end_idx =
    let number = pos_part (neg_int (negsuc n)) in
    Prelude.◌>>=◌ (digits_loop number number str (end_idx + 1)) λ r. write_sign r.0 r.1

-- `memset(str + from, c, n)`
pub memset : ℕ → ℕ → ℕ → Bytes → Option Bytes
memset from c zero str = some str
memset from c (suc n) str = Prelude.◌>>=◌ (write_at str from c) λ str'. memset (from + 1) c n str'

-- `BuildTransactionResponse`
pub build_transaction_response : Bytes → Customer → Option Bytes
build_transaction_response buffer customer =
    Prelude.◌>>=◌ (memset k_limite_begin_idx 32 (k_limite_end_idx - k_limite_begin_idx + 1) buffer)
      λ b1.
        Prelude.◌>>=◌ (memset k_saldo_begin_idx 32 (k_saldo_end_idx - k_saldo_begin_idx + 1) b1)
          λ b2.
            Prelude.◌>>=◌ (write_number_to_string customer.limit b2 k_limite_end_idx)
              λ b3. write_number_to_string customer.balance b3 k_saldo_end_idx

-- The length of the C string at the start of a buffer.
pub strlen : Bytes → Option ℕ
strlen [] = none
strlen (c ∷ s) =
    let rest = Prelude.◌>>=◌ (strlen s) (λ n. some (n + 1)) in if c == 0 then some 0 else rest

-- `absl::string_view(buffer.data())` after `buffer[num_read] = '\0'`.
pub request_view : Bytes → ℕ → Option View
unfolding strlen
request_view buffer num_read =
    Prelude.◌>>=◌ (write_at buffer num_read 0)
      λ mem. Prelude.◌>>=◌ (strlen mem) λ n. some (record { mem = mem; size = n })

module _ {W : Type 0} (os : Os W) where
  -- The loop that sends the response: what is left of it, and whether the connection is closed.
  -- A count of 0 ends it like an error, so the length of the response is enough fuel.
  pub write_loop : ℕ → ℕ → Bytes → Action W (Bytes × Bool)
  write_loop zero fd [] = pure ([], false)
  write_loop zero fd (b ∷ response) = stopped
  write_loop (suc fuel) fd [] = pure ([], false)
  write_loop (suc fuel) fd (b ∷ response) = do
    r ← effect (os.write fd (b ∷ response))
    elim r [
      | error again ↦ pure (b ∷ response, not again)
      | count zero ↦ pure (b ∷ response, true)
      | count (suc n) ↦ write_loop fuel fd (drop (suc n) (b ∷ response))
    ]

  pub send_response : ℕ → Bytes → Action W Bytes
  send_response fd response = do
    r ← write_loop (length response) fd response
    modify (λ w. if r.1 then os.close fd w else w)
    pure r.0

module _ (absl : Absl) (c : Client) (l : Layout) (clock : Clock c.World) (os : Os c.World) where
  -- A worker with the buffers that `ProcessRequest` keeps for its thread.
  pub record Processor : Type 0 where
    pub worker : Worker absl c l clock
    pub response_body : Bytes
    pub transaction_result_buffer : Bytes

  -- The `switch` on a success: the response, and the buffers as they are left.
  pub success_response : Request → Customer → Processor → Option (Bytes × Processor)
  success_response request customer p = elim request.type [
    | RequestType.transaction ↦
        Prelude.◌>>=◌ (build_transaction_response p.transaction_result_buffer customer)
          λ b. some (b, record p { transaction_result_buffer = b })
    | RequestType.balance ↦ some (
      absl.str_cat (
          k_ok_header
          ∷ absl.of_int (pos (length p.response_body))
          ∷ codes "\r\n\r\n"
          ∷ p.response_body
          ∷ []),
      p,
    )
  ]

  pub response_for : Result → Request → Customer → Processor → Option (Bytes × Processor)
  unfolding success_response
  response_for Result.success request customer p = success_response request customer p
  response_for Result.invalid_request request customer p = some (k_bad_request_header, p)
  response_for Result.not_found request customer p = some (k_not_found_header, p)

  -- `HandleRequest`, or `INVALID_REQUEST` where the request was not read.
  pub answer : ℕ → ℕ → Session c → Unset → Bool → Request → Action Processor (Result × Customer)
  answer fuel rows s unset false request = pure (Result.invalid_request, unset.customer)
  answer fuel rows s unset true request = λ p.
      Prelude.◌>>=◌
        (handle_request absl c l clock fuel rows s unset request p.response_body unset.customer
          p.worker)
        λ r. some ((r.0.0, r.0.2), record p { worker = r.1; response_body = r.0.1 })

  -- `ProcessRequest` up to the writes: the response to the bytes in a buffer.
  pub process : ℕ → ℕ → Session c → Unset → Request → Bytes → ℕ → Action Processor Bytes
  unfolding request_view answer response_for
  process fuel rows s unset fresh buffer num_read = do
    http ← lift (request_view buffer num_read)
    parsed ← lift (from_http absl http fresh)
    r ← answer fuel rows s unset parsed.0 parsed.1
    λ p. response_for r.0 parsed.1 r.1 p

  -- `ProcessRequest`: what could not be sent.
  unfoldable pub process_request :
      ℕ → ℕ → Session c → Unset → Request → Bytes → ℕ → ℕ → Action Processor Bytes
  unfolding process
  process_request fuel rows s unset fresh buffer num_read client_fd = do
    response ← process fuel rows s unset fresh buffer num_read
    λ p. Prelude.◌>>=◌ (send_response os client_fd response p.worker.shared.world) λ r. some (
      r.0,
      record p { worker = record (p.worker) { shared = record (p.worker.shared) { world = r.1 } } },
    )
