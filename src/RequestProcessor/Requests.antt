-- ===== src/RequestProcessor/Requests.antt =====
-- The bytes of a request in the buffer of a connection, and its response.
use rinha.Prelude.{
  ℕ, zero, suc, ◌-◌, ◌≡◌, ◌≢◌, refl, ap, inl, inr, ℤ, pos, negsuc, neg, ◌≤ℤ◌, ◌+ℤ◌, FitsInt,
  decimal, true, some, [], ◌∷◌, ◌++◌, ◌^◌, Bytes, length, All, write_at-front, ne→==, arith,
}
use rinha.Prelude.Stateful.{>>=-some}
use rinha.Structs.{Transaction, Customer, Request, RequestType, TransactionResult}
use rinha.Absl.{Absl, Laws}
use rinha.Os.{Os}
use rinha.Time.{Clock}
use rinha.FromHttp.Positions.{view_of}
use rinha.FromHttp.Body.{Body, IsWellFormed, amount, closed}
use rinha.FromHttp.Requests.{post, IsPost, from_http-post}
use rinha.HandlerSocket.Interface.{Client, Layout}
use rinha.HandlerSocket.{Session}
use rinha.HandlerSocket.Server.{Server}
use rinha.MariaDatabase.Execute.{Stored, Executed}
use rinha.RequestHandler.{result_of, Unset, Worker, handle_request}
use rinha.RequestProcessor.{
  Processor, strlen, request_view, k_bad_request_header, k_not_found_header, response_for,
  success_response, answer, process,
}
use rinha.RequestProcessor.Numbers.{pad, length-pad}
use rinha.RequestProcessor.Response.{Fields, layout, IsTemplate, build_transaction_response-pad}

strlen-text :
    (text rest : Bytes) → All (λ c. c ≢ 0) text → strlen (text ++ (0 ∷ rest)) ≡ some (length text)
unfolding strlen
strlen-text [] rest all = refl
strlen-text (c ∷ text) rest (first, others) =
    rw (ne→== c 0 first, strlen-text text rest others) (ap some (omega arith))

-- A text with no zero byte that was read into a buffer is the view of the request.
pub request_view-text :
    (text rest : Bytes) (x : ℕ)
    → All (λ c. c ≢ 0) text
    → request_view (text ++ (x ∷ rest)) (length text) ≡ some (view_of text (0 ∷ rest))
unfolding request_view
request_view-text text rest x all =
    rw (write_at-front text rest x 0 (length text) refl, strlen-text text rest all) refl

limit_printable : (limit : ℤ) → FitsInt (neg limit) → limit ≢ negsuc (2 ^ 31 - 1)
unfolding neg
limit_printable (pos n) h e = absurd (ground (arith, e))
limit_printable (negsuc n) h e = absurd (ground (arith, e))

-- The least `int` lies below every negated limit.
sum_printable : (limit sum : ℤ) → FitsInt limit → neg limit ≤ℤ sum → sum ≢ negsuc (2 ^ 31 - 1)
unfolding neg
sum_printable (pos zero) sum fits above e = absurd (ground (arith, e, above))
sum_printable (pos (suc n)) sum fits above e = absurd (ground (arith, e, above))
sum_printable (negsuc n) sum fits above e = absurd (ground (arith, e, above))

module _ {c : Client} {s : Session c} (server : Server c s) (l : Layout) (absl : Absl)
    (clock : Clock c.World) (os : Os c.World) where
  -- The response to the outcome of a transaction.
  abbrev pub response_to : Fields → TransactionResult × Customer → Bytes
  response_to f (TransactionResult.success, x) =
      layout (record f { limite = pad 20 (decimal x.limit); saldo = pad 21 (decimal x.balance) })
  response_to f (TransactionResult.limit_exceeded, x) = k_bad_request_header
  response_to f (TransactionResult.not_found, x) = k_not_found_header

  -- The request in the bytes of a `POST`.
  abbrev pub request_in : ℕ → Body → Request → Request
  request_in d b fresh = record {
    type = RequestType.transaction;
    id = pos d;
    transaction = record (fresh.transaction) {
      value = amount b;
      description = closed b.description fresh.transaction.description;
    };
  }

  pub parsed_runs :
      (fuel rows : ℕ) (unset : Unset) (fresh : Request) (head : Bytes) (b : Body) (d x : ℕ)
      (rest : Bytes) (p p' : Processor absl c l clock os) (r : TransactionResult × Customer)
      → Laws absl
      → IsPost head b d
      → IsWellFormed b
      → All (λ c. c ≢ 0) (post head b)
      → length fresh.transaction.description ≡ 11
      → answer absl c l clock os fuel rows s unset true (request_in d b fresh) p
        ≡ some ((result_of r.0, r.1), p')
      → process absl c l clock os fuel rows s unset fresh
          (post head b ++ (x ∷ rest))
          (length (post head b))
          p
        ≡ response_for absl c l clock os (result_of r.0) (request_in d b fresh) r.1 p'
  unfolding process
  parsed_runs fuel rows unset fresh head b d x rest p p' r laws h v all room runs =
      rw
        (
          request_view-text (post head b) rest x all,
          from_http-post head b d h (0 ∷ rest) absl laws v fresh room,
        )
        (>>=-some (answer absl c l clock os fuel rows s unset true (request_in d b fresh)) _ runs)

  pub answer_runs :
      (fuel rows : ℕ) (unset : Unset) (request : Request) (p : Processor absl c l clock os)
      (r : TransactionResult × Customer) (worker : Worker absl c l clock)
      → handle_request absl c l clock fuel rows s unset request p.response_body unset.customer
          p.worker
        ≡ some ((result_of r.0, p.response_body, r.1), worker)
      → answer absl c l clock os fuel rows s unset true request p
        ≡ some ((result_of r.0, r.1), record p { worker = worker })
  unfolding answer
  answer_runs fuel rows unset request p r worker runs = rw runs refl

  -- The buffer of the thread that a response to a transaction was printed into, or that is as it was.
  abbrev pub fields_after : Fields → TransactionResult × Customer → Fields
  fields_after f (TransactionResult.success, x) = record f {
    limite = pad 20 (decimal x.limit);
    saldo = pad 21 (decimal x.balance);
  }
  fields_after f (TransactionResult.limit_exceeded, x) = f
  fields_after f (TransactionResult.not_found, x) = f

  abbrev pub Printable : TransactionResult × Customer → Type 0
  Printable (TransactionResult.success, x) =
      FitsInt x.limit
      × FitsInt x.balance
      × (x.limit ≢ negsuc (2 ^ 31 - 1))
      × (x.balance ≢ negsuc (2 ^ 31 - 1))
  Printable (TransactionResult.limit_exceeded, x) = Unit {0}
  Printable (TransactionResult.not_found, x) = Unit {0}

  pub response_runs :
      (request : Request) (f : Fields) (r : TransactionResult × Customer)
      (p : Processor absl c l clock os)
      → request.type ≡ RequestType.transaction
      → p.transaction_result_buffer ≡ layout f
      → IsTemplate f
      → Printable r
      → response_for absl c l clock os (result_of r.0) request r.1 p
        ≡ some (response_to f r, record p { transaction_result_buffer = layout (fields_after f r) })
  unfolding response_for success_response
  response_runs request f (TransactionResult.success, x) p kind e v
        (limit, balance, limit', balance') =
      rw (kind, e, build_transaction_response-pad f x v limit balance limit' balance') refl
  response_runs request f (TransactionResult.limit_exceeded, x) p kind e v _ = rw (← e) refl
  response_runs request f (TransactionResult.not_found, x) p kind e v _ = rw (← e) refl

  pub fields_after-IsTemplate :
      (f : Fields) (r : TransactionResult × Customer)
      → IsTemplate f
      → Printable r
      → IsTemplate (fields_after f r)
  fields_after-IsTemplate f (TransactionResult.success, x) v (limit, balance, limit', balance') =
      record {
        head_length = v.head_length;
        middle_length = v.middle_length;
        limite_length = length-pad x.limit 20 limit limit' (omega arith);
        saldo_length = length-pad x.balance 21 balance balance' (omega arith);
      }
  fields_after-IsTemplate f (TransactionResult.limit_exceeded, x) v _ = v
  fields_after-IsTemplate f (TransactionResult.not_found, x) v _ = v

  -- What the call has stored can be printed.
  pub Executed-Printable :
      (key : Bytes) (customer : Customer) (t : Transaction) (version : ℤ) (w w' : c.World)
      (r : TransactionResult × Customer)
      → Stored server l key customer t version w
      → FitsInt customer.limit
      → Executed server l key customer t version w r w'
      → Printable r
  Executed-Printable key customer t version w w' (r, x) h fits (inl (below, result, _, _)) =
      rw result tt
  Executed-Printable key customer t version w w' (r, x) h fits
        (inr (above, result, _, balance, limit, _, _)) =
      rw (result, balance, limit)
        (
          fits,
          h.sum_fits,
          limit_printable customer.limit h.limit_fits,
          sum_printable customer.limit (customer.balance +ℤ t.value) fits above,
        )
