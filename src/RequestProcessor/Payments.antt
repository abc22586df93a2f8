-- ===== src/RequestProcessor/Payments.antt =====
-- `ProcessRequest` on the bytes of a transaction request, from the buffer of the connection to the
-- bytes that the client gets.
use rinha.Prelude.{
  ℕ, suc, ◌≡◌, ◌≢◌, codes, replicate, decimal, refl, ◌∙◌, ℤ, pos, negsuc, FitsInt, add_int,
  pos_part, false, some, ◌∷◌, ◌++◌, Bytes, length, get_elem?, All,
}
use rinha.Structs.{Customer, Request, TransactionResult}
use rinha.Absl.{Absl, Laws}
use rinha.Os.{Os}
use rinha.Time.{Clock, get_time}
use rinha.FromHttp.Body.{Body, IsWellFormed}
use rinha.FromHttp.Requests.{post, IsPost}
use rinha.HandlerSocket.Interface.{Client, Layout}
use rinha.HandlerSocket.{Session, id_text}
use rinha.HandlerSocket.Server.{Server}
use rinha.MariaDatabase.{unknown_id}
use rinha.MariaDatabase.Execute.{Stored, Executed}
use rinha.RequestHandler.{strcpy, Unset}
use rinha.RequestHandler.Transactions.{stamped, handle_request-Executed}
use rinha.RequestProcessor.{Processor, process}
use rinha.RequestProcessor.Numbers.{pad}
use rinha.RequestProcessor.Response.{Fields, layout, IsTemplate}
use rinha.RequestProcessor.Requests.{
  response_to, request_in, parsed_runs, answer_runs, fields_after, response_runs,
  fields_after-IsTemplate, Executed-Printable,
}

-- The texts round the two fields, and the zeros behind them.
pub record IsOk (f : Fields) : Type 0 where
  pub head :
      f.head
      ≡ codes
          "HTTP/1.1 200 OK\r\nContent-Type: application/json\r\nContent-Length: 62\r\n\r\n{\"limite\":"
  pub middle : f.middle ≡ codes ", \"saldo\":"
  pub tail : f.tail ≡ codes "}" ++ replicate 7 0

-- What the client gets for the outcome of a transaction.
abbrev pub reply : TransactionResult × Customer → Bytes
reply (TransactionResult.success, x) =
    codes
      "HTTP/1.1 200 OK\r\nContent-Type: application/json\r\nContent-Length: 62\r\n\r\n{\"limite\":"
    ++ (pad 20 (decimal x.limit)
        ++ (codes ", \"saldo\":" ++ (pad 21 (decimal x.balance) ++ (codes "}" ++ replicate 7 0))))
reply (TransactionResult.limit_exceeded, x) =
    codes "HTTP/1.1 422 Unprocessable Entity\r\nContent-Length: 0\r\n\r\n"
reply (TransactionResult.not_found, x) = codes "HTTP/1.1 404 NOT FOUND\r\nContent-Length: 0\r\n\r\n"

module _ {c : Client} {s : Session c} (server : Server c s) (l : Layout) (absl : Absl)
    (clock : Clock c.World) (os : Os c.World) where
  -- The conditions on the bytes of a request for a transaction, and on the server in the world that
  -- `GetTime` leaves.
  pub record IsPayment (p : Processor absl c l clock os) (fresh : Request) (head : Bytes) (b : Body)
      (d : ℕ) (timestamp : Bytes) (version : ℤ) (customer : Customer) (f : Fields) : Type 0 where
    pub is_post : IsPost head b d
    pub well_formed : IsWellFormed b
    pub no_zero : All (λ c. c ≢ 0) (post head b)
    pub room : length fresh.transaction.description ≡ 11
    pub copied :
        strcpy fresh.transaction.timestamp
          (get_time clock p.worker.cache p.worker.shared.world).0.time_str
        ≡ some timestamp
    pub known : unknown_id (pos d) ≡ false
    pub free :
        get_elem? p.worker.shared.customer_write_mutexs (pos_part (add_int (pos d) (negsuc 0)))
        ≡ some false
    pub stored :
        Stored server l
          (id_text (add_int (pos d) (negsuc 0)))
          customer
          (stamped server l absl clock (request_in server l absl clock os d b fresh) timestamp)
          version
          (get_time clock p.worker.cache p.worker.shared.world).1
    pub limit_fits : FitsInt customer.limit
    pub template : p.transaction_result_buffer ≡ layout f
    pub is_template : IsTemplate f
    pub texts : IsOk f

  -- `ProcessRequest` on the bytes of a well-formed `POST` for a stored customer, up to the writes: it
  -- returns, the table is that of the rule of the bank, with the value, the kind and the description
  -- of the text under the time that the worker shows, and the response is the limit and the new balance in the fixed
  -- places of the 200 template where the transaction is stored, and the 422 header where the limit
  -- refuses it. The buffer of the thread is again a template.
  pub process-Executed :
      (fuel rows : ℕ) (unset : Unset) (fresh : Request) (head : Bytes) (b : Body) (d x : ℕ)
      (rest timestamp : Bytes) (version : ℤ) (customer : Customer) (f : Fields)
      (p : Processor absl c l clock os)
      → Laws absl
      → IsPayment p fresh head b d timestamp version customer f
      → (r : TransactionResult × Customer) × (p' : Processor absl c l clock os) × (process absl c l
            clock os
            (suc fuel)
            (suc (suc rows))
            s
            unset
            fresh
            (post head b ++ (x ∷ rest))
            (length (post head b))
            p
          ≡ some (response_to server l absl clock os f r, p'))
        × Executed server l
            (id_text (add_int (pos d) (negsuc 0)))
            customer
            (stamped server l absl clock (request_in server l absl clock os d b fresh) timestamp)
            version
            (get_time clock p.worker.cache p.worker.shared.world).1
            r
            p'.worker.shared.world
        × server.Idle p'.worker.shared.world
        × (p'.transaction_result_buffer ≡ layout (fields_after server l absl clock os f r))
        × IsTemplate (fields_after server l absl clock os f r)
  process-Executed fuel rows unset fresh head b d x rest timestamp version customer f p laws h =
      let (r, w', runs, idle, done) =
        handle_request-Executed server l absl clock fuel rows unset
          (request_in server l absl clock os d b fresh) p.response_body timestamp version customer
          unset.customer p.worker refl h.copied h.known h.free h.stored in
      let printable =
        Executed-Printable server l absl clock os _ customer _ version _ w' r h.stored h.limit_fits
          done in
      (
        r,
        _,
        parsed_runs server l absl clock os (suc fuel) (suc (suc rows)) unset fresh head b d x rest p
              _ r laws h.is_post h.well_formed h.no_zero h.room
              (answer_runs server l absl clock os (suc fuel) (suc (suc rows)) unset
                (request_in server l absl clock os d b fresh) p r _ runs)
            ∙ response_runs server l absl clock os (request_in server l absl clock os d b fresh) f r
                _ refl h.template h.is_template printable,
        done,
        idle,
        refl,
        fields_after-IsTemplate server l absl clock os f r h.is_template printable,
      )
