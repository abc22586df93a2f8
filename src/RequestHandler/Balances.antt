-- ===== src/RequestHandler/Balances.antt =====
-- A balance request from its request to its result.
use rinha.Prelude.{
  ℕ, suc, ◌≡◌, refl, ◌∙◌, ℤ, negsuc, add_int, FitsInt, true, false, some, List, Bytes,
}
use rinha.Prelude.Stateful.{>>=-some}
use rinha.Structs.{Customer, Request, RequestType, Result}
use rinha.Absl.{Absl, Laws, concat}
use rinha.Time.{Clock, get_time}
use rinha.Customers.{recent, IsRing}
use rinha.ToJson.{c_str, customer_to_json}
use rinha.ToJson.Extract.{texts}
use rinha.ToJson.Statement.{pieces, customer_to_json-recent}
use rinha.HandlerSocket.Interface.{Client, Layout}
use rinha.HandlerSocket.{Session, id_text}
use rinha.HandlerSocket.Server.{Server}
use rinha.MariaDatabase.{Shared, unknown_id, maria_db_get_customer}
use rinha.MariaDatabase.Balance.{maria_db_get_customer-found}
use rinha.RequestHandler.{Unset, Worker, on_shared, handle_balance, handle_request}
use rinha.RequestHandler.Transactions.{on_shared-some}

module _ {c : Client} {s : Session c} (server : Server c s) (l : Layout) (absl : Absl)
    (clock : Clock c.World) where
  -- The conditions: the customer is stored, in the world that `GetTime` leaves, and the texts of its
  -- transactions and of the time end inside their arrays.
  pub record IsQuery (worker : Worker absl c l clock) (id : ℤ) (customer : Customer) (version : ℤ)
      (time : Bytes) (listed : List Bytes) : Type 0 where
    pub known : unknown_id id ≡ false
    pub idle : server.Idle (get_time clock worker.cache worker.shared.world).1
    pub version_fits : FitsInt version
    pub read_back : l.of_bytes (l.to_bytes customer) ≡ some customer
    pub stored :
        server.table
          (get_time clock worker.cache worker.shared.world).1
          (id_text (add_int id (negsuc 0)))
        ≡ some (l.to_bytes customer, version)
    pub ring : IsRing customer
    pub time_text : c_str (get_time clock worker.cache worker.shared.world).0.time_str ≡ some time
    pub listed_texts : texts absl (recent customer) ≡ some listed

  printed :
      (laws : Laws absl) (customer : Customer) (time : Bytes) (listed : List Bytes)
      → IsRing customer
      → texts absl (recent customer) ≡ some listed
      → customer_to_json absl customer time ≡ some (concat (pieces customer time listed))
  printed laws customer time listed ring found =
      customer_to_json-recent absl customer time laws ring ∙ rw found refl

  balance_runs :
      (rows : ℕ) (unset : Unset) (request : Request) (time_str time json body : Bytes)
      (customer : Customer) (worker : Worker absl c l clock) (shared : Shared c l)
      → maria_db_get_customer c l rows s request.id unset.version unset.customer worker.shared
        ≡ some ((true, customer), shared)
      → c_str time_str ≡ some time
      → customer_to_json absl customer time ≡ some json
      → handle_balance absl c l clock rows s unset request time_str body worker
        ≡ some ((Result.success, json), record worker { shared = shared })
  unfolding handle_balance
  balance_runs rows unset request time_str time json body customer worker shared reads text prints =
      >>=-some
        (on_shared absl c l clock
          (maria_db_get_customer c l rows s request.id unset.version unset.customer))
        _
        (on_shared-some server l absl clock
          (maria_db_get_customer c l rows s request.id unset.version unset.customer) worker reads)
      ∙ rw (text, prints) refl

  -- A balance request of a stored customer succeeds: the response body is the extract, with the
  -- balance, the limit, the time that the worker shows and the latest transactions, no row changes, and the caller's customer stays.
  pub handle_request-pieces :
      (fuel rows : ℕ) (unset : Unset) (request : Request) (response_body time : Bytes) (version : ℤ)
      (customer out : Customer) (listed : List Bytes) (worker : Worker absl c l clock)
      → Laws absl
      → request.type ≡ RequestType.balance
      → IsQuery worker request.id customer version time listed
      → (w' : c.World) × (handle_request absl c l clock fuel
            (suc (suc rows))
            s
            unset
            request
            response_body
            out
            worker
          ≡ some (
            (Result.success, concat (pieces customer time listed), out),
            record {
              shared = record (worker.shared) { world = w' };
              cache = (get_time clock worker.cache worker.shared.world).0;
            },
          ))
        × server.Idle w'
        × (server.table w' ≡ server.table (get_time clock worker.cache worker.shared.world).1)
  unfolding handle_request
  handle_request-pieces fuel rows unset request response_body time version customer out listed
        worker laws kind h =
      let after = get_time clock worker.cache worker.shared.world in
      let shared1 : Shared c l = record (worker.shared) { world = after.1 } in
      let worker1 : Worker absl c l clock = record { shared = shared1; cache = after.0 } in
      let (w', reads, idle, same) =
        maria_db_get_customer-found server l rows request.id unset.version version customer
          unset.customer shared1 h.known h.idle h.version_fits h.read_back h.stored in
      (
        w',
        rw kind (
            >>=-some
              (handle_balance absl c l clock (suc (suc rows)) s unset request after.0.time_str
                response_body)
              _
              (balance_runs (suc (suc rows)) unset request after.0.time_str time
                (concat (pieces customer time listed)) response_body customer worker1
                (record shared1 { world = w' }) reads h.time_text
                (printed laws customer time listed h.ring h.listed_texts))),
        idle,
        same,
      )
