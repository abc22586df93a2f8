-- ===== src/HandlerSocket/Write.antt =====
-- `WriteCustomerHs` on a server that answers, and after an error.
use rinha.Prelude.{
  ℕ, suc, ◌≡◌, ◌≢◌, ◌∙◌, ℤ, pos, decimal, add_int, add_int-FitsInt, true, false, some, Bytes,
}
use rinha.Structs.{Customer}
use rinha.HandlerSocket.Interface.{Client, Layout}
use rinha.HandlerSocket.{Session, id_text, write_customer_hs}
use rinha.HandlerSocket.Server.{Server, put}
use rinha.HandlerSocket.Replies.{write_customer_hs-answered}

module _ {c : Client} (s : Session c) (l : Layout) where
  open c use {World, Handle, request_send, get_error_code, response_recv, response_buf_remove}

  module _ (server : Server c s) where
    open server use {Idle, table, rows}

    -- On an idle server that answers, the row that still has the version that was read is replaced
    -- by the customer under the next version, no other row changes, and the call returns true.
    pub write_customer_hs-hit :
        (fuel : ℕ) (id : ℤ) (customer : Customer) (version : ℤ) (old : Bytes) (w : World)
        → Idle w
        → table w (id_text id) ≡ some (old, version)
        → (w' : World) × (write_customer_hs c l (suc (suc fuel)) s id customer version w
            ≡ some (true, w'))
          × Idle w'
          × (table w'
              ≡ put (table w) (id_text id) (some (l.to_bytes customer, add_int version (pos 1))))
    write_customer_hs-hit fuel id customer version old w idle stored =
        let (answer, new) =
          server.update_hit w (id_text id) (l.to_bytes customer) old version
            (add_int version (pos 1)) idle (add_int-FitsInt version (pos 1)) stored in
        let (w1, loop, done, same) =
          write_customer_hs-answered s l server.fetches fuel id customer version w true
            (server.update_answers w (id_text id) (decimal version) (l.to_bytes customer)
              (decimal (add_int version (pos 1))) idle)
            answer in
        let (idle', same') = server.removed s.write_ptr w1 done in
        (response_buf_remove s.write_ptr w1, loop, idle', same' ∙ same ∙ new)

    -- On an idle server that answers, where the row has another version by now or is not there, no
    -- row changes and the call returns false.
    pub write_customer_hs-miss :
        (fuel : ℕ) (id : ℤ) (customer : Customer) (version : ℤ) (w : World)
        → Idle w
        → ((old : Bytes) (v : ℤ)
            → decimal v ≡ decimal version
            → table w (id_text id) ≢ some (old, v))
        → (w' : World) × (write_customer_hs c l (suc (suc fuel)) s id customer version w
            ≡ some (false, w'))
          × Idle w'
          × (table w' ≡ table w)
    write_customer_hs-miss fuel id customer version w idle stale =
        let (answer, kept) =
          server.update_miss w (id_text id) (decimal version) (l.to_bytes customer)
            (decimal (add_int version (pos 1))) idle stale in
        let (w1, loop, done, same) =
          write_customer_hs-answered s l server.fetches fuel id customer version w false
            (server.update_answers w (id_text id) (decimal version) (l.to_bytes customer)
              (decimal (add_int version (pos 1))) idle)
            answer in
        let (idle', same') = server.removed s.write_ptr w1 done in
        (response_buf_remove s.write_ptr w1, loop, idle', same' ∙ same ∙ kept)
