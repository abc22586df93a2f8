-- ===== src/HandlerSocket/Read.antt =====
-- `ReadCustomerHs` on a server that answers.
use rinha.Prelude.{ℕ, suc, ◌≡◌, ap, ◌∙◌, ℤ, FitsInt, true, none, some}
use rinha.Structs.{Customer}
use rinha.HandlerSocket.Interface.{Client, Layout}
use rinha.HandlerSocket.{Session, id_text, read_fields, read_customer_hs}
use rinha.HandlerSocket.Server.{Server, found_rows, find_request, received}
use rinha.HandlerSocket.Replies.{each_row-none, read_answered, read_customer_hs-answered}

module _ {c : Client} {s : Session c} (server : Server c s) where
  open c use {World, response_buf_remove}
  open server use {Idle, table, rows}

  module _ (l : Layout) where
    -- On an idle server that answers, a stored customer is read with its version, whatever the
    -- variables held, and nothing changes in the table: its bytes must be those of the customer, and
    -- the version must fit an `int`.
    pub read_customer_hs-found :
        (fuel : ℕ) (id : ℤ) (customer out : Customer) (version unset : ℤ) (w : World)
        → Idle w
        → FitsInt version
        → l.of_bytes (l.to_bytes customer) ≡ some customer
        → table w (id_text id) ≡ some (l.to_bytes customer, version)
        → (w' : World) × (read_customer_hs c l (suc (suc fuel)) s id out unset w
            ≡ some ((true, customer, version), w'))
          × Idle w'
          × (table w' ≡ table w)
    read_customer_hs-found fuel id customer out version unset w idle fits read_back stored =
        let (answer, kept) = server.find_rows w (id_text id) idle in
        let one : rows s.read_ptr (received c s s.read_ptr (find_request c s (id_text id) w))
            ≡ found_rows (id_text id) (some (l.to_bytes customer, version)) =
          answer ∙ ap (found_rows (id_text id)) stored in
        let (w1, reads, done, same) =
          read_customer_hs-answered s l server.fetches fuel id customer out version unset w
            (server.find_answers w (id_text id) idle) fits read_back one in
        let (idle', same') = server.removed s.read_ptr w1 done in
        (response_buf_remove s.read_ptr w1, reads, idle', same' ∙ same ∙ kept)

    -- On an idle server that answers, where no customer has the id, the call still returns true, and
    -- leaves what the caller's variables held.
    pub read_customer_hs-missing :
        (fuel : ℕ) (id : ℤ) (out : Customer) (unset : ℤ) (w : World)
        → Idle w
        → table w (id_text id) ≡ none
        → (w' : World) × (read_customer_hs c l (suc fuel) s id out unset w
            ≡ some ((true, out, unset), w'))
          × Idle w'
          × (table w' ≡ table w)
    read_customer_hs-missing fuel id out unset w idle stored =
        let (answer, kept) = server.find_rows w (id_text id) idle in
        let (w1, loop, done, same) =
          each_row-none server.fetches fuel s.read_ptr (λ row o. read_fields l 3 0 row o)
            (out, unset) _ (answer ∙ ap (found_rows (id_text id)) stored) in
        let (idle', same') = server.removed s.read_ptr w1 done in
        (
          response_buf_remove s.read_ptr w1,
          read_answered s l (suc fuel) id out unset w (server.find_answers w (id_text id) idle)
              (out, unset) w1 loop,
          idle',
          same' ∙ same ∙ kept,
        )
