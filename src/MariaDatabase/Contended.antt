-- ===== src/MariaDatabase/Contended.antt =====
-- What the program relies on of a server on which other processes change the row of a customer too:
-- the requests of a call are served one at a time, and before each of them the others may have
-- stored transactions, by the rule of the bank.
use rinha.Prelude.{ℕ, ◌+◌, ◌≡◌, ℤ, pos, FitsInt, List, [], ◌++◌, ◌==◌, if◌then◌else◌}
use rinha.Prelude.{some}
use rinha.Structs.{Transaction, Customer}
use rinha.HandlerSocket.Interface.{Client, Layout, Row}
use rinha.HandlerSocket.{Session, id_text}
use rinha.HandlerSocket.Server.{Fetches, Answers, found_rows, find_request, received}
use rinha.HandlerSocket.Replies.{update_of, modified_rows}
use rinha.MariaDatabase.Ledger.{Stand, after}

module _ (c : Client) (s : Session c) (l : Layout) (id : ℤ) where
  open c use {World, Handle, response_buf_remove}

  -- A request between two worlds: the others go first with some of what they still have to do.
  pub record Turn (row : World → Stand) (others : World → List Transaction) (w w' : World)
      : Type 0 where
    pub front : List Transaction
    pub back : List Transaction
    pub split : others w ≡ front ++ back
    pub left : others w' ≡ back

  pub record Contended : Type 1 where
    -- no request is on its way
    pub Idle : World → Type 0
    -- the row of the customer
    pub row : World → Stand
    -- the transactions that the other processes will still store, in order
    pub others : World → List Transaction
    -- the rows of the response that were not fetched yet
    pub rows : Handle → World → List Row
    pub fetches : Fetches c {A = Stand × List Transaction} rows (λ w. (row w, others w))
    pub removed :
        (h : Handle) (w : World)
        → rows h w ≡ []
        → Idle (response_buf_remove h w)
          × (row (response_buf_remove h w) ≡ row w)
          × (others (response_buf_remove h w) ≡ others w)
    pub find_answers :
        (w : World) → Idle w → Answers c s s.read_ptr 3 (find_request c s (id_text id) w)
    pub find_rows :
        (w : World)
        → Idle w
        → let w' = received c s s.read_ptr (find_request c s (id_text id) w) in
          (turn : Turn row others w w') × (row w' ≡ after turn.front (row w))
          × (rows s.read_ptr w'
              ≡ found_rows (id_text id) (some (l.to_bytes (row w').0, pos (row w').1)))
    pub update_answers :
        (w : World) (x : Customer) (version : ℕ)
        → Idle w
        → Answers c s s.write_ptr 1 (update_of s l id x (pos version) w)
    -- The row is replaced where it has the version of the request.
    pub update_rows :
        (w : World) (x : Customer) (version : ℕ)
        → Idle w
        → FitsInt (pos (version + 1))
        → let w' = received c s s.write_ptr (update_of s l id x (pos version) w) in
          (turn : Turn row others w w') × (row w' ≡ (
            if (after turn.front (row w)).1 == version
            then (x, version + 1)
            else after turn.front (row w)))
          × (rows s.write_ptr w' ≡ modified_rows ((after turn.front (row w)).1 == version))
