-- ===== src/HandlerSocket/Server.antt =====
-- What the program relies on of a HandlerSocket server that answers: the documented meaning of the
-- two requests, as laws of the library's calls on the connections of a session.
use rinha.Prelude.{
  Bool, true, false, ◌&&◌, ◌==◌, if◌then◌else◌, ℕ, ◌≡◌, ◌≢◌, ℤ, pos, decimal, FitsInt, Option, none,
  some, List, [], ◌∷◌, Bytes, codes,
}
use rinha.HandlerSocket.Interface.{Client, Row}
use rinha.HandlerSocket.{Session}

-- The row of a customer in the table: `data` and `version`.
abbrev pub Entry : Type 0
Entry = Option (Bytes × ℤ)

abbrev pub same_bytes : Bytes → Bytes → Bool
same_bytes [] [] = true
same_bytes [] (d ∷ t) = false
same_bytes (c ∷ s) [] = false
same_bytes (c ∷ s) (d ∷ t) = c == d && same_bytes s t

-- The table with another entry at a key.
abbrev pub put : (Bytes → Entry) → Bytes → Entry → Bytes → Entry
put t key e k = if same_bytes k key then e else t k

-- The rows that answer a request for a key.
abbrev pub found_rows : Bytes → Entry → List Row
found_rows key none = []
found_rows key (some (data', version)) = (some key ∷ some data' ∷ some (decimal version) ∷ []) ∷ []

-- The rows of a response, of which a `get_next_row` takes the first; what a `view` shows of the world
-- stays.
pub record Fetches (c : Client) {A : Type 0} (rows : c.Handle → c.World → List Row)
    (view : c.World → A) : Type 0 where
  pub next_row :
      (h : c.Handle) (w : c.World) (r : Row) (rest : List Row)
      → rows h w ≡ r ∷ rest
      → ((c.get_next_row h w).0 ≡ some r)
        × (rows h (c.get_next_row h w).1 ≡ rest)
        × (view (c.get_next_row h w).1 ≡ view w)
  pub no_row :
      (h : c.Handle) (w : c.World)
      → rows h w ≡ []
      → ((c.get_next_row h w).0 ≡ none)
        × (rows h (c.get_next_row h w).1 ≡ [])
        × (view (c.get_next_row h w).1 ≡ view w)

module _ (c : Client) (s : Session c) where
  open c use {
    World, Handle, request_buf_exec_generic, request_send, get_error_code, response_recv,
    response_buf_remove,
  }

  abbrev pub find_request : Bytes → World → World
  find_request key =
      request_buf_exec_generic s.read_ptr s.read_ptr_id (codes "=") (key ∷ []) 0 0 [] []

  abbrev pub update_request : Bytes → Bytes → Bytes → Bytes → World → World
  update_request key version data' next =
      request_buf_exec_generic s.write_ptr s.write_ptr_id (codes "=") (key ∷ version ∷ []) 0 0
        (codes "U") (key ∷ data' ∷ next ∷ [])

  -- Sending and receiving on a connection, with no error on the way.
  abbrev pub sent : Handle → World → World
  sent h w = (request_send h w).1

  abbrev pub received : Handle → World → World
  received h w = (response_recv h (sent h w)).1

  pub record Answers (h : Handle) (fields : ℕ) (w : World) : Type 0 where
    pub send_ok : (request_send h w).0 ≡ pos 0
    pub send_code : get_error_code h (sent h w) ≡ pos 0
    pub recv_ok : (response_recv h (sent h w)).0 ≡ (pos 0, fields)
    pub recv_code : get_error_code h (received h w) ≡ pos 0

  pub record Server : Type 1 where
    -- no request is on its way
    pub Idle : World → Type 0
    -- the table, by the text of the id
    pub table : World → Bytes → Entry
    -- the rows of the response that were not fetched yet
    pub rows : Handle → World → List Row
    pub fetches : Fetches c rows table
    pub removed :
        (h : Handle) (w : World)
        → rows h w ≡ []
        → Idle (response_buf_remove h w) × (table (response_buf_remove h w) ≡ table w)
    pub find_answers :
        (w : World) (key : Bytes) → Idle w → Answers s.read_ptr 3 (find_request key w)
    pub find_rows :
        (w : World) (key : Bytes)
        → Idle w
        → (rows s.read_ptr (received s.read_ptr (find_request key w))
            ≡ found_rows key (table w key))
          × (table (received s.read_ptr (find_request key w)) ≡ table w)
    pub update_answers :
        (w : World) (key version data' next : Bytes)
        → Idle w
        → Answers s.write_ptr 1 (update_request key version data' next w)
    -- The row that has both keys is replaced.
    pub update_hit :
        (w : World) (key data' old : Bytes) (version next : ℤ)
        → Idle w
        → FitsInt next
        → table w key ≡ some (old, version)
        → let w' =
            received s.write_ptr (update_request key (decimal version) data' (decimal next) w) in
          (rows s.write_ptr w' ≡ (some (codes "1") ∷ []) ∷ [])
          × (table w' ≡ put (table w) key (some (data', next)))
    -- No row has both keys: nothing changes.
    pub update_miss :
        (w : World) (key version data' next : Bytes)
        → Idle w
        → ((old : Bytes) (v : ℤ) → decimal v ≡ version → table w key ≢ some (old, v))
        → let w' = received s.write_ptr (update_request key version data' next w) in
          (rows s.write_ptr w' ≡ (some (codes "0") ∷ []) ∷ []) × (table w' ≡ table w)
