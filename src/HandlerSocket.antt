-- ===== src/HandlerSocket.antt =====
-- rinha/handler_socket.cc: a customer is read and written over HandlerSocket. The build has NDEBUG:
-- `DCHECK` and `DLOG` do nothing.
pub mod Interface
pub mod Server
pub mod Replies
pub mod Opening
pub mod Read
pub mod Write
use rinha.Prelude.{
  ℕ, zero, suc, ◌+◌, ◌%◌, ℤ, pos, negsuc, ◌+ℤ◌, ltb_ℤ, add_int, word32, decimal, stoi, Bool, true,
  false, not, ◌&&◌, ◌||◌, Option, none, some, List, [], ◌∷◌, Bytes, codes, ◌==◌, if◌then◌else◌,
  get_elem?,
}
use rinha.Prelude
use rinha.Prelude.Stateful.{Action, pure, lift, effect, modify, gets, ◌>>=◌, ◌>>◌}
use rinha.Structs.{Customer}
use Interface.{Client, Layout, Row}

abbrev pub is_zero : ℤ → Bool
is_zero (pos n) = n == 0
is_zero (negsuc n) = false

-- `char c = z`
abbrev pub low_byte : ℤ → ℕ
low_byte z = word32 z % 256

-- The key of a customer: one character.
abbrev pub id_text : ℤ → Bytes
id_text id = low_byte (id +ℤ pos b'0') ∷ []

module _ (c : Client) where
  open c use {
    World, Handle, create, request_buf_open_index, request_buf_exec_generic, request_send,
    get_error_code, response_recv, get_next_row, response_buf_remove,
  }

  -- The thread's two connections and their ids.
  pub record Session : Type 0 where
    pub read_ptr : Handle
    pub read_ptr_id : ℤ
    pub write_ptr : Handle
    pub write_ptr_id : ℤ

  abbrev pub settings : Bytes → Bytes → List (Bytes × Bytes)
  settings host port =
      (codes "host", host)
      ∷ (codes "port", port)
      ∷ (codes "timeout", codes "30")
      ∷ (codes "listen_backlog", codes "256")
      ∷ []

  -- A block of `InitializeHs`, under the id that `fetch_add` gave: connect, open the index.
  pub open_connection : Bytes → Bytes → Bytes → ℤ → Action World (Bool × Handle)
  open_connection host port index id = do
    handle ← effect (create (settings host port))
    modify (
        request_buf_open_index handle id (codes "mydb") (codes "Users") index
          (codes "id,data,version"))
    sent ← effect (request_send handle)
    if not (is_zero sent) then pure (false, handle) else do
      received ← effect (response_recv handle)
      e ← gets (get_error_code handle)
      if ltb_ℤ (pos 0) e then pure (false, handle) else do
        modify (λ w. if is_zero e then response_buf_remove handle w else w)
        pure (true, handle)

  -- `InitializeHs`, under the ids that its two `fetch_add`s gave: the session where it returns true.
  unfoldable pub initialize_hs : Bytes → ℤ → ℤ → Action World (Option Session)
  unfolding open_connection
  initialize_hs host read_id write_id = do
    r ← open_connection host (codes "/tmp/handler_socket_read") (codes "handlers_index") read_id
    if not r.0 then pure none else do
      q ← open_connection host (codes "/tmp/handler_socket_write") (codes "writers_index") write_id
      if not q.0
          then pure none
          else pure (
              some (record {
                read_ptr = r.1;
                read_ptr_id = read_id;
                write_ptr = q.1;
                write_ptr_id = write_id;
              }))

-- `id_count.fetch_add(1)`, on the counter that all threads of the process share: the id and the counter
-- behind it. It is one atomic step.
unfoldable pub count_id : ℤ → ℤ × ℤ
count_id id_count = (id_count, add_int id_count (pos 1))

module _ (l : Layout) where
  -- What the loop over the fields does with field `i`.
  pub read_field : ℕ → Option Bytes → Customer × ℤ → Option (Customer × ℤ)
  read_field i none (customer, version) = some (customer, version)
  read_field i (some v) (customer, version) =
      if i == 1
      then Prelude.◌>>=◌ (l.of_bytes v) (λ customer'. some (customer', version))
      else if i == 2
      then Prelude.◌>>=◌ (stoi v) (λ version'. some (customer, version'))
      else some (customer, version)

  -- `for (size_t i = 0; i < nflds; i++)`, by the rounds left.
  pub read_fields : ℕ → ℕ → Row → Customer × ℤ → Option (Customer × ℤ)
  read_fields zero i row out = some out
  read_fields (suc n) i row out =
      Prelude.◌>>=◌ (get_elem? row i)
        λ v. Prelude.◌>>=◌ (read_field i v out) λ out'. read_fields n (i + 1) row out'

-- What the loop of `WriteCustomerHs` does with a field: more than no modified row is a success.
pub count_field : Option Bytes → Bool → Option Bool
count_field none modified = some modified
count_field (some v) modified =
    Prelude.◌>>=◌ (stoi v) λ rows. some (if ltb_ℤ (pos 0) rows then true else modified)

-- `for (size_t i = 0; i < nflds; i++)`, by the rounds left.
pub count_fields : ℕ → ℕ → Row → Bool → Option Bool
count_fields zero i row modified = some modified
count_fields (suc n) i row modified =
    Prelude.◌>>=◌ (get_elem? row i)
      λ v. Prelude.◌>>=◌ (count_field v modified) λ modified'. count_fields n (i + 1) row modified'

module _ (c : Client) where
  open c use {World, Handle, get_next_row}

  -- `while ((row = ptr->get_next_row()) != 0)` with a body that may fault, on fuel.
  pub each_row : {A : Type 0} → ℕ → Handle → (Row → A → Option A) → A → Action World A
  each_row zero handle body out w = none
  each_row (suc fuel) handle body out w =
      let (row, w') = get_next_row handle w in
      elim row [
        | none ↦ some (out, w')
        | some r ↦ elim (body r out) [ none ↦ none | some out' ↦ each_row fuel handle body out' w' ]
      ]

module _ (c : Client) (l : Layout) where
  open c use {
    World, request_buf_exec_generic, request_send, get_error_code, response_recv,
    response_buf_remove,
  }

  -- The part of `ReadCustomerHs` behind the request: the reply is read into the customer and the
  -- version, which keep what they held where there is no row.
  pub read_reply : ℕ → Session c → Customer → ℤ → Action World (Bool × Customer × ℤ)
  unfolding each_row read_fields read_field
  read_reply fuel s customer version = do
    received ← effect (response_recv s.read_ptr)
    e ← gets (get_error_code s.read_ptr)
    if not (is_zero e) then pure (false, customer, version) else do
      out ←
          each_row c fuel s.read_ptr (λ row out. read_fields l received.1 0 row out)
            (customer, version)
      modify (response_buf_remove s.read_ptr)
      pure (true, out.0, out.1)

  -- `ReadCustomerHs`
  pub read_customer_hs : ℕ → Session c → ℤ → Customer → ℤ → Action World (Bool × Customer × ℤ)
  unfolding read_reply
  read_customer_hs fuel s id customer version = do
    modify
        (request_buf_exec_generic s.read_ptr s.read_ptr_id (codes "=") (id_text id ∷ []) 0 0 [] [])
    sent ← effect (request_send s.read_ptr)
    if not (is_zero sent) then pure (false, customer, version) else do
      e ← gets (get_error_code s.read_ptr)
      if not (is_zero e)
          then pure (false, customer, version)
          else read_reply fuel s customer version

  -- The part of `WriteCustomerHs` behind the request. After an error it returns 1, which is true.
  pub write_reply : ℕ → Session c → Action World Bool
  unfolding each_row count_fields count_field
  write_reply fuel s = do
    received ← effect (response_recv s.write_ptr)
    e ← gets (get_error_code s.write_ptr)
    if not (is_zero e) then pure true else do
      modified ← each_row c fuel s.write_ptr (λ row out. count_fields received.1 0 row out) false
      modify (λ w. if ltb_ℤ received.0 (pos 0) then w else response_buf_remove s.write_ptr w)
      pure modified

  -- `WriteCustomerHs`: the row is changed only where it still has the version that was read.
  pub write_customer_hs : ℕ → Session c → ℤ → Customer → ℤ → Action World Bool
  unfolding write_reply
  write_customer_hs fuel s id customer version = do
    modify (
        request_buf_exec_generic s.write_ptr s.write_ptr_id (codes "=")
          (id_text id ∷ decimal version ∷ []) 0 0 (codes "U")
          (id_text id ∷ l.to_bytes customer ∷ decimal (add_int version (pos 1)) ∷ []))
    sent ← effect (request_send s.write_ptr)
    if not (is_zero sent) then pure false else do
      e ← gets (get_error_code s.write_ptr)
      if not (is_zero e) then pure true else write_reply fuel s
