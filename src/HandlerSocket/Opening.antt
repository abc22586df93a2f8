-- ===== src/HandlerSocket/Opening.antt =====
-- `InitializeHs` on a server that accepts the connections.
use rinha.Prelude.{◌≡◌, refl, ◌∙◌, ℤ, pos, true, some, Bytes, codes}
use rinha.Prelude.Stateful.{>>=-some}
use rinha.HandlerSocket.Interface.{Client}
use rinha.HandlerSocket.{Session, settings, open_connection, initialize_hs}

-- What the program relies on: no call of the library has an error.
pub record Opens (c : Client) : Type 0 where
  pub on_send : (h : c.Handle) (w : c.World) → (c.request_send h w).0 ≡ pos 0
  pub on_code : (h : c.Handle) (w : c.World) → c.get_error_code h w ≡ pos 0

module _ (c : Client) (opens : Opens c) where
  open c use {World, Handle}

  open_connection-some :
      (host port index : Bytes) (id : ℤ) (w : World)
      → (h : Handle) × (w' : World) × (open_connection c host port index id w
          ≡ some ((true, h), w'))
  unfolding open_connection
  open_connection-some host port index id w =
      let (h, w0) = c.create (settings c host port) w in
      let w1 =
        c.request_buf_open_index h id (codes "mydb") (codes "Users") index (codes "id,data,version")
          w0 in
      let w3 = (c.response_recv h (c.request_send h w1).1).1 in
      (h, c.response_buf_remove h w3, rw (opens.on_send h w1, opens.on_code h w3) refl)

  -- Where the library has no error, `InitializeHs` succeeds, and the two connections have the ids.
  pub initialize_hs-some :
      (host : Bytes) (read_id write_id : ℤ) (w : World)
      → (s : Session c) × (w' : World) × (initialize_hs c host read_id write_id w
          ≡ some (some s, w'))
        × (s.read_ptr_id ≡ read_id)
        × (s.write_ptr_id ≡ write_id)
  unfolding initialize_hs
  initialize_hs-some host read_id write_id w =
      let (h, w1, first) =
        open_connection-some host (codes "/tmp/handler_socket_read") (codes "handlers_index")
          read_id w in
      let (h', w2, second) =
        open_connection-some host (codes "/tmp/handler_socket_write") (codes "writers_index")
          write_id w1 in
      (
        record { read_ptr = h; read_ptr_id = read_id; write_ptr = h'; write_ptr_id = write_id },
        w2,
        >>=-some
              (open_connection c host (codes "/tmp/handler_socket_read") (codes "handlers_index")
                read_id)
              _ first
            ∙ >>=-some
                (open_connection c host (codes "/tmp/handler_socket_write") (codes "writers_index")
                  write_id)
                _ second,
        refl,
        refl,
      )
