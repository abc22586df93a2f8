-- ===== src/HandlerSocket/Replies.antt =====
-- What the calls of handler_socket.cc make of a response that comes in: the loop over its rows, on a
-- library that hands the rows out one by one.
use rinha.Prelude.{
  ℕ, suc, ◌≡◌, refl, ◌∙◌, ℤ, pos, decimal, stoi, stoi-decimal, FitsInt, add_int, Bool, true, false,
  Option, some, List, [], ◌∷◌, Bytes, codes, if◌then◌else◌,
}
use rinha.Prelude.Stateful.{>>=-some}
use rinha.Structs.{Customer}
use rinha.HandlerSocket.Interface.{Client, Layout, Row}
use rinha.HandlerSocket.{
  Session, id_text, each_row, read_field, read_fields, read_reply, read_customer_hs, count_field,
  count_fields, write_reply, write_customer_hs,
}
use rinha.HandlerSocket.Server.{
  Fetches, Answers, found_rows, find_request, update_request, received,
}

-- The row that answers an update: one modified row, or none.
abbrev pub modified_rows : Bool → List Row
modified_rows modified = (some (if modified then codes "1" else codes "0") ∷ []) ∷ []

count_modified :
    (modified : Bool)
    → count_fields 1 0 (some (if modified then codes "1" else codes "0") ∷ []) false ≡ some modified
unfolding count_fields count_field stoi
count_modified true = refl
count_modified false = refl

module _ {c : Client} {A : Type 0} {rows : c.Handle → c.World → List Row} {view : c.World → A}
    (fetches : Fetches c rows view) where
  open c use {World, Handle, get_next_row}

  -- The loop over no row.
  pub each_row-none :
      {B : Type 0} (fuel : ℕ) (h : Handle) (body : Row → B → Option B) (out : B) (w : World)
      → rows h w ≡ []
      → (w' : World) × (each_row c (suc fuel) h body out w ≡ some (out, w'))
        × (rows h w' ≡ [])
        × (view w' ≡ view w)
  unfolding each_row
  each_row-none fuel h body out w left =
      let (end, rest, same) = fetches.no_row h w left in
      ((get_next_row h w).1, rw (end, each_row), rest, same)

  -- The loop over one row, with fuel for the row and for the end.
  pub each_row-one :
      {B : Type 0} (fuel : ℕ) (h : Handle) (body : Row → B → Option B) (out out' : B) (r : Row)
      (w : World)
      → rows h w ≡ r ∷ []
      → body r out ≡ some out'
      → (w' : World) × (each_row c (suc (suc fuel)) h body out w ≡ some (out', w'))
        × (rows h w' ≡ [])
        × (view w' ≡ view w)
  unfolding each_row
  each_row-one fuel h body out out' r w left runs =
      let (row, rest, same) = fetches.next_row h w r [] left in
      let (w', end, rest', same') = each_row-none fuel h body out' (get_next_row h w).1 rest in
      (w', rw (row, each_row, runs) end, rest', same' ∙ same)

module _ {c : Client} (s : Session c) (l : Layout) where
  open c use {World, response_buf_remove}

  -- A request that is answered comes to the loop over the rows.
  pub read_answered :
      (fuel : ℕ) (id : ℤ) (out : Customer) (unset : ℤ) (w : World)
      → Answers c s s.read_ptr 3 (find_request c s (id_text id) w)
      → (out' : Customer × ℤ) (w' : World)
      → each_row c fuel s.read_ptr
          (λ row o. read_fields l 3 0 row o)
          (out, unset)
          (received c s s.read_ptr (find_request c s (id_text id) w))
        ≡ some (out', w')
      → read_customer_hs c l fuel s id out unset w
        ≡ some ((true, out'.0, out'.1), response_buf_remove s.read_ptr w')
  unfolding read_customer_hs read_reply
  read_answered fuel id out unset w a out' w' loop =
      rw (a.send_ok, a.send_code, a.recv_code, a.recv_ok)
        (>>=-some (each_row c fuel s.read_ptr (λ row o. read_fields l 3 0 row o) (out, unset)) _
          loop)

  abbrev pub update_of : ℤ → Customer → ℤ → World → World
  update_of id customer version =
      update_request c s (id_text id) (decimal version) (l.to_bytes customer)
        (decimal (add_int version (pos 1)))

  pub write_answered :
      (fuel : ℕ) (id : ℤ) (customer : Customer) (version : ℤ) (w : World)
      → Answers c s s.write_ptr 1 (update_of id customer version w)
      → (modified : Bool) (w' : World)
      → each_row c fuel s.write_ptr
          (λ row o. count_fields 1 0 row o)
          false
          (received c s s.write_ptr (update_of id customer version w))
        ≡ some (modified, w')
      → write_customer_hs c l fuel s id customer version w
        ≡ some (modified, response_buf_remove s.write_ptr w')
  unfolding write_customer_hs write_reply
  write_answered fuel id customer version w a modified w' loop =
      rw (a.send_ok, a.send_code, a.recv_code, a.recv_ok)
        (>>=-some (each_row c fuel s.write_ptr (λ row o. count_fields 1 0 row o) false) _ loop)

  -- The row of a customer is read into the customer and the version.
  found_fields :
      (key : Bytes) (customer out : Customer) (version unset : ℤ)
      → FitsInt version
      → l.of_bytes (l.to_bytes customer) ≡ some customer
      → read_fields l 3 0
          (some key ∷ some (l.to_bytes customer) ∷ some (decimal version) ∷ [])
          (out, unset)
        ≡ some (customer, version)
  unfolding read_fields read_field
  found_fields key customer out version unset fits read_back =
      rw (read_back, stoi-decimal version fits)

  module _ {A : Type 0} {rows : c.Handle → c.World → List Row} {view : c.World → A}
      (fetches : Fetches c rows view) where
    -- A response with the row of a customer.
    pub read_customer_hs-answered :
        (fuel : ℕ) (id : ℤ) (customer out : Customer) (version unset : ℤ) (w : World)
        → Answers c s s.read_ptr 3 (find_request c s (id_text id) w)
        → FitsInt version
        → l.of_bytes (l.to_bytes customer) ≡ some customer
        → rows s.read_ptr (received c s s.read_ptr (find_request c s (id_text id) w))
          ≡ found_rows (id_text id) (some (l.to_bytes customer, version))
        → (w' : World) × (read_customer_hs c l (suc (suc fuel)) s id out unset w
            ≡ some ((true, customer, version), response_buf_remove s.read_ptr w'))
          × (rows s.read_ptr w' ≡ [])
          × (view w' ≡ view (received c s s.read_ptr (find_request c s (id_text id) w)))
    read_customer_hs-answered fuel id customer out version unset w a fits read_back answer =
        let (w', loop, done, same) =
          each_row-one fetches fuel s.read_ptr (λ row o. read_fields l 3 0 row o) (out, unset)
            (customer, version) _ _ answer
            (found_fields (id_text id) customer out version unset fits read_back) in
        (
          w',
          read_answered (suc (suc fuel)) id out unset w a (customer, version) w' loop,
          done,
          same,
        )

    -- A response with the number of modified rows.
    pub write_customer_hs-answered :
        (fuel : ℕ) (id : ℤ) (customer : Customer) (version : ℤ) (w : World) (modified : Bool)
        → Answers c s s.write_ptr 1 (update_of id customer version w)
        → rows s.write_ptr (received c s s.write_ptr (update_of id customer version w))
          ≡ modified_rows modified
        → (w' : World) × (write_customer_hs c l (suc (suc fuel)) s id customer version w
            ≡ some (modified, response_buf_remove s.write_ptr w'))
          × (rows s.write_ptr w' ≡ [])
          × (view w' ≡ view (received c s s.write_ptr (update_of id customer version w)))
    write_customer_hs-answered fuel id customer version w modified a answer =
        let (w', loop, done, same) =
          each_row-one fetches fuel s.write_ptr (λ row o. count_fields 1 0 row o) false modified _ _
            answer (count_modified modified) in
        (w', write_answered (suc (suc fuel)) id customer version w a modified w' loop, done, same)
