-- ===== src/MariaDatabase/Setup/Filling.antt =====
-- `MariaInitializeDb` on a MariaDB server that comes up at last: the first filling of the table.
use rinha.Prelude.{
  replicate, codes, ℕ, zero, suc, ◌+◌, ◌-◌, ◌<◌, ◌≡◌, refl, ap, ◌∙◌, ℤ, pos, negsuc, Bool, true,
  false, Option, none, some, List, [], ◌∷◌, Bytes, ◌==◌, if◌then◌else◌, arith, Bool-cases, inl, inr,
}
use rinha.Prelude.Stateful.{>>=-some}
use rinha.Structs.{Customer}
use rinha.HandlerSocket.Interface.{Layout}
use rinha.MariaDatabase.Mysql.{Mysql}
use rinha.MariaDatabase.Setup.{
  stmt_insert, k_initial_customers, Thread, insert_customer, lazy_initialize_db,
  lazy_initialize_statements, lazy_init, connect_loop, insert_loop, maria_initialize_db,
  maria_initialize_thread,
}

abbrev same_id : ℤ → ℤ → Bool
same_id (pos m) (pos n) = m == n
same_id (pos m) (negsuc n) = false
same_id (negsuc m) (pos n) = false
same_id (negsuc m) (negsuc n) = m == n

-- The column `data` by the column `id`, with another row.
abbrev pub with_row : (ℤ → Option Bytes) → ℤ → Bytes → ℤ → Option Bytes
with_row t id d k = if same_id k id then some d else t k

-- A row of the first filling: a limit, a balance of 0 and no transaction.
abbrev pub opened : ℕ → Customer
opened limit = record {
  limit = pos limit;
  balance = pos 0;
  transactions =
      replicate 10
        (record { value = pos 0; description = replicate 11 0; timestamp = replicate 20 0 });
  transaction_count = 0;
  next_transaction_index = 0;
}

-- The five rows of the first filling, over what was there.
abbrev pub filled : Layout → (ℤ → Option Bytes) → ℤ → Option Bytes
filled l t =
    with_row
      (with_row
        (with_row
          (with_row (with_row t (pos 0) (l.to_bytes (opened 100000))) (pos 1)
            (l.to_bytes (opened 80000)))
          (pos 2) (l.to_bytes (opened 1000000)))
        (pos 3) (l.to_bytes (opened 10000000)))
      (pos 4) (l.to_bytes (opened 500000))

-- The statement that stores a row, whether or not there was one.
abbrev pub upsert : Bytes
upsert =
    codes "INSERT INTO Users (id, data) VALUES (?, ?) ON DUPLICATE KEY UPDATE data = VALUES(data)"

abbrev pub with_rows : Layout → (ℤ → Option Bytes) → List Customer → ℕ → ℤ → Option Bytes
with_rows l t [] i = t
with_rows l t (x ∷ xs) i = with_rows l (with_row t (pos i) (l.to_bytes x)) xs (i + 1)

-- What the program relies on: the server refuses some connections and then accepts them, a statement
-- that was prepared keeps its text and the values that were bound last, and the execution of the
-- `INSERT` with `ON DUPLICATE KEY UPDATE` stores the row.
pub record Database (m : Mysql) : Type 1 where
  -- how many connections the server still refuses
  pub down : m.World → ℕ
  pub table : m.World → ℤ → Option Bytes
  pub prepared : m.Stmt → m.World → Bytes
  pub bound : m.Stmt → m.World → Option (ℤ × Bytes)
  pub on_init :
      (w : m.World)
      → (k : m.Conn) × ((m.init w).0 ≡ some k)
        × (down (m.init w).1 ≡ down w)
        × (table (m.init w).1 ≡ table w)
  pub on_connect :
      (k : m.Conn) (w : m.World)
      → ((m.real_connect k w).0 ≡ (down w == 0))
        × (down (m.real_connect k w).1 ≡ down w - 1)
        × (table (m.real_connect k w).1 ≡ table w)
  pub on_stmt_init :
      (k : m.Conn) (w : m.World)
      → (s : m.Stmt) × ((m.stmt_init k w).0 ≡ some s)
        × (table (m.stmt_init k w).1 ≡ table w)
        × (down (m.stmt_init k w).1 ≡ down w)
  pub on_prepare :
      (s : m.Stmt) (text : Bytes) (w : m.World)
      → ((m.stmt_prepare s text w).0 ≡ false)
        × (prepared s (m.stmt_prepare s text w).1 ≡ text)
        × (table (m.stmt_prepare s text w).1 ≡ table w)
        × (down (m.stmt_prepare s text w).1 ≡ down w)
  pub on_sleep :
      (n : ℕ) (w : m.World)
      → (down (m.sleep n w) ≡ down w)
        × (table (m.sleep n w) ≡ table w)
        × ((s : m.Stmt) → prepared s (m.sleep n w) ≡ prepared s w)
  pub on_bind :
      (s : m.Stmt) (id : ℤ) (d : Bytes) (w : m.World)
      → ((m.stmt_bind_param s id d w).0 ≡ false)
        × (bound s (m.stmt_bind_param s id d w).1 ≡ some (id, d))
        × (prepared s (m.stmt_bind_param s id d w).1 ≡ prepared s w)
        × (table (m.stmt_bind_param s id d w).1 ≡ table w)
        × (down (m.stmt_bind_param s id d w).1 ≡ down w)
  pub on_execute :
      (s : m.Stmt) (id : ℤ) (d : Bytes) (w : m.World)
      → prepared s w ≡ upsert
      → bound s w ≡ some (id, d)
      → ((m.stmt_execute s w).0 ≡ false)
        × (prepared s (m.stmt_execute s w).1 ≡ upsert)
        × (table (m.stmt_execute s w).1 ≡ with_row (table w) id d)
        × (down (m.stmt_execute s w).1 ≡ down w)
  pub on_free :
      (s : m.Stmt) (w : m.World)
      → (prepared s (m.stmt_free_result s w) ≡ prepared s w)
        × (table (m.stmt_free_result s w) ≡ table w)
        × (down (m.stmt_free_result s w) ≡ down w)

module _ (m : Mysql) (l : Layout) (db : Database m) where
  open m use {World, Conn, Stmt}
  open db use {down, table, prepared, bound}

  insert_customer-stored :
      (s : Stmt) (x : Customer) (id : ℤ) (w : World)
      → prepared s w ≡ stmt_insert
      → (w' : World) × (insert_customer m l s x id w ≡ some (true, w'))
        × (prepared s w' ≡ stmt_insert)
        × (table w' ≡ with_row (table w) id (l.to_bytes x))
        × (down w' ≡ down w)
  unfolding insert_customer
  insert_customer-stored s x id w text =
      let (bind_ok, values, text1, same1, down1) = db.on_bind s id (l.to_bytes x) w in
      let w1 = (m.stmt_bind_param s id (l.to_bytes x) w).1 in
      let (execute_ok, text2, new, down2) =
        db.on_execute s id (l.to_bytes x) w1 (text1 ∙ text) values in
      let w2 = (m.stmt_execute s w1).1 in
      let (text3, same3, down3) = db.on_free s w2 in
      (
        m.stmt_free_result s w2,
        rw (bind_ok, execute_ok) refl,
        text3 ∙ text2,
        same3 ∙ new ∙ ap (λ t. with_row t id (l.to_bytes x)) same1,
        down3 ∙ down2 ∙ down1,
      )

  insert_loop-stored :
      (s : Stmt) (xs : List Customer) (i : ℕ) (w : World)
      → prepared s w ≡ stmt_insert
      → (w' : World) × (insert_loop m l s xs i w ≡ some (true, w'))
        × (table w' ≡ with_rows l (table w) xs i)
        × (down w' ≡ down w)
  unfolding insert_loop
  insert_loop-stored s [] i w text = (w, refl, refl, refl)
  insert_loop-stored s (x ∷ xs) i w text =
      let (w1, one, text1, new, down1) = insert_customer-stored s x (pos i) w text in
      let (w2, rest, all, down2) = insert_loop-stored s xs (i + 1) w1 text1 in
      (
        w2,
        >>=-some (insert_customer m l s x (pos i)) _ one ∙ rest,
        all ∙ ap (λ t. with_rows l t xs (i + 1)) new,
        down2 ∙ down1,
      )

  -- A connection that the server refuses.
  lazy_init-refused :
      (w : World)
      → (down w == 0) ≡ false
      → (t : Thread m l) × (w' : World) × (lazy_init m l w ≡ some ((false, t), w'))
        × (down w' + 1 ≡ down w)
        × (table w' ≡ table w)
  unfolding lazy_init lazy_initialize_db
  lazy_init-refused w refuses =
      let (k, init, down1, same1) = db.on_init w in
      let w1 = (m.init w).1 in
      let (connects, down2, same2) = db.on_connect k w1 in
      let fails : (m.real_connect k w1).0 ≡ false = connects ∙ ap (λ n. n == 0) down1 ∙ refuses in
      (
        record { conn = some k; insert_stmt = none },
        (m.real_connect k w1).1,
        rw (init, fails) refl,
        ground (arith, down1, down2, refuses),
        same2 ∙ same1,
      )

  lazy_init-accepted :
      (w : World)
      → (down w == 0) ≡ true
      → (k : Conn) × (s : Stmt) × (w' : World) × (lazy_init m l w
          ≡ some ((true, record { conn = some k; insert_stmt = some s }), w'))
        × (prepared s w' ≡ stmt_insert)
        × (table w' ≡ table w)
        × (down w' ≡ 0)
  unfolding lazy_init lazy_initialize_db lazy_initialize_statements
  lazy_init-accepted w accepts =
      let (k, init, down1, same1) = db.on_init w in
      let w1 = (m.init w).1 in
      let (connects, down2, same2) = db.on_connect k w1 in
      let w2 = (m.real_connect k w1).1 in
      let works : (m.real_connect k w1).0 ≡ true = connects ∙ ap (λ n. n == 0) down1 ∙ accepts in
      let (s, statement, same3, down3) = db.on_stmt_init k w2 in
      let w3 = (m.stmt_init k w2).1 in
      let (fine, text, same4, down4) = db.on_prepare s stmt_insert w3 in
      (
        k,
        s,
        (m.stmt_prepare s stmt_insert w3).1,
        rw (init, works, statement, fine) refl,
        text,
        same4 ∙ same3 ∙ same2 ∙ same1,
        down4 ∙ down3 ∙ ground (arith, down1, down2, accepts),
      )

  connect_loop-connects :
      (fuel pause : ℕ) (w : World)
      → down w < fuel
      → (k : Conn) × (s : Stmt) × (w' : World) × (connect_loop m l fuel pause w
          ≡ some (record { conn = some k; insert_stmt = some s }, w'))
        × (prepared s w' ≡ stmt_insert)
        × (table w' ≡ table w)
        × (down w' ≡ 0)
  unfolding connect_loop
  connect_loop-connects zero pause w h = absurd (omega arith)
  connect_loop-connects (suc fuel) pause w h = elim (Bool-cases (down w == 0)) [
    | inl accepts ↦
        let (k, s, w1, runs, text, same, up) = lazy_init-accepted w accepts in
        let (down2, same2, text2) = db.on_sleep pause w1 in
        (
          k,
          s,
          m.sleep pause w1,
          >>=-some (lazy_init m l) _ runs,
          text2 s ∙ text,
          same2 ∙ same,
          down2 ∙ up,
        )
    | inr refuses ↦
        let (t, w1, runs, fewer, same) = lazy_init-refused w refuses in
        let (down2, same2, text2) = db.on_sleep pause w1 in
        let (k, s, w2, rest, text, same3, up) =
          connect_loop-connects fuel pause (m.sleep pause w1) (omega (arith, down2, fewer)) in
        (k, s, w2, >>=-some (lazy_init m l) _ runs ∙ rest, text, same3 ∙ same2 ∙ same, up)
  ]

  -- `MariaInitializeThread` connects, and leaves the table.
  pub maria_initialize_thread-connects :
      (fuel : ℕ) (w : World)
      → down w < fuel
      → (w' : World) × (maria_initialize_thread m l fuel w ≡ some (true, w'))
        × (table w' ≡ table w)
        × (down w' ≡ 0)
  unfolding maria_initialize_thread
  maria_initialize_thread-connects fuel w h =
      let (k, s, w1, connects, text, same, up) = connect_loop-connects fuel 1 w h in
      (w1, >>=-some (connect_loop m l fuel 1) _ connects, same, up)

  -- On a server that refuses some connections and then accepts them, with fuel for one attempt more than it refuses:
  -- `MariaInitializeDb` ends with a success. Under the ids 0 to 4 the table has customers with the limits 100000, 80000,
  -- 1000000, 10000000 and 500000, a balance of 0 and no transaction, over whatever was there; no other row
  -- changes, and the server refuses no connection any more.
  pub maria_initialize_db-with_rows :
      (fuel : ℕ) (w : World)
      → down w < fuel
      → (w' : World) × (maria_initialize_db m l fuel w ≡ some (true, w'))
        × (table w' ≡ filled l (table w))
        × (down w' ≡ 0)
  unfolding maria_initialize_db
  maria_initialize_db-with_rows fuel w h =
      let (k, s, w1, connects, text, same, up) = connect_loop-connects fuel 10 w h in
      let (w2, fills, new, down2) = insert_loop-stored s k_initial_customers 0 w1 text in
      (
        w2,
        >>=-some (connect_loop m l fuel 10) _ connects ∙ fills,
        new ∙ ap (λ t. with_rows l t k_initial_customers 0) same,
        down2 ∙ up,
      )
