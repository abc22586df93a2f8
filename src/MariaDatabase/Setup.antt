-- ===== src/MariaDatabase/Setup.antt =====
-- The part of rinha/maria_database.cc that connects to MariaDB and fills the table.
pub mod Filling
use rinha.Prelude.{
  ℕ, zero, suc, ◌+◌, ℤ, pos, Bool, true, false, not, Option, none, some, List, [], ◌∷◌, Bytes,
  codes, if◌then◌else◌, replicate,
}
use rinha.Prelude.Stateful.{Action, pure, stopped, lift, effect, modify, ◌>>=◌, ◌>>◌}
use rinha.Structs.{Customer}
use rinha.Customers.{blank}
use rinha.HandlerSocket.Interface.{Layout}
use rinha.MariaDatabase.Mysql.{Mysql}

abbrev pub stmt_insert : Bytes
stmt_insert =
    codes "INSERT INTO Users (id, data) VALUES (?, ?) ON DUPLICATE KEY UPDATE data = VALUES(data)"

abbrev pub new_customer : ℕ → Customer
new_customer limit = record {
  limit = pos limit;
  balance = pos 0;
  transactions = replicate 10 blank;
  transaction_count = 0;
  next_transaction_index = 0;
}

abbrev pub k_initial_customers : List Customer
k_initial_customers =
    new_customer 100000
    ∷ new_customer 80000
    ∷ new_customer 1000000
    ∷ new_customer 10000000
    ∷ new_customer 500000
    ∷ []

module _ (m : Mysql) (l : Layout) where
  open m use {World, Conn, Stmt}

  -- The thread's `conn` and `insert_stmt`.
  pub record Thread : Type 0 where
    pub conn : Option Conn
    pub insert_stmt : Option Stmt

  pub insert_customer : Stmt → Customer → ℤ → Action World Bool
  insert_customer insert_stmt customer id = do
    bad_bind ← effect (m.stmt_bind_param insert_stmt id (l.to_bytes customer))
    if bad_bind then modify (m.stmt_free_result insert_stmt) >> pure false else do
      failed ← effect (m.stmt_execute insert_stmt)
      modify (m.stmt_free_result insert_stmt)
      pure (not failed)

  pub lazy_initialize_db : Action World (Bool × Option Conn)
  lazy_initialize_db = do
    conn ← effect m.init
    elim conn [
      | none ↦ pure (false, none)
      | some k ↦ effect (m.real_connect k) >>= λ connected. pure (connected, some k)
    ]

  pub lazy_initialize_statements : Conn → Action World (Bool × Option Stmt)
  lazy_initialize_statements conn = do
    stmt ← effect (m.stmt_init conn)
    elim stmt [
      | none ↦ pure (false, none)
      | some s ↦ effect (m.stmt_prepare s stmt_insert) >>= λ failed. pure (not failed, some s)
    ]

  -- `LazyInitializeStatements` runs on the `conn` that `LazyInitializeDb` left.
  abbrev pub init_statements : Bool × Option Conn → Action World (Bool × Thread)
  init_statements (connected, none) = pure (false, record { conn = none; insert_stmt = none })
  init_statements (false, some k) = pure (false, record { conn = some k; insert_stmt = none })
  init_statements (true, some k) =
      lazy_initialize_statements k >>= λ r. pure (r.0, record { conn = some k; insert_stmt = r.1 })

  pub lazy_init : Action World (Bool × Thread)
  unfolding lazy_initialize_db lazy_initialize_statements
  lazy_init = lazy_initialize_db >>= init_statements

  -- `while (!success)`: it sleeps after a success too.
  pub connect_loop : ℕ → ℕ → Action World Thread
  connect_loop zero pause = stopped
  connect_loop (suc fuel) pause = do
    r ← lazy_init
    modify (m.sleep pause)
    if r.0 then pure r.1 else connect_loop fuel pause

  -- `for (int i = 0; i < 5; i++)` over the customers that are left.
  pub insert_loop : Stmt → List Customer → ℕ → Action World Bool
  insert_loop insert_stmt [] i = pure true
  insert_loop insert_stmt (customer ∷ rest) i = do
    inserted ← insert_customer insert_stmt customer (pos i)
    if not inserted then pure false else insert_loop insert_stmt rest (i + 1)

  pub maria_initialize_db : ℕ → Action World Bool
  unfolding connect_loop insert_loop insert_customer lazy_init
  maria_initialize_db fuel = do
    thread ← connect_loop fuel 10
    insert_stmt ← lift thread.insert_stmt
    insert_loop insert_stmt k_initial_customers 0

  unfoldable pub maria_initialize_thread : ℕ → Action World Bool
  unfolding connect_loop lazy_init
  maria_initialize_thread fuel = do thread ← connect_loop fuel 1; pure true
