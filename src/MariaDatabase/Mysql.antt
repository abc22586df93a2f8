-- ===== src/MariaDatabase/Mysql.antt =====
-- The MariaDB connector, as a parameter: its calls on a world that holds the server.
use rinha.Prelude.{ℕ, ℤ, Bool, Option, Bytes}

pub record Mysql : Type 1 where
  pub World : Type 0
  pub Conn : Type 0
  pub Stmt : Type 0
  -- `mysql_init(NULL)`: `none` where it returns NULL
  pub init : World → Option Conn × World
  -- `mysql_real_connect`: whether it returns a connection
  pub real_connect : Conn → World → Bool × World
  pub stmt_init : Conn → World → Option Stmt × World
  -- `mysql_stmt_prepare`, `mysql_stmt_bind_param` and `mysql_stmt_execute`: whether they fail
  pub stmt_prepare : Stmt → Bytes → World → Bool × World
  pub stmt_bind_param : Stmt → ℤ → Bytes → World → Bool × World
  pub stmt_execute : Stmt → World → Bool × World
  pub stmt_free_result : Stmt → World → World
  -- `sleep` of the C library
  pub sleep : ℕ → World → World
