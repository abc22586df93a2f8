-- ===== src/HandlerSocket/Interface.antt =====
-- The library behind `dena::hstcpcli_ptr`, as a parameter: its calls on a world that holds the
-- connections and the server.
use rinha.Prelude.{ℕ, ℤ, List, Bytes, Option}
use rinha.Structs.{Customer}

-- A field of a row: `none` where the pointer is null.
abbrev pub Row : Type 0
Row = List (Option Bytes)

pub record Client : Type 1 where
  pub World : Type 0
  pub Handle : Type 0
  -- `hstcpcli_i::create`, from the settings that `socket_args::set` reads
  pub create : List (Bytes × Bytes) → World → Handle × World
  -- handle, id, database, table, index, fields
  pub request_buf_open_index : Handle → ℤ → Bytes → Bytes → Bytes → Bytes → World → World
  -- handle, id, op, keys, limit, skip, mod_op, mvs
  pub request_buf_exec_generic :
      Handle → ℤ → Bytes → List Bytes → ℕ → ℕ → Bytes → List Bytes → World → World
  pub request_send : Handle → World → ℤ × World
  pub get_error_code : Handle → World → ℤ
  -- the code that it returns, and the number of fields that it stores
  pub response_recv : Handle → World → (ℤ × ℕ) × World
  pub get_next_row : Handle → World → Option Row × World
  pub response_buf_remove : Handle → World → World

-- The image of a `Customer` in memory, which the compiler lays out: `sizeof(Customer)` bytes, read
-- back by `reinterpret_cast`. `none` where there are too few bytes.
pub record Layout : Type 0 where
  pub to_bytes : Customer → Bytes
  pub of_bytes : Bytes → Option Customer
