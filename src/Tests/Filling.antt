-- ===== src/Tests/Filling.antt =====
-- A MariaDB server in memory that refuses two connections, and the theorem about the first filling on it.
use rinha.Prelude.{
  ℕ, ◌-◌, ◌≡◌, refl, ap, ℤ, Bool, true, false, Option, none, some, [], Bytes, ◌==◌, arith,
}
use rinha.MariaDatabase.Mysql.{Mysql}
use rinha.MariaDatabase.Setup.{maria_initialize_db}
use rinha.MariaDatabase.Setup.Filling.{Database, with_row, filled, maria_initialize_db-with_rows}
use rinha.Tests.Image.{full_image}

pub record Disk : Type 0 where
  pub down : ℕ
  pub table : ℤ → Option Bytes
  pub text : Bytes
  pub bound : Option (ℤ × Bytes)

abbrev stored : Option (ℤ × Bytes) → (ℤ → Option Bytes) → ℤ → Option Bytes
stored none t = t
stored (some (id, d)) t = with_row t id d

abbrev pub disk : Mysql
disk = record {
  World = Disk;
  Conn = Bool;
  Stmt = Bool;
  init = λ w. (some true, w);
  real_connect = λ k w. (w.down == 0, record w { down = w.down - 1 });
  stmt_init = λ k w. (some true, w);
  stmt_prepare = λ s text w. (false, record w { text = text });
  stmt_bind_param = λ s id d w. (false, record w { bound = some (id, d) });
  stmt_execute = λ s w. (false, record w { table = stored w.bound w.table });
  stmt_free_result = λ s w. w;
  sleep = λ n w. w;
}

abbrev pub database : Database disk
database = record {
  down = λ w. w.down;
  table = λ w. w.table;
  prepared = λ s w. w.text;
  bound = λ s w. w.bound;
  on_init = λ w. (true, refl, refl, refl);
  on_connect = λ k w. (refl, refl, refl);
  on_stmt_init = λ k w. (true, refl, refl, refl);
  on_prepare = λ s text w. (refl, refl, refl, refl);
  on_sleep = λ n w. (refl, refl, λ s. refl);
  on_bind = λ s id d w. (refl, refl, refl, refl, refl);
  on_execute = λ s id d w text values. (refl, text, ap (λ b. stored b w.table) values, refl);
  on_free = λ s w. (refl, refl, refl);
}

abbrev pub booting : Disk
booting = record { down = 2; table = λ k. none; text = []; bound = none }

maria_initialize_db-with_rows_example :
    (w' : Disk) × (maria_initialize_db disk full_image 3 booting ≡ some (true, w'))
    × (w'.table ≡ filled full_image (λ k. none))
    × (w'.down ≡ 0)
maria_initialize_db-with_rows_example =
    maria_initialize_db-with_rows disk full_image database 3 booting (omega arith)
