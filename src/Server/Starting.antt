-- ===== src/Server/Starting.antt =====
-- The threads of a server start on a MariaDB server and a HandlerSocket that take their connections.
use rinha.Prelude.{ℕ, ◌<◌, ◌≡◌, refl, ◌∙◌, ℤ, Option, some, Bytes}
use rinha.Prelude.Stateful.{>>=-some}
use rinha.HandlerSocket.Interface.{Client, Layout}
use rinha.HandlerSocket.{Session, initialize_hs}
use rinha.HandlerSocket.Opening.{Opens, initialize_hs-some}
use rinha.MariaDatabase.Mysql.{Mysql}
use rinha.MariaDatabase.Setup.{maria_initialize_thread}
use rinha.MariaDatabase.Setup.Filling.{Database, maria_initialize_thread-connects}
use rinha.Server.Threads.{Machine, on_mysql, connect_hs, start_thread}

module _ (m : Mysql) (c : Client) (l : Layout) (db : Database m) (opens : Opens c) where
  open db use {down, table}

  on_mysql-some :
      {A : Type 0} (f : m.World → Option (A × m.World)) (w : Machine m c l) {a : A} {w' : m.World}
      → f w.mysql ≡ some (a, w')
      → on_mysql m c l f w ≡ some (a, record w { mysql = w' })
  on_mysql-some f w runs = rw runs refl

  connect_hs-some :
      (host : Bytes) (read_id write_id : ℤ) (w : Machine m c l) {s : Option (Session c)}
      {w' : c.World}
      → initialize_hs c host read_id write_id w.handler_socket ≡ some (s, w')
      → connect_hs m c l host read_id write_id w ≡ some (s, record w { handler_socket = w' })
  connect_hs-some host read_id write_id w runs = rw runs refl

  pub start_thread-some :
      (fuel : ℕ) (host : Bytes) (read_id write_id : ℤ) (w : Machine m c l)
      → down w.mysql < fuel
      → (s : Session c) × (w' : Machine m c l) × (start_thread m c l fuel host read_id write_id w
          ≡ some (s, w'))
        × (s.read_ptr_id ≡ read_id)
        × (s.write_ptr_id ≡ write_id)
        × (down w'.mysql ≡ 0)
        × (table w'.mysql ≡ table w.mysql)
  unfolding start_thread
  start_thread-some fuel host read_id write_id w enough =
      let (w1, connects, same, up) = maria_initialize_thread-connects m l db fuel w.mysql enough in
      let (s, w2, opened, reads, writes) =
        initialize_hs-some c opens host read_id write_id w.handler_socket in
      (
        s,
        record { mysql = w1; handler_socket = w2 },
        >>=-some (on_mysql m c l (maria_initialize_thread m l fuel)) _
              (on_mysql-some (maria_initialize_thread m l fuel) w connects)
            ∙ >>=-some (connect_hs m c l host read_id write_id) _
                (connect_hs-some host read_id write_id (record w { mysql = w1 }) opened),
        reads,
        writes,
        up,
        same,
      )
