-- ===== src/Tests/Start.antt =====
-- The theorems about the start of a server, on servers in memory.
use rinha.Prelude.{
  ◌≡◌, ◌≢◌, add_int, wrap_int, ◌+ℤ◌, refl, pos, some, List, [], ◌∷◌, ◌++◌, codes, replicate, arith,
}
use rinha.HandlerSocket.{Session, count_id}
use rinha.HandlerSocket.Opening.{Opens}
use rinha.Server.Threads.{Machine, ProcessRequestParams, start_thread}
use rinha.Server.Launch.{Launch, connected, LaunchReach, start, next, makes, reads, writes}
use rinha.Server.Ids.{start_thread-apart}
use rinha.Tests.Demo.{memory, image}
use rinha.Tests.Image.{full_image}
use rinha.Tests.Filling.{disk, database, booting}
use rinha.Tests.Rows.{world}

abbrev opens : Opens memory
opens = record { on_send = λ h w. refl; on_code = λ h w. refl }

abbrev machine : Machine disk memory full_image
machine = record { mysql = booting; handler_socket = world }

-- Both threads take their first id, and then, the other way round, their second.
abbrev launched : Launch
launched = record {
  id_count = pos 4;
  threads = connected (pos 0) (pos 3) ∷ connected (pos 1) (pos 2) ∷ [];
}

crossed : LaunchReach launched
unfolding count_id add_int wrap_int ◌+ℤ◌
crossed =
    next
      (next (next (next (next (next start (makes _)) (reads _ 0 refl)) (makes _)) (reads _ 1 refl))
        (writes _ 1 (pos 1) refl))
      (writes _ 0 (pos 0) refl)

start_thread-apart_example :
    (one : Session memory) × (two : Session memory) × (w1 : Machine disk memory full_image)
    × (w2 : Machine disk memory full_image) × (start_thread disk memory full_image 3
          (codes "/")
          (pos 0)
          (pos 3)
          machine
        ≡ some (one, w1))
    × (start_thread disk memory full_image 3 (codes "/") (pos 1) (pos 2) machine ≡ some (two, w2))
    × (one.read_ptr_id ≢ one.write_ptr_id)
    × (two.read_ptr_id ≢ two.write_ptr_id)
    × (one.read_ptr_id ≢ two.read_ptr_id)
    × (one.read_ptr_id ≢ two.write_ptr_id)
    × (one.write_ptr_id ≢ two.read_ptr_id)
    × (one.write_ptr_id ≢ two.write_ptr_id)
start_thread-apart_example =
    start_thread-apart disk memory full_image database opens launched 0 1 (pos 0) (pos 3) (pos 1)
      (pos 2) 3 (codes "/") (codes "/") machine machine crossed (omega arith) refl refl
      (λ e. absurd (omega (arith, e))) (omega arith) (omega arith)

abbrev later : Machine disk memory image
later = record { mysql = booting; handler_socket = world }

abbrev asking : List ProcessRequestParams
asking =
    record {
      buffer = codes "GET /clientes/1/extrato HTTP/1.1\r\n\r\n" ++ replicate 100 0;
      num_read = 36;
      client_fd = 7;
    }
    ∷ []
