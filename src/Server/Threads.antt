-- ===== src/Server/Threads.antt =====
-- How the threads of a server start: the two `CHECK`s in rinha/io_thread_pool.cc and rinha/thread_pool.cc,
-- and what runs behind them.
use rinha.Prelude.{
  ℕ, zero, suc, ◌+◌, ℤ, pos, Bool, not, Option, none, some, List, [], ◌∷◌, Bytes, codes, length,
  if◌then◌else◌, replicate,
}
use rinha.Prelude
use rinha.Prelude.Stateful.{Action, pure, stopped, lift, ◌>>=◌, ◌>>◌}
use rinha.Structs.{Request}
use rinha.Absl.{Absl}
use rinha.Os.{Os}
use rinha.Time.{Clock}
use rinha.HandlerSocket.Interface.{Client, Layout}
use rinha.HandlerSocket.{Session, initialize_hs}
use rinha.MariaDatabase.Mysql.{Mysql}
use rinha.MariaDatabase.Setup.{maria_initialize_thread}
use rinha.RequestHandler.{Unset}
use rinha.RequestProcessor.{Processor, k_ok_header, initial_buffer, process_request}
use rinha.ThreadPool.{Pool, worker_loop}
use rinha.IoThreadPool.{Io, fresh_buffers, event_round}

module _ (m : Mysql) (c : Client) (l : Layout) where
  -- What the start of a thread changes beside the counter of ids: the connections to MariaDB and to
  -- HandlerSocket.
  pub record Machine : Type 0 where
    pub mysql : m.World
    pub handler_socket : c.World

  abbrev pub on_mysql : {A : Type 0} → Action m.World A → Action Machine A
  on_mysql f w = Prelude.◌>>=◌ (f w.mysql) λ r. some (r.0, record w { mysql = r.1 })

  abbrev pub connect_hs : Bytes → ℤ → ℤ → Action Machine (Option (Session c))
  connect_hs host read_id write_id w =
      Prelude.◌>>=◌ (initialize_hs c host read_id write_id w.handler_socket)
        λ r. some (r.0, record w { handler_socket = r.1 })

  -- The two `CHECK`s, under the ids that the thread takes from the shared counter, whatever the other
  -- threads take between (Server.Launch).
  unfoldable pub start_thread : ℕ → Bytes → ℤ → ℤ → Action Machine (Session c)
  start_thread fuel host read_id write_id = do
    initialized ← on_mysql (maria_initialize_thread m l fuel)
    if not initialized then stopped else do session ← connect_hs host read_id write_id; lift session

-- A `ProcessRequestParams`, less the epoll descriptor, which no part reads.
pub record ProcessRequestParams : Type 0 where
  pub buffer : Bytes
  pub num_read : ℕ
  pub client_fd : ℕ

module _ (absl : Absl) (m : Mysql) (c : Client) (l : Layout) (clock : Clock c.World)
    (os : Os c.World) where
  -- The `thread_local` variables before the first event, with the mutexes of the process.
  abbrev pub fresh_processor : List Bool → c.World → Processor absl c l clock os
  fresh_processor mutexs w =
      let (last_update, w') = clock.now w in
      record {
        worker = record {
          shared = record { world = w'; customer_write_mutexs = mutexs };
          cache = record { time_str = b'a' ∷ replicate 19 0; last_update = last_update };
        };
        response_body = replicate (length k_ok_header + 1 + 1024) 0;
        transaction_result_buffer = initial_buffer;
      }

  abbrev pub fresh_io : List Bool → c.World → Io absl c l clock os
  fresh_io mutexs w = record {
    processor = fresh_processor mutexs w;
    buffers = fresh_buffers absl c l clock os;
    buffer_index = 0;
  }

  -- The first rounds of `while (true)`.
  unfoldable pub event_rounds :
      ℕ → ℕ → ℕ → Session c → Unset → Request → ℕ → ℕ → Action (Io absl c l clock os) (Unit {0})
  event_rounds zero fuel rows s unset fresh epoll_fd server_fd = pure tt
  event_rounds (suc n) fuel rows s unset fresh epoll_fd server_fd =
      event_round absl c l clock os fuel rows s unset fresh epoll_fd server_fd
      >> event_rounds n fuel rows s unset fresh epoll_fd server_fd

  -- A thread of `InitializeIoThreadPool`, up to its first rounds.
  unfoldable pub io_thread :
      ℕ
      → ℕ
      → ℕ
      → Unset
      → Request
      → ℕ
      → ℕ
      → List Bool
      → ℤ
      → ℤ
      → Machine m c l
      → Option (Io absl c l clock os)
  unfolding event_rounds start_thread
  io_thread n fuel rows unset fresh epoll_fd server_fd mutexs read_id write_id w =
      Prelude.◌>>=◌ (start_thread m c l fuel (codes "/") read_id write_id w) λ r.
        Prelude.◌>>=◌
          (event_rounds n fuel rows r.0 unset fresh epoll_fd server_fd
            (fresh_io mutexs r.1.handler_socket))
          λ q. some q.1

  abbrev pub process_task :
      ℕ
      → ℕ
      → Session c
      → Unset
      → Request
      → ProcessRequestParams
      → Action (Processor absl c l clock os) (Unit {0})
  process_task fuel rows s unset fresh task = do
    left ←
        process_request absl c l clock os fuel rows s unset fresh task.buffer task.num_read
          task.client_fd
    pure tt

  -- A thread of `InitializeThreadPool` in rinha/thread_pool.cc, on the tasks that wait, where no other worker takes
  -- one meanwhile: true where it ends.
  unfoldable pub pool_thread :
      ℕ
      → ℕ
      → Bytes
      → Unset
      → Request
      → List Bool
      → List ProcessRequestParams
      → Bool
      → ℤ
      → ℤ
      → Machine m c l
      → Option (Bool × Pool ProcessRequestParams (Processor absl c l clock os))
  unfolding start_thread
  pool_thread fuel rows host unset fresh mutexs tasks stop read_id write_id w =
      Prelude.◌>>=◌ (start_thread m c l fuel host read_id write_id w) λ r.
        worker_loop fuel (process_task fuel rows r.0 unset fresh)
          (record { tasks = tasks; stop = stop; world = fresh_processor mutexs r.1.handler_socket })
