-- ===== src/IoThreadPool.antt =====
-- rinha/io_thread_pool.cc: the event loop of a worker thread of the server.
pub mod Reading
pub mod Clients
pub mod Buffers
use rinha.Prelude.{
  ℕ, zero, suc, ◌+◌, ◌-◌, ◌%◌, Bool, true, false, Option, none, some, List, [], ◌∷◌, ◌++◌, Bytes,
  codes, ◌==◌, if◌then◌else◌, length, get_elem?, set, take, drop, replicate,
}
use rinha.Prelude
use rinha.Prelude.Stateful.{Action, pure, stopped, lift, effect, modify, ◌>>=◌, ◌>>◌}
use rinha.Structs.{Request}
use rinha.Absl.{Absl}
use rinha.Os.{
  Os, Received, bytes, Accepted, connection, Event, epoll_ctl_add, edge_triggered, is_bad_event,
  set_non_blocking,
}
use rinha.Time.{Clock}
use rinha.HandlerSocket.Interface.{Client, Layout}
use rinha.HandlerSocket.{Session}
use rinha.RequestHandler.{Unset}
use rinha.RequestProcessor.{Processor, process_request}

abbrev pub k_buffer_writtable_size : ℕ
k_buffer_writtable_size = 1024

abbrev pub k_buffer_total_size : ℕ
k_buffer_total_size = k_buffer_writtable_size + 1

abbrev pub k_max_events : ℕ
k_max_events = 1000

abbrev pub k_max_connections : ℕ
k_max_connections = 3000

-- What a `read` leaves in a buffer.
abbrev pub overwrite : Bytes → ℕ → Bytes → Bytes
overwrite buffer at s = take at buffer ++ (s ++ drop (at + length s) buffer)

module _ {W : Type 0} (os : Os W) where
  -- The loop that reads into a buffer behind its first `total_count` bytes, on fuel: the buffer, the
  -- count, and `done`.
  unfoldable pub read_loop : ℕ → ℕ → Bytes → ℕ → Action W (Bytes × ℕ × Bool)
  read_loop zero fd buffer total_count = stopped
  read_loop (suc fuel) fd buffer total_count = do
    r ← effect (os.read fd (k_buffer_writtable_size - total_count))
    elim r [
      | bytes [] ↦ pure (buffer, total_count, true)
      | bytes (b ∷ s) ↦
          read_loop fuel fd (overwrite buffer total_count (b ∷ s)) (total_count + length (b ∷ s))
      | Received.error again ↦ pure (buffer, total_count, if again then false else true)
    ]

  -- The loop over the incoming connections, on fuel. Any error ends it.
  unfoldable pub accept_loop : ℕ → ℕ → ℕ → Action W (Unit {0})
  unfolding set_non_blocking
  accept_loop zero epoll_fd server_fd = stopped
  accept_loop (suc fuel) epoll_fd server_fd = do
    r ← effect (os.accept server_fd)
    elim r [
      | Accepted.error again ↦ pure tt
      | connection infd ↦
          set_non_blocking os infd
          >> (effect (os.epoll_ctl epoll_fd epoll_ctl_add infd edge_triggered) >>= λ added.
              if added then accept_loop fuel epoll_fd server_fd else stopped)
    ]

module _ (absl : Absl) (c : Client) (l : Layout) (clock : Clock c.World) (os : Os c.World) where
  -- A thread: what `ProcessRequest` reaches, and the thread's buffers.
  pub record Io : Type 0 where
    pub processor : Processor absl c l clock os
    pub buffers : List Bytes
    pub buffer_index : ℕ

  abbrev pub fresh_buffers : List Bytes
  fresh_buffers = replicate k_max_connections (replicate k_buffer_total_size 0)

  abbrev pub with_world : c.World → Io → Io
  with_world w t =
      let p = t.processor in
      let q = p.worker in
      record t {
        processor = record p { worker = record q { shared = record (q.shared) { world = w } } };
      }

  abbrev pub call : {A : Type 0} → Action c.World A → Action Io A
  call m t = Prelude.◌>>=◌ (m t.processor.worker.shared.world) λ r. some (r.0, with_world r.1 t)

  abbrev pub on_processor : {A : Type 0} → Action (Processor absl c l clock os) A → Action Io A
  on_processor m t = Prelude.◌>>=◌ (m t.processor) λ r. some (r.0, record t { processor = r.1 })

  -- A buffer that has received `total_count` bytes is processed; the next one is used after it.
  -- `ProcessRequest` has closed its text with a zero.
  pub process_buffer : ℕ → ℕ → Session c → Unset → Request → ℕ → Bytes → ℕ → Action Io (Unit {0})
  process_buffer fuel rows s unset fresh fd buffer total_count = do
    left ←
        on_processor
          (process_request absl c l clock os fuel rows s unset fresh buffer total_count fd)
    λ t. some (
      tt,
      record t {
        buffers = set t.buffers t.buffer_index (set buffer total_count 0);
        buffer_index = (t.buffer_index + 1) % k_max_connections;
      },
    )

  -- Data on the descriptor of a client.
  pub handle_client : ℕ → ℕ → Session c → Unset → Request → ℕ → Action Io (Unit {0})
  unfolding read_loop process_buffer
  handle_client fuel rows s unset fresh fd = do
    buffer ← λ t. lift (get_elem? t.buffers t.buffer_index) t
    r ← call (read_loop os fuel fd buffer 0)
    if r.1 == 0 then pure tt else process_buffer fuel rows s unset fresh fd r.0 r.1
    if r.2 then call (modify (os.close fd)) else pure tt

  pub handle_event : ℕ → ℕ → Session c → Unset → Request → ℕ → ℕ → Event → Action Io (Unit {0})
  unfolding accept_loop handle_client
  handle_event fuel rows s unset fresh epoll_fd server_fd event =
      if is_bad_event event
      then call (modify (os.close event.fd))
      else if server_fd == event.fd
      then call (accept_loop os fuel epoll_fd server_fd)
      else handle_client fuel rows s unset fresh event.fd

  pub handle_events :
      ℕ → ℕ → Session c → Unset → Request → ℕ → ℕ → List Event → Action Io (Unit {0})
  unfolding handle_event
  handle_events fuel rows s unset fresh epoll_fd server_fd [] = pure tt
  handle_events fuel rows s unset fresh epoll_fd server_fd (e ∷ events) =
      handle_event fuel rows s unset fresh epoll_fd server_fd e
      >> handle_events fuel rows s unset fresh epoll_fd server_fd events

  -- One round of the loop of a thread.
  unfoldable pub event_round : ℕ → ℕ → Session c → Unset → Request → ℕ → ℕ → Action Io (Unit {0})
  unfolding handle_events
  event_round fuel rows s unset fresh epoll_fd server_fd = do
    events ← call (effect (os.epoll_wait epoll_fd k_max_events))
    handle_events fuel rows s unset fresh epoll_fd server_fd events
