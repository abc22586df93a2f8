-- ===== src/Router/Loop.antt =====
-- The part of rinha/thread_pool_router.cc that calls the system: the connections to the servers, the
-- messages between two descriptors, and the event loop. A failed `CHECK` stops the process.
use rinha.Prelude.{
  ℕ, zero, suc, ◌+◌, ◌-◌, ℤ, pos, pos_part, add_int, Bool, true, false, not, Option, none, some,
  List, [], ◌∷◌, ◌++◌, Bytes, codes, ltb, ◌==◌, if◌then◌else◌, length, write_at,
}
use rinha.Prelude
use rinha.Prelude.Stateful.{Action, pure, stopped, lift, effect, modify, ◌>>=◌, ◌>>◌}
use rinha.Os.{
  Os, af_unix, af_inet, epoll_ctl_add, epoll_ctl_mod, Received, bytes, Accepted, connection, Event,
  edge_triggered, one_shot, is_bad_event, make_socket_non_blocking,
}
use rinha.Router.{
  Available, Router, k_buffer_size, k_initial_unix_connections, write_int, erase_from_maps, assign,
  destination, empty_router,
}

abbrev pub k_socket_path_1 : Bytes
k_socket_path_1 = codes "/tmp/unix_socket_example.sock"

abbrev pub k_socket_path_2 : Bytes
k_socket_path_2 = codes "/tmp/unix_socket_example2.sock"

abbrev pub k_max_events : ℕ
k_max_events = 1000

abbrev pub somaxconn : ℕ
somaxconn = 4096

-- What a thread of the process reaches.
pub record State (W : Type 0) : Type 0 where
  pub router : Router
  pub world : W

-- The arrays get a free connection.
abbrev pub add_free : ℕ → Available → Option Available
add_free unix_fd a = Prelude.◌>>=◌ (write_int a.connections a.end_idx (pos unix_fd)) λ connections.
    some (record a { connections = connections; end_idx = add_int a.end_idx (pos 1) })

module _ {W : Type 0} (os : Os W) where
  -- A system call, and a change of the arrays.
  abbrev pub call : {A : Type 0} → Action W A → Action (State W) A
  call m s = Prelude.◌>>=◌ (m s.world) λ r. some (r.0, record s { world = r.1 })

  abbrev pub change : (Router → Option Router) → Action (State W) (Unit {0})
  change f s = Prelude.◌>>=◌ (f s.router) λ r. some (tt, record s { router = r })

  abbrev pub check : Bool → Action (State W) (Unit {0})
  check true = pure tt
  check false = stopped

  -- `create_unix_socket_connection`
  unfoldable pub create_unix_socket_connection : Bool → Action (State W) ℕ
  create_unix_socket_connection connection_1 = do
    opened ← call (effect (os.socket af_unix))
    sock_fd ← lift opened
    connected ←
        call
          (effect (os.connect sock_fd (if connection_1 then k_socket_path_1 else k_socket_path_2)))
    check connected
    change (λ r.
        if connection_1
        then (Prelude.◌>>=◌ (write_int r.connection_1_fds (pos sock_fd) (pos 1))
            λ marks. some (record r { connection_1_fds = marks }))
        else some r)
    pure sock_fd

  -- `create_unix_connection_and_add_to_epoll`
  unfoldable pub create_unix_connection_and_add_to_epoll : ℕ → Bool → Action (State W) ℕ
  unfolding create_unix_socket_connection
  create_unix_connection_and_add_to_epoll epoll_fd connection_1 = do
    unix_fd ← create_unix_socket_connection connection_1
    set ← call (make_socket_non_blocking os unix_fd)
    check set
    added ← call (effect (os.epoll_ctl epoll_fd epoll_ctl_add unix_fd one_shot))
    check added
    pure unix_fd

  -- `create_and_bind`: port 9999 on every address.
  unfoldable pub create_and_bind : Action (State W) ℕ
  create_and_bind = do
    opened ← call (effect (os.socket af_inet))
    sfd ← lift opened
    no_delay ← call (effect (os.set_tcp_option sfd (codes "TCP_NODELAY")))
    check no_delay
    quick_ack ← call (effect (os.set_tcp_option sfd (codes "TCP_QUICKACK")))
    check quick_ack
    bound ← call (effect (os.bind sfd (codes "0.0.0.0:9999")))
    check bound
    pure sfd

  -- `erase_from_maps` with its `close`.
  unfoldable pub erase : ℕ → Action (State W) (Unit {0})
  unfolding erase_from_maps
  erase fd = do change (erase_from_maps (pos fd)); call (modify (os.close fd))

  -- The loop of `HandleMessage` that reads into `buf`, with what it holds, on fuel: the bytes, and
  -- whether the other side has closed.
  unfoldable pub read_loop : ℕ → ℕ → Bytes → Action W (Bytes × Bool)
  read_loop zero src buf = stopped
  read_loop (suc fuel) src buf = do
    r ← effect (os.read src (k_buffer_size - length buf))
    elim r [
      | bytes [] ↦ pure (buf, true)
      | bytes (b ∷ s) ↦ read_loop fuel src (buf ++ (b ∷ s))
      | Received.error true ↦ pure (buf, false)
      | Received.error false ↦ stopped
    ]

  -- The message goes on, and the source is armed again.
  unfoldable pub forward : ℕ → ℕ → Bytes → ℕ → Action (State W) (Unit {0})
  forward src dst buf epoll_fd = if length buf == 0 then pure tt else do
    written ← call (effect (os.write dst buf))
    armed ← call (effect (os.epoll_ctl epoll_fd epoll_ctl_mod src one_shot))
    check armed

  -- `HandleMessage`
  unfoldable pub handle_message : ℕ → ℕ → ℕ → ℕ → Action (State W) (Unit {0})
  unfolding read_loop forward erase
  handle_message fuel src dst epoll_fd = do
    r ← call (read_loop fuel src [])
    forward src dst r.0 epoll_fd
    if r.1 then check (length r.0 == 0) >> erase src else pure tt

  -- A connection that was accepted.
  unfoldable pub handle_connection : ℕ → ℕ → Action (State W) (Unit {0})
  unfolding assign
  handle_connection epoll_fd infd = do
    set ← call (make_socket_non_blocking os infd)
    check set
    change (assign (pos infd))
    added ← call (effect (os.epoll_ctl epoll_fd epoll_ctl_add infd one_shot))
    check added

  -- The loop over the incoming connections, on fuel.
  unfoldable pub accept_loop : ℕ → ℕ → ℕ → Action (State W) (Unit {0})
  unfolding handle_connection
  accept_loop zero epoll_fd server_fd = stopped
  accept_loop (suc fuel) epoll_fd server_fd = do
    r ← call (effect (os.accept server_fd))
    elim r [
      | connection infd ↦ handle_connection epoll_fd infd >> accept_loop fuel epoll_fd server_fd
      | Accepted.error true ↦ pure tt
      | Accepted.error false ↦ stopped
    ]

  -- One event of the loop.
  unfoldable pub handle_event : ℕ → ℕ → ℕ → Event → Action (State W) (Unit {0})
  unfolding accept_loop handle_message destination
  handle_event fuel epoll_fd server_fd event =
      if is_bad_event event
      then stopped
      else if server_fd == event.fd
      then accept_loop fuel epoll_fd server_fd
      else do
        dst_fd ← λ s. lift (destination (pos event.fd) s.router) s
        handle_message fuel event.fd (pos_part dst_fd) epoll_fd

  unfoldable pub handle_events : ℕ → ℕ → ℕ → List Event → Action (State W) (Unit {0})
  unfolding handle_event
  handle_events fuel epoll_fd server_fd [] = pure tt
  handle_events fuel epoll_fd server_fd (e ∷ events) =
      handle_event fuel epoll_fd server_fd e >> handle_events fuel epoll_fd server_fd events

  -- One round of a worker thread.
  unfoldable pub event_round : ℕ → ℕ → ℕ → Action (State W) (Unit {0})
  unfolding handle_events
  event_round fuel epoll_fd server_fd = do
    events ← call (effect (os.epoll_wait epoll_fd k_max_events))
    handle_events fuel epoll_fd server_fd events

  -- The loop that opens the first connections, by the rounds left.
  unfoldable pub open_connections : ℕ → ℕ → Action (State W) (Unit {0})
  unfolding create_unix_connection_and_add_to_epoll
  open_connections zero epoll_fd = pure tt
  open_connections (suc n) epoll_fd = do
    unix_1 ← create_unix_connection_and_add_to_epoll epoll_fd true
    change (λ r.
        Prelude.◌>>=◌ (add_free unix_1 r.available_1) λ a. some (record r { available_1 = a }))
    unix_2 ← create_unix_connection_and_add_to_epoll epoll_fd false
    change (λ r.
        Prelude.◌>>=◌ (add_free unix_2 r.available_2) λ a. some (record r { available_2 = a }))
    open_connections n epoll_fd

  -- `InitializeThreadPool` up to the threads: the descriptors that they share.
  unfoldable pub initialize_thread_pool : Action (State W) (ℕ × ℕ)
  unfolding create_and_bind open_connections empty_router
  initialize_thread_pool = do
    change (λ _. some empty_router)
    server_fd ← create_and_bind
    set ← call (make_socket_non_blocking os server_fd)
    check set
    listening ← call (effect (os.listen server_fd))
    check listening
    created ← call (effect os.epoll_create)
    epoll_fd ← lift created
    added ← call (effect (os.epoll_ctl epoll_fd epoll_ctl_add server_fd edge_triggered))
    check added
    open_connections k_initial_unix_connections epoll_fd
    pure (epoll_fd, server_fd)
