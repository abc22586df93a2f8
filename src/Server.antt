-- ===== src/Server.antt =====
-- rinha/main.cc: the start of the server, up to its threads.
pub mod Threads
pub mod Starting
pub mod Launch
pub mod Ids
pub mod Working
pub mod Rounds
use rinha.Prelude.{ℕ, not, Option, none, some, Bytes, if◌then◌else◌}
use rinha.Prelude.Stateful.{Action, pure, stopped, lift, effect, modify, ◌>>=◌, ◌>>◌}
use rinha.HandlerSocket.Interface.{Layout}
use rinha.Os.{Os, af_unix, epoll_ctl_add, edge_triggered, set_non_blocking}
use rinha.MariaDatabase.Mysql.{Mysql}
use rinha.MariaDatabase.Setup.{maria_initialize_db}

abbrev pub somaxconn : ℕ
somaxconn = 4096

module _ {W : Type 0} (os : Os W) where
  -- `CreateAndBind`, where `none` is its -1.
  pub create_and_bind : Bytes → Action W (Option ℕ)
  create_and_bind path = do
    opened ← effect (os.socket af_unix)
    elim opened [
      | none ↦ pure none
      | some sfd ↦
          modify (os.unlink path)
          >> (effect (os.bind sfd path) >>= λ bound. pure (if bound then some sfd else none))
    ]

  -- The block of `main` that makes the server's descriptor and the epoll descriptor. On an error the
  -- process ends; -1 as the descriptor fails in `SetNonBlocking`.
  unfoldable pub create_server : Bytes → Action W (ℕ × ℕ)
  unfolding create_and_bind set_non_blocking
  create_server socket_path = do
    created ← create_and_bind socket_path
    server_fd ← lift created
    set_non_blocking os server_fd
    listening ← effect (os.listen server_fd)
    if not listening then modify (os.close server_fd) >> stopped else do
      epoll ← effect os.epoll_create
      epoll_fd ← lift epoll
      added ← effect (os.epoll_ctl epoll_fd epoll_ctl_add server_fd edge_triggered)
      if not added then modify (os.close server_fd) >> stopped else pure (epoll_fd, server_fd)

module _ (m : Mysql) (l : Layout) (os : Os m.World) where
  -- `main` up to the threads: they get the two descriptors once the table is filled.
  unfoldable pub start : ℕ → Bytes → Action m.World (ℕ × ℕ)
  unfolding create_server
  start fuel socket_path = do
    fds ← create_server os socket_path
    filled ← maria_initialize_db m l fuel
    if filled then pure fds else stopped
