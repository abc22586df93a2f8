-- ===== src/Epoll.antt =====
-- rinha/epoll.cc: a server that only counts what it reads, for measurements: every `read` that brings
-- bytes makes one task for the workers of rinha/thread_pool_200.cc.
pub mod Counting
use rinha.Prelude.{
  ℕ, zero, suc, Bool, true, false, not, Option, none, some, List, [], ◌∷◌, Bytes, ◌==◌,
  if◌then◌else◌,
}
use rinha.Prelude
use rinha.Prelude.Stateful.{Action, pure, stopped, lift, effect, modify, ◌>>=◌, ◌>>◌}
use rinha.Os.{
  Os, af_unix, Received, bytes, Accepted, connection, Event, epoll_ctl_add, edge_triggered,
  is_bad_event, make_socket_non_blocking,
}
use rinha.ThreadPool.{Pool, enqueue_process_request}

abbrev pub max_events : ℕ
max_events = 10

abbrev pub buffer_size : ℕ
buffer_size = 4096

module _ {W : Type 0} (os : Os W) where
  abbrev pub call : {A : Type 0} → Action W A → Action (Pool ℕ W) A
  call m p = Prelude.◌>>=◌ (m p.world) λ r. some (r.0, record p { world = r.1 })

  -- `create_and_bind`, where `none` is its -1. The path is not unlinked.
  pub create_and_bind : Bytes → Action W (Option ℕ)
  create_and_bind path = do
    opened ← effect (os.socket af_unix)
    elim opened [
      | none ↦ pure none
      | some sfd ↦ effect (os.bind sfd path) >>= λ bound. pure (if bound then some sfd else none)
    ]

  -- `main` up to its loop, which aborts on an error.
  unfoldable pub start : Bytes → Action W (ℕ × ℕ)
  unfolding create_and_bind make_socket_non_blocking
  start socket_path = do
    created ← create_and_bind socket_path
    server_fd ← lift created
    set ← make_socket_non_blocking os server_fd
    listening ← if set then effect (os.listen server_fd) else stopped
    epoll ← if listening then effect os.epoll_create else stopped
    epoll_fd ← lift epoll
    added ← effect (os.epoll_ctl epoll_fd epoll_ctl_add server_fd edge_triggered)
    if added then pure (epoll_fd, server_fd) else stopped

  -- The loop over the incoming connections, on fuel. Any error ends it.
  pub accept_loop : ℕ → ℕ → ℕ → Action W (Unit {0})
  unfolding make_socket_non_blocking
  accept_loop zero epoll_fd server_fd = stopped
  accept_loop (suc fuel) epoll_fd server_fd = do
    r ← effect (os.accept server_fd)
    elim r [
      | Accepted.error again ↦ pure tt
      | connection infd ↦ make_socket_non_blocking os infd >>= λ set.
          if not set
          then stopped
          else (effect (os.epoll_ctl epoll_fd epoll_ctl_add infd edge_triggered) >>= λ added.
              if added then accept_loop fuel epoll_fd server_fd else stopped)
    ]

  -- The loop over the data of a client, on fuel: `done` at its end.
  unfoldable pub read_loop : ℕ → ℕ → Action (Pool ℕ W) Bool
  unfolding enqueue_process_request
  read_loop zero fd = stopped
  read_loop (suc fuel) fd = do
    r ← call (effect (os.read fd buffer_size))
    elim r [
      | bytes [] ↦ pure true
      | bytes (b ∷ s) ↦ modify (enqueue_process_request fd) >> read_loop fuel fd
      | Received.error again ↦ pure (not again)
    ]

  unfoldable pub handle_event : ℕ → ℕ → ℕ → Event → Action (Pool ℕ W) (Unit {0})
  unfolding accept_loop read_loop
  handle_event fuel epoll_fd server_fd event =
      if is_bad_event event
      then call (modify (os.close event.fd))
      else if server_fd == event.fd
      then call (accept_loop fuel epoll_fd server_fd)
      else (read_loop fuel event.fd >>= λ done.
          if done then call (modify (os.close event.fd)) else pure tt)

  pub handle_events : ℕ → ℕ → ℕ → List Event → Action (Pool ℕ W) (Unit {0})
  unfolding handle_event
  handle_events fuel epoll_fd server_fd [] = pure tt
  handle_events fuel epoll_fd server_fd (e ∷ events) =
      handle_event fuel epoll_fd server_fd e >> handle_events fuel epoll_fd server_fd events

  -- One round of the loop of `main`.
  unfoldable pub event_round : ℕ → ℕ → ℕ → Action (Pool ℕ W) (Unit {0})
  unfolding handle_events
  event_round fuel epoll_fd server_fd = do
    events ← call (effect (os.epoll_wait epoll_fd max_events))
    handle_events fuel epoll_fd server_fd events
