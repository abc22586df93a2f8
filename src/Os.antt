-- ===== src/Os.antt =====
-- The system calls of the servers, as a parameter, and the small wrappers that several files repeat
-- (rinha/main.cc, rinha/io_thread_pool.cc, rinha/epoll.cc, rinha/thread_pool_router.cc).
-- `none` is a process that stops: a fault, a failed `CHECK`, `abort()` or `exit`.
use Prim.Native.Nat.{bit_or}
use rinha.Prelude.{
  ℕ, ◌+◌, ◌≤◌, ◌≡◌, ◌⊎◌, ◌++◌, length, ◌/◌, ◌%◌, ◌^◌, Bool, true, false, not, ◌||◌, Option, none,
  some, List, Bytes, ◌==◌, if◌then◌else◌,
}
use rinha.Prelude.Stateful.{Action, pure, stopped, effect, ◌>>=◌}

pub data Family : Type 0 where
  af_unix af_inet : Family

pub data CtlOp : Type 0 where
  epoll_ctl_add epoll_ctl_mod : CtlOp

-- A `write`: the bytes taken, or -1, where `errno` is `EAGAIN` or not.
pub data Written : Type 0 where
  count : ℕ → Written
  error : Bool → Written

-- A `read`: what came, nothing at the end of the stream, or -1.
pub data Received : Type 0 where
  bytes : Bytes → Received
  error : Bool → Received

-- An `accept`: a descriptor, or -1, where `errno` is `EAGAIN` or not.
pub data Accepted : Type 0 where
  connection : ℕ → Accepted
  error : Bool → Accepted

pub record Event : Type 0 where
  pub events : ℕ
  pub fd : ℕ

-- A call that returns a descriptor or flags gives `none` for -1; any other tells whether it succeeds.
pub record Os (W : Type 0) : Type 0 where
  pub socket : Family → W → Option ℕ × W
  pub set_tcp_option : ℕ → Bytes → W → Bool × W
  pub bind : ℕ → Bytes → W → Bool × W
  pub connect : ℕ → Bytes → W → Bool × W
  pub listen : ℕ → W → Bool × W
  pub unlink : Bytes → W → W
  pub get_flags : ℕ → W → Option ℕ × W
  pub set_flags : ℕ → ℕ → W → Bool × W
  pub epoll_create : W → Option ℕ × W
  pub epoll_ctl : ℕ → CtlOp → ℕ → ℕ → W → Bool × W
  pub epoll_wait : ℕ → ℕ → W → List Event × W
  pub accept : ℕ → W → Accepted × W
  -- `read(fd, buf, n)`
  pub read : ℕ → ℕ → W → Received × W
  pub write : ℕ → Bytes → W → Written × W
  pub close : ℕ → W → W

abbrev pub o_nonblock : ℕ
o_nonblock = 2048

abbrev pub epollin : ℕ
epollin = 1

abbrev pub epollerr : ℕ
epollerr = 8

abbrev pub epollhup : ℕ
epollhup = 16

-- `EPOLLIN | EPOLLET`
abbrev pub edge_triggered : ℕ
edge_triggered = 1 + 2 ^ 31

-- `EPOLLIN | EPOLLET | EPOLLONESHOT`
abbrev pub one_shot : ℕ
one_shot = 1 + 2 ^ 31 + 2 ^ 30

abbrev pub has_bit : ℕ → ℕ → Bool
has_bit events bit = (events / bit) % 2 == 1

-- The test of every event loop: an error, a hang-up, or nothing to read.
abbrev pub is_bad_event : Event → Bool
is_bad_event e =
    has_bit e.events epollerr || has_bit e.events epollhup || not (has_bit e.events epollin)

module _ {W : Type 0} (os : Os W) where
  -- `make_socket_non_blocking`: false for its -1.
  unfoldable pub make_socket_non_blocking : ℕ → Action W Bool
  make_socket_non_blocking fd = do
    flags ← effect (os.get_flags fd)
    elim flags [ none ↦ pure false | some f ↦ effect (os.set_flags fd (bit_or f o_nonblock)) ]

  -- `SetNonBlocking`, which exits on a failure.
  unfoldable pub set_non_blocking : ℕ → Action W (Unit {0})
  unfolding make_socket_non_blocking
  set_non_blocking fd = do
    flags ← effect (os.get_flags fd)
    elim flags [
      | none ↦ stopped
      | some f ↦
          effect (os.set_flags fd (bit_or f o_nonblock)) >>= λ set. if set then pure tt else stopped
    ]

-- What the program relies on of `read`: it gives the waiting bytes in order, at most as many as it
-- is asked for, and some while any wait and any are asked for. Its only error is `EAGAIN`.
pub record Source {W : Type 0} (os : Os W) (fd : ℕ) : Type 0 where
  pub waiting : W → Bytes
  pub on_read :
      (n : ℕ) (w : W)
      → ((s : Bytes) × ((os.read fd n w).0 ≡ bytes s)
          × (waiting w ≡ s ++ waiting (os.read fd n w).1)
          × (length s ≤ n)
          × ((1 ≤ length s) ⊎ (n ≡ 0) ⊎ (length (waiting w) ≡ 0)))
        ⊎ ((os.read fd n w).0 ≡ Received.error true)
          × (waiting w ≡ waiting (os.read fd n w).1)
          × (length (waiting w) ≡ 0)
