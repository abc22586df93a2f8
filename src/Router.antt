-- ===== src/Router.antt =====
-- rinha/thread_pool_router.cc: the proxy between TCP clients and two servers on Unix sockets.
-- The threads share the arrays; a handler is modelled as one step on them.
pub mod Queue
pub mod Pairing
pub mod Proxy
pub mod Moves
pub mod Represents
pub mod Simulates
pub mod Runs
pub mod Opening
pub mod Filling
pub mod Starting
pub mod Tickets
pub mod Errands
pub mod Places
pub mod Takes
pub mod Gives
pub mod Reached
pub mod Loop
pub mod Messages
pub mod Serving
pub mod Visits
pub mod Arrivals
use rinha.Prelude.{
  ℕ, zero, suc, ◌+◌, ◌-◌, ◌%◌, ℤ, pos, negsuc, add_int, Bool, true, false, not, ◌||◌, Option, none,
  some, List, [], ◌∷◌, ◌++◌, Bytes, codes, ltb, ◌==◌, if◌then◌else◌, length, get_elem?, replicate,
  write_at,
}
use rinha.Prelude

abbrev pub k_max_connections : ℕ
k_max_connections = 1000

abbrev pub k_initial_unix_connections : ℕ
k_initial_unix_connections = 50

abbrev pub k_buffer_size : ℕ
k_buffer_size = 4096

-- The free connections to one server: an array with two counters that only grow.
pub record Available : Type 0 where
  pub connections : List ℤ
  pub start_idx : ℤ
  pub end_idx : ℤ

pub record Router : Type 0 where
  pub tcp_to_unix : List ℤ
  pub unix_to_tcp : List ℤ
  pub connection_1_fds : List ℤ
  pub available_1 : Available
  pub available_2 : Available
  pub round_robin_counter : ℤ

abbrev pub is_none : ℤ → Bool
is_none (pos n) = false
is_none (negsuc n) = n == 0

abbrev pub minus_one : ℤ
minus_one = negsuc 0

-- An array at an `int` index.
abbrev pub read_int : List ℤ → ℤ → Option ℤ
read_int xs (pos i) = get_elem? xs i
read_int xs (negsuc i) = none

abbrev pub write_int : List ℤ → ℤ → ℤ → Option (List ℤ)
write_int xs (pos i) v = write_at xs i v
write_int xs (negsuc i) v = none

-- `counter % kMaxConnections`, which is negative for most negative counters.
abbrev pub slot : ℤ → ℤ
slot (pos n) = pos (n % k_max_connections)
slot (negsuc n) =
    if (n + 1) % k_max_connections == 0 then pos 0 else negsuc ((n + 1) % k_max_connections - 1)

-- A connection goes back to the end of the array.
unfoldable pub give_back : Available → ℤ → Option Available
give_back a unix_fd =
    Prelude.◌>>=◌ (write_int a.connections (slot a.end_idx) unix_fd) λ connections.
      some (record a { connections = connections; end_idx = add_int a.end_idx (pos 1) })

-- The next connection is taken from the start; a slot that was never filled stops the process.
unfoldable pub take_next : Available → Option (ℤ × Available)
take_next a = Prelude.◌>>=◌ (read_int a.connections (slot a.start_idx)) λ unix_fd.
    if is_none unix_fd
    then none
    else some (unix_fd, record a { start_idx = add_int a.start_idx (pos 1) })

-- `erase_from_maps` for a TCP descriptor: its connection is free again.
unfoldable pub erase_tcp : ℤ → ℤ → Router → Option Router
unfolding give_back
erase_tcp fd unix_fd r = Prelude.◌>>=◌ (write_int r.unix_to_tcp unix_fd minus_one) λ unix_to_tcp.
    Prelude.◌>>=◌ (write_int r.tcp_to_unix fd minus_one) λ tcp_to_unix.
      Prelude.◌>>=◌ (read_int r.connection_1_fds unix_fd) λ mark.
        if not (is_none mark)
        then (Prelude.◌>>=◌ (give_back r.available_1 unix_fd) λ a.
            some
              (record r { tcp_to_unix = tcp_to_unix; unix_to_tcp = unix_to_tcp; available_1 = a }))
        else Prelude.◌>>=◌ (give_back r.available_2 unix_fd) λ a.
          some (record r { tcp_to_unix = tcp_to_unix; unix_to_tcp = unix_to_tcp; available_2 = a })

-- `erase_from_maps`. For any other descriptor a `CHECK(false)` stops the process.
unfoldable pub erase_from_maps : ℤ → Router → Option Router
unfolding erase_tcp
erase_from_maps fd r =
    Prelude.◌>>=◌ (read_int r.tcp_to_unix fd)
      λ unix_fd. if not (is_none unix_fd) then erase_tcp fd unix_fd r else none

-- The part of the accept loop that picks a connection for a new client and fills the maps.
abbrev pub associate : ℤ → ℤ → Router → Option Router
associate infd unix_fd r = Prelude.◌>>=◌ (write_int r.tcp_to_unix infd unix_fd) λ tcp_to_unix.
    Prelude.◌>>=◌ (write_int r.unix_to_tcp unix_fd infd)
      λ unix_to_tcp. some (record r { tcp_to_unix = tcp_to_unix; unix_to_tcp = unix_to_tcp })

-- `counter % 2 == 0`
abbrev pub is_even : ℤ → Bool
is_even (pos n) = n % 2 == 0
is_even (negsuc n) = (n + 1) % 2 == 0

unfoldable pub assign : ℤ → Router → Option Router
unfolding take_next
assign infd r =
    let counted : Router = record r {
      round_robin_counter = add_int r.round_robin_counter (pos 1);
    } in
    if is_even r.round_robin_counter
    then (Prelude.◌>>=◌ (take_next r.available_1)
        λ q. associate infd q.0 (record counted { available_1 = q.1 }))
    else Prelude.◌>>=◌ (take_next r.available_2)
        λ q. associate infd q.0 (record counted { available_2 = q.1 })

-- Where the message from a descriptor goes.
unfoldable pub destination : ℤ → Router → Option ℤ
destination src r = Prelude.◌>>=◌ (read_int r.tcp_to_unix src) λ dst.
    if not (is_none dst)
    then some dst
    else Prelude.◌>>=◌ (read_int r.unix_to_tcp src) λ back. if is_none back then none else some back

-- `std::fill_n` over the arrays, and the counters at their start.
unfoldable pub empty_router : Router
empty_router = record {
  tcp_to_unix = replicate k_max_connections minus_one;
  unix_to_tcp = replicate k_max_connections minus_one;
  connection_1_fds = replicate k_max_connections minus_one;
  available_1 = fresh;
  available_2 = fresh;
  round_robin_counter = pos 0;
}
  where
    fresh : Available
    fresh = record {
      connections = replicate k_max_connections minus_one;
      start_idx = pos 0;
      end_idx = pos 0;
    }
