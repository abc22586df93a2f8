-- ===== src/Tests/Rounds.antt =====
-- The theorem about the buffers of a thread, at two rounds in which one connection hangs up and a request waits
-- at another.
use rinha.Prelude.{
  ℕ, ◌≤◌, ◌≡◌, ◌⊎◌, inl, inr, refl, pos, true, false, Bool, some, none, Option, codes, [], ◌∷◌,
  Bytes, length, replicate, get_elem?,
}
use rinha.Os.{Os, Received, bytes}
use rinha.IoThreadPool.{Io, k_buffer_total_size}
use rinha.IoThreadPool.Buffers.{Bounded, IsSound}
use rinha.Server.Threads.{Machine, io_thread}
use rinha.Server.Rounds.{io_thread-IsSound}
use rinha.Tests.Demo.{Memory, memory, image, absl}
use rinha.Tests.Proxy.{serve, length-take_le}
use rinha.Tests.Filling.{disk, booting}
use rinha.Tests.Handler.{clock, unset}
use rinha.Tests.Requests.{unread}
use rinha.Tests.Clients.{line}
use rinha.Tests.Rows.{world}

abbrev busy_line : Os Memory
busy_line = record line {
  epoll_wait = λ fd n w. (record { events = 17; fd = 5 } ∷ record { events = 1; fd = 7 } ∷ [], w);
}

served_few :
    (n : ℕ) (s : Bytes)
    → ((r : Bytes) × ((serve n s).0 ≡ bytes r) × (length r ≤ n))
      ⊎ ((again : Bool) × ((serve n s).0 ≡ Received.error again))
served_few n [] = inr (true, refl)
served_few n (b ∷ s) = inl (_, refl, length-take_le n (b ∷ s))

abbrev bounded : Bounded busy_line
bounded = record { on_read = λ fd n w. served_few n w.input }

-- A request waits at the client.
abbrev machine : Machine disk memory image
machine = record {
  mysql = booting;
  handler_socket = record world { input = codes "GET /clientes/1/extrato HTTP/1.1\r\n\r\n" };
}

abbrev thread : Option (Io absl memory image clock busy_line)
thread =
    io_thread absl disk memory image clock busy_line 2 1025 2 unset unread 4 3 (replicate 5 false)
      (pos 0) (pos 1) machine

io_thread-IsSound_example :
    (thread ≡ none)
    ⊎ ((t : Io absl memory image clock busy_line) × (thread ≡ some t)
        × IsSound absl memory image clock busy_line bounded t
        × (b : Bytes) × (get_elem? t.buffers t.buffer_index ≡ some b)
        × (length b ≡ k_buffer_total_size))
io_thread-IsSound_example =
    io_thread-IsSound absl disk memory image clock busy_line bounded 2 1025 2 unset unread 4 3
      (replicate 5 false) (pos 0) (pos 1) machine
