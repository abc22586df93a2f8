-- ===== src/Tests/Counting.antt =====
-- The theorems about the measuring server, each applied at a concrete input.
use rinha.Prelude.{
  ℕ, ◌*◌, ◌≤◌, ◌≡◌, refl, Bool, false, some, [], Bytes, codes, if◌then◌else◌, arith,
}
use rinha.Os.{Event}
use rinha.ThreadPool.{Pool}
use rinha.Epoll.{handle_event}
use rinha.Epoll.Counting.{grown, handle_event-grown}
use rinha.Tests.Proxy.{stream, source}

abbrev readable : Event
readable = record { events = 1; fd = 7 }

-- Six bytes of client 7 wait.
abbrev idle : Pool ℕ Bytes
idle = record { tasks = []; stop = false; world = codes "GET / " }

handle_event-grown_example :
    (n : ℕ) × (done : Bool) × (w' : Bytes) × (handle_event stream 10 5 3 readable idle
      ≡ some (tt, grown stream 7 source idle n (if done then w' else w')))
    × (w' ≡ [])
    × (n ≤ 6)
    × (6 ≤ n * 4096)
handle_event-grown_example =
    handle_event-grown stream 7 source 10 5 3 readable idle refl refl refl (omega arith)
