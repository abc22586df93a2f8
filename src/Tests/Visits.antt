-- ===== src/Tests/Visits.antt =====
-- The event loop of the router with clients that come, send and go, each theorem at a concrete input.
use rinha.Prelude.{
  ℕ, ◌+◌, ◌≤◌, ◌≡◌, refl, ◌⊎◌, inl, inr, true, some, List, [], ◌∷◌, ◌++◌, Bytes, codes, length,
  arith,
}
use rinha.Os.{Os, Source, Received, bytes, Accepted, connection}
use rinha.Router.{Router, k_buffer_size}
use rinha.Router.Loop.{State, handle_event}
use rinha.Router.Proxy.{Proxy, arrives, arrive, depart, IsProxy}
use rinha.Router.Represents.{Represents}
use rinha.Router.Runs.{Moves, rests, moves, run, run-Represents}
use rinha.Router.Starting.{idle, is_first, idle-IsProxy}
use rinha.Router.Serving.{passed_on, handle_event-passed_on}
use rinha.Router.Visits.{handle_event-leaves}
use rinha.Router.Arrivals.{Backlog, handle_event-arrivals}
use rinha.Tests.Kernel.{kernel}
use rinha.Tests.Proxy.{stream, served_read}
use rinha.Tests.Routing.{firsts, seconds, one_each, day, evening, apart, conns, at_start, all_day}

-- The router in the evening, when 9 has the connection 5 and 8 the connection 6.
abbrev late :
    (r' : Router) × (run day one_each ≡ some r')
    × Represents (firsts ++ seconds) (is_first firsts) evening 4 r'
    × IsProxy (firsts ++ seconds) (is_first firsts) evening
late =
    run-Represents (firsts ++ seconds) (is_first firsts) conns 0 one_each all_day
      (idle-IsProxy firsts seconds apart) at_start (omega arith)

-- Five bytes wait at the client 8.
abbrev sending : State Bytes
sending = record { router = late.0; world = codes "GET /" }

abbrev source_8 : Source stream 8
source_8 = record { waiting = λ w. w; on_read = served_read }

stays_open :
    (n : ℕ) (w : Bytes) → 1 ≤ n → length w ≡ 0 → (stream.read 8 n w).0 ≡ Received.error true
stays_open n [] some_asked e = refl
stays_open n (b ∷ w) some_asked e = absurd (omega (arith, e))

handle_event-passed_on_example :
    (w' : Bytes) × (handle_event stream
        (k_buffer_size + 1)
        4
        3
        (record { events = 1; fd = 8 })
        sending
      ≡ some (tt, record sending { world = passed_on stream 8 source_8 6 4 (codes "GET /") w' }))
    × (w' ≡ [])
handle_event-passed_on_example =
    handle_event-passed_on (firsts ++ seconds) (is_first firsts) conns stream evening 4 8 6 8 6 4 3
      1 sending source_8 late.3 late.2 (omega arith) refl (inl (refl, refl)) stays_open
      (λ epoll_fd w. refl) refl refl (omega arith) (omega arith)

-- A system on which every stream is at its end.
abbrev ended : Os Bytes
ended = record kernel { read = λ fd n w. (bytes [], w) }

abbrev night : Proxy
night = record { pairs = (9, 5) ∷ []; free_1 = []; free_2 = 6 ∷ []; clients = 3 }

handle_event-leaves_example :
    (r : Router) × (handle_event ended 2 4 3 (record { events = 1; fd = 8 }) sending
      ≡ some (tt, record { router = r; world = codes "GET /" }))
    × Represents (firsts ++ seconds) (is_first firsts) night 5 r
    × IsProxy (firsts ++ seconds) (is_first firsts) night
handle_event-leaves_example =
    handle_event-leaves (firsts ++ seconds) (is_first firsts) conns ended 8 4 1 4 3 1 sending
      (depart evening 8 6 (omega arith) refl) late.3 late.2 (omega arith) refl refl refl

-- The world is the clients that wait.
abbrev admit : List ℕ → Accepted × List ℕ
admit [] = (Accepted.error true, [])
admit (t ∷ ts) = (connection t, ts)

abbrev door : Os (List ℕ)
door = record kernel { accept = λ fd w. admit w }

admits :
    (w : List ℕ)
    → ((t : ℕ) × ((admit w).0 ≡ connection t) × (w ≡ t ∷ (admit w).1))
      ⊎ ((admit w).0 ≡ Accepted.error true) × (w ≡ []) × ((admit w).1 ≡ [])
admits [] = inr (refl, refl, refl)
admits (t ∷ ts) = inl (t, refl, refl)

abbrev backlog : Backlog door 4 3
backlog = record {
  pending = λ w. w;
  on_accept = admits;
  on_get_flags = λ fd w. (2, refl, refl);
  on_set_flags = λ fd flags w. (refl, refl);
  on_epoll_ctl = λ fd w. (refl, refl);
}

abbrev opening : State (List ℕ)
opening = record { router = one_each; world = 7 ∷ 8 ∷ [] }

abbrev noon : Proxy
noon = record { pairs = (8, 6) ∷ (7, 5) ∷ []; free_1 = []; free_2 = []; clients = 2 }

both_come :
    Moves
      (firsts ++ seconds)
      (is_first firsts)
      (idle firsts seconds)
      (arrives 7 ∷ arrives 8 ∷ [])
      noon
both_come =
    moves (arrive (idle firsts seconds) 7 5 [] refl refl refl (omega arith))
      (moves (arrive _ 8 6 [] refl refl refl (omega arith)) (rests _))

handle_event-arrivals_example :
    (s' : State (List ℕ)) × (handle_event door 3 4 3 (record { events = 1; fd = 3 }) opening
      ≡ some (tt, s'))
    × (s'.world ≡ [])
    × Represents (firsts ++ seconds) (is_first firsts) noon 2 s'.router
    × IsProxy (firsts ++ seconds) (is_first firsts) noon
handle_event-arrivals_example =
    handle_event-arrivals door 4 3 backlog (firsts ++ seconds) (is_first firsts) conns 3 0 1 opening
      both_come (idle-IsProxy firsts seconds apart) at_start (omega arith) (omega arith) refl
