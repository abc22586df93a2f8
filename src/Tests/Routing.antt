-- ===== src/Tests/Routing.antt =====
-- The theorems about the clients of the router, on a system that gives descriptors in order.
use rinha.Prelude.{
  ℕ, zero, suc, ◌+◌, ◌≤◌, ◌≡◌, refl, ap, true, some, List, [], ◌∷◌, ◌++◌, length, arith,
}
use rinha.Os.{Os}
use rinha.Router.{Available, Router, empty_router}
use rinha.Router.Proxy.{Proxy, Event, arrives, leaves, arrive, depart, IsProxy, count}
use rinha.Router.Represents.{HoldsQueue, Represents}
use rinha.Router.Simulates.{AreConnections}
use rinha.Router.Opening.{Grants, IsOpening, marked, add_free-HoldsQueue}
use rinha.Router.Filling.{IsOpening-first, IsOpening-second}
use rinha.Router.Runs.{Moves, rests, moves, run, run-Represents}
use rinha.Router.Starting.{
  idle, is_first, empty_router-IsOpening, idle-IsProxy, IsOpening-Represents,
  initialize_thread_pool-Represents,
}
use rinha.Router.Loop.{State, initialize_thread_pool}
use rinha.Tests.Kernel.{kernel_of}

abbrev below : ℕ → List ℕ
below zero = []
below (suc n) = n ∷ below n

count-below_ge : (u n : ℕ) → n ≤ u → count u (below n) ≡ 0
count-below_ge u zero h = refl
count-below_ge u (suc n) h = ground (arith, count-below_ge u n)

count-below-le : (u n : ℕ) → count u (below n) ≤ 1
count-below-le u zero = omega arith
count-below-le u (suc n) = ground (arith, count-below-le u n, count-below_ge u n)

length-below : (n : ℕ) → length (below n) ≡ n
length-below zero = refl
length-below (suc n) = ap suc (length-below n)

lowest : (n : ℕ) → n ≤ length (below n)
lowest n = omega (arith, length-below n)

-- The world is the next descriptor.
abbrev plain : Os ℕ
plain = record (kernel_of (λ w s. w)) {
  socket = λ family w. (some w, suc w);
  epoll_create = λ w. (some w, suc w);
}

abbrev grants : Grants plain
grants = record {
  opened = below;
  on_socket = λ f w. (w, refl, count-below_ge w w (omega arith), lowest w, refl);
  on_connect = λ fd path w. (refl, refl);
  on_get_flags = λ fd w. (2, refl, refl);
  on_set_flags = λ fd flags w. (refl, refl);
  on_epoll_ctl = λ fd op other events w. (refl, refl);
  on_option = λ fd option w. (refl, refl);
  on_bind = λ fd path w. (refl, refl);
  on_listen = λ fd w. (refl, refl);
  on_epoll_create = λ w. (w, refl, count-below_ge w w (omega arith), refl);
}

initialize_thread_pool-Represents_example :
    (vs : List ℕ) × (us : List ℕ) × (epoll_fd : ℕ) × (server_fd : ℕ) × (s' : State ℕ)
    × (initialize_thread_pool plain (record { router = empty_router; world = 3 })
        ≡ some ((epoll_fd, server_fd), s'))
    × (length vs ≡ 50)
    × (length us ≡ 50)
    × AreConnections (vs ++ us)
    × IsProxy (vs ++ us) (is_first vs) (idle vs us)
    × Represents (vs ++ us) (is_first vs) (idle vs us) 0 s'.router
initialize_thread_pool-Represents_example =
    initialize_thread_pool-Represents plain grants (record { router = empty_router; world = 3 })
      (omega arith) (λ u. count-below-le u 3)

abbrev pub firsts : List ℕ
firsts = 5 ∷ []

abbrev pub seconds : List ℕ
seconds = 6 ∷ []

-- The connection 5 goes to the first server, and 6 to the second.
abbrev queue_5 : (a : Available) × HoldsQueue a firsts 1
queue_5 =
    let (a, adds, q) =
      add_free-HoldsQueue empty_router.available_1 [] 5 empty_router-IsOpening.queue_1
        (omega arith) in
    (a, q)

abbrev queue_6 : (a : Available) × HoldsQueue a seconds 1
queue_6 =
    let (a, adds, q) =
      add_free-HoldsQueue empty_router.available_2 [] 6 empty_router-IsOpening.queue_2
        (omega arith) in
    (a, q)

abbrev pub one_each : Router
one_each = record (marked true 5 empty_router) { available_1 = queue_5.0; available_2 = queue_6.0 }

one_each-IsOpening : IsOpening firsts seconds one_each
one_each-IsOpening =
    IsOpening-second 6 queue_6.0 queue_6.1
      (IsOpening-first 5 queue_5.0 (omega arith) queue_5.1 empty_router-IsOpening)

pub apart : (u : ℕ) → count u firsts + count u seconds ≤ 1
apart u = ground arith

pub conns : AreConnections (firsts ++ seconds)
conns = record { once = λ u. ground arith; small = λ u h. ground arith; few = omega arith }

pub at_start : Represents (firsts ++ seconds) (is_first firsts) (idle firsts seconds) 0 one_each
at_start = IsOpening-Represents firsts seconds apart one_each conns.small one_each-IsOpening

abbrev pub day : List Event
day = arrives 7 ∷ arrives 8 ∷ leaves 7 ∷ arrives 9 ∷ []

abbrev pub evening : Proxy
evening = record { pairs = (9, 5) ∷ (8, 6) ∷ []; free_1 = []; free_2 = []; clients = 3 }

pub all_day : Moves (firsts ++ seconds) (is_first firsts) (idle firsts seconds) day evening
all_day = moves (arrive (idle firsts seconds) 7 5 [] refl refl refl (omega arith)) (
    moves (arrive _ 8 6 [] refl refl refl (omega arith)) (
      moves (depart _ 7 5 (omega arith) refl)
        (moves (arrive _ 9 5 [] refl refl refl (omega arith)) (rests _))))

run-Represents_example :
    (r' : Router) × (run day one_each ≡ some r')
    × Represents (firsts ++ seconds) (is_first firsts) evening 4 r'
    × IsProxy (firsts ++ seconds) (is_first firsts) evening
run-Represents_example =
    run-Represents (firsts ++ seconds) (is_first firsts) conns 0 one_each all_day
      (idle-IsProxy firsts seconds apart) at_start (omega arith)
