-- ===== src/Router/Starting.antt =====
-- The router from its start: what `InitializeThreadPool` leaves.
use rinha.Prelude.{
  ℕ, zero, suc, ◌+◌, ◌≤◌, ◌<◌, ◌≡◌, refl, ap, ◌∙◌, pos, Bool, true, false, not, Option, none, some,
  List, [], ◌∷◌, ◌++◌, ◌==◌, length, length-append, length-replicate, get_elem?, codes, replicate,
  arith,
}
use rinha.Prelude.Stateful.{>>=-some}
use Prim.Native.Nat.{bit_or}
use rinha.Os.{Os, af_inet, epoll_ctl_add, edge_triggered, o_nonblock, make_socket_non_blocking}
use rinha.Router.{Router, minus_one, empty_router, k_max_connections}
use rinha.Router.Queue.{window}
use rinha.Router.Proxy.{Proxy, IsProxy, count, count-append, free}
use rinha.Router.Represents.{Holds, HoldsQueue, Represents, later}
use rinha.Router.Simulates.{AreConnections}
use rinha.Router.Opening.{Grants, IsOpening, pairs_up}
use rinha.Router.Loop.{State, change, create_and_bind, open_connections, initialize_thread_pool}
use rinha.Router.Filling.{open_connections-Opened, fresh_once}

get_elem?-replicate : {A : Type 0} (n i : ℕ) (v : A) → i < n → get_elem? (replicate n v) i ≡ some v
get_elem?-replicate zero i v h = absurd (omega arith)
get_elem?-replicate (suc n) zero v h = refl
get_elem?-replicate (suc n) (suc i) v h = get_elem?-replicate n i v (omega arith)

no_entries : Holds (replicate k_max_connections minus_one) (λ _. none)
no_entries = record {
  places = length-replicate k_max_connections minus_one;
  holds = λ i small. get_elem?-replicate k_max_connections i minus_one small;
}

no_connections :
    HoldsQueue
      (record {
        connections = replicate k_max_connections minus_one;
        start_idx = pos 0;
        end_idx = pos 0;
      })
      []
      0
unfolding window
no_connections = record {
  start = 0;
  queue = record {
    places = length-replicate k_max_connections minus_one;
    starts = refl;
    ends = refl;
    few = omega arith;
    small = omega arith;
  };
  content = refl;
  within = omega arith;
}

pub empty_router-IsOpening : IsOpening [] [] empty_router
unfolding empty_router
empty_router-IsOpening = record {
  tcp = no_entries;
  unix = no_entries;
  mark_places = length-replicate k_max_connections minus_one;
  marks = λ u small. get_elem?-replicate k_max_connections u minus_one small;
  queue_1 = no_connections;
  queue_2 = no_connections;
  turns = refl;
}

-- The abstract view of a router to which nobody has come yet.
abbrev pub idle : List ℕ → List ℕ → Proxy
idle vs us = record { pairs = []; free_1 = vs; free_2 = us; clients = 0 }

-- Whether a connection is one of those to the first server.
abbrev pub is_first : List ℕ → ℕ → Bool
is_first vs u = not (count u vs == 0)

module _ (vs us : List ℕ) (once : (u : ℕ) → count u vs + count u us ≤ 1) where
  pub idle-IsProxy : IsProxy (vs ++ us) (is_first vs) (idle vs us)
  idle-IsProxy = record {
    kept = λ u. omega (arith, count-append u vs us);
    total = omega (arith, length-append vs us);
    sided = sided_by;
    apart = λ u h. refl;
    distinct = tt;
  }
    where
      sided_by : (b : Bool) (u : ℕ) → 1 ≤ count u (free b (idle vs us)) → is_first vs u ≡ b
      sided_by true u h = ground arith
      sided_by false u h = ground (arith, once u)

  pub IsOpening-Represents :
      (r : Router)
      → ((u : ℕ) → 1 ≤ count u (vs ++ us) → u < 1000)
      → IsOpening vs us r
      → Represents (vs ++ us) (is_first vs) (idle vs us) 0 r
  IsOpening-Represents r small o = record {
    tcp = o.tcp;
    unix = o.unix;
    marks = λ u h. (_, o.marks u (small u h), ground arith);
    queue_1 = later (length vs) _ (omega (arith, length-append vs us)) o.queue_1;
    queue_2 = later (length us) _ (omega (arith, length-append vs us)) o.queue_2;
    turns = o.turns;
    few_clients = omega arith;
  }

module _ {W : Type 0} (os : Os W) (grants : Grants os) where
  open grants use {opened}

  -- A socket that is set up and bound.
  create_and_bind-opened :
      (s : State W)
      → (sfd : ℕ) × (w' : W) × (create_and_bind os s
          ≡ some (sfd, record { router = s.router; world = w' }))
        × (count sfd (opened s.world) ≡ 0)
        × (opened w' ≡ sfd ∷ opened s.world)
  unfolding create_and_bind
  create_and_bind-opened s =
      let (sfd, makes, fresh, low, grown) = grants.on_socket af_inet s.world in
      let w1 = (os.socket af_inet s.world).1 in
      let (no_delay, same2) = grants.on_option sfd (codes "TCP_NODELAY") w1 in
      let w2 = (os.set_tcp_option sfd (codes "TCP_NODELAY") w1).1 in
      let (quick_ack, same3) = grants.on_option sfd (codes "TCP_QUICKACK") w2 in
      let w3 = (os.set_tcp_option sfd (codes "TCP_QUICKACK") w2).1 in
      let (binds, same4) = grants.on_bind sfd (codes "0.0.0.0:9999") w3 in
      (
        sfd,
        (os.bind sfd (codes "0.0.0.0:9999") w3).1,
        rw (makes, no_delay, quick_ack, binds) refl,
        fresh,
        same4 ∙ same3 ∙ same2 ∙ grown,
      )

  rest_runs :
      (s s1 s2 : State W) (sfd epoll_fd flags : ℕ) (w2 w3 w4 w5 w6 : W)
      → change os (λ _. some empty_router) s ≡ some (tt, record s { router = empty_router })
      → create_and_bind os (record s { router = empty_router }) ≡ some (sfd, s1)
      → ◌≡◌ {A = Option ℕ × W} (os.get_flags sfd s1.world) (some flags, w2)
      → ◌≡◌ {A = Bool × W} (os.set_flags sfd (bit_or flags o_nonblock) w2) (true, w3)
      → ◌≡◌ {A = Bool × W} (os.listen sfd w3) (true, w4)
      → ◌≡◌ {A = Option ℕ × W} (os.epoll_create w4) (some epoll_fd, w5)
      → ◌≡◌ {A = Bool × W} (os.epoll_ctl epoll_fd epoll_ctl_add sfd edge_triggered w5) (true, w6)
      → open_connections os 50 epoll_fd (record s1 { world = w6 }) ≡ some (tt, s2)
      → initialize_thread_pool os s ≡ some ((epoll_fd, sfd), s2)
  unfolding initialize_thread_pool make_socket_non_blocking
  rest_runs s s1 s2 sfd epoll_fd flags w2 w3 w4 w5 w6 empties binds reads sets listens creates adds
        opens =
      >>=-some (create_and_bind os) _ {w = record s { router = empty_router }} binds
      ∙ rw (reads, make_socket_non_blocking, sets, listens, creates, adds)
          (>>=-some (open_connections os 50 epoll_fd) _ {w = record s1 { world = w6 }} opens)

  -- On a system that makes every socket and connection, with the lowest free descriptor for each, and
  -- 800 open descriptors at most before: `InitializeThreadPool` gets to its threads, and the arrays hold the view of a router with no
  -- client and 50 free connections to each server, which are different descriptors below 1000.
  pub initialize_thread_pool-Represents :
      (s : State W)
      → length (opened s.world) ≤ 800
      → ((u : ℕ) → count u (opened s.world) ≤ 1)
      → (vs : List ℕ) × (us : List ℕ) × (epoll_fd : ℕ) × (server_fd : ℕ) × (s' : State W)
        × (initialize_thread_pool os s ≡ some ((epoll_fd, server_fd), s'))
        × (length vs ≡ 50)
        × (length us ≡ 50)
        × AreConnections (vs ++ us)
        × IsProxy (vs ++ us) (is_first vs) (idle vs us)
        × Represents (vs ++ us) (is_first vs) (idle vs us) 0 s'.router
  initialize_thread_pool-Represents s room once =
      let t : State W = record s { router = empty_router } in
      let (sfd, w1, binds, fresh, grown) = create_and_bind-opened t in
      let (flags, reads, same2) = grants.on_get_flags sfd w1 in
      let w2 = (os.get_flags sfd w1).1 in
      let (sets, same3) = grants.on_set_flags sfd (bit_or flags o_nonblock) w2 in
      let w3 = (os.set_flags sfd (bit_or flags o_nonblock) w2).1 in
      let (listens, same4) = grants.on_listen sfd w3 in
      let w4 = (os.listen sfd w3).1 in
      let (epoll_fd, creates, fresh5, grown5) = grants.on_epoll_create w4 in
      let w5 = (os.epoll_create w4).1 in
      let (adds, same6) = grants.on_epoll_ctl epoll_fd epoll_ctl_add sfd edge_triggered w5 in
      let w6 = (os.epoll_ctl epoll_fd epoll_ctl_add sfd edge_triggered w5).1 in
      let before : opened w4 ≡ sfd ∷ opened s.world = same4 ∙ same3 ∙ same2 ∙ grown in
      let all : opened w6 ≡ epoll_fd ∷ opened w4 = same6 ∙ grown5 in
      let (vs, us, s2, opens, o, many, many2, _) =
        open_connections-Opened os grants 50 epoll_fd [] []
          (record { router = empty_router; world = w6 })
          (record {
            arrays = empty_router-IsOpening;
            in_use = λ u. omega arith;
            once = λ u.
                fresh_once u epoll_fd (opened w4) (opened w6) all fresh5
                  (fresh_once u sfd (opened s.world) (opened w4) before fresh (once u));
            small = λ u h. absurd (omega arith);
          })
          (omega arith) (omega arith) (omega (arith, room, ap length before, ap length all)) in
      let apart : (u : ℕ) → count u vs + count u us ≤ 1 =
        λ u. omega (arith, o.in_use u, o.once u) in
      let small : (u : ℕ) → 1 ≤ count u (vs ++ us) → u < 1000 =
        λ u h. o.small u (omega (arith, count-append u vs us)) in
      (
        vs,
        us,
        epoll_fd,
        sfd,
        s2,
        rest_runs s (record { router = empty_router; world = w1 }) s2 sfd epoll_fd flags w2 w3 w4 w5
            w6 refl binds (pairs_up reads refl) (pairs_up sets refl) (pairs_up listens refl)
            (pairs_up creates refl) (pairs_up adds refl) opens,
        many,
        many2,
        record {
          once = λ u. omega (arith, count-append u vs us, apart u);
          small = small;
          few = omega (arith, length-append vs us, many, many2);
        },
        idle-IsProxy vs us apart,
        IsOpening-Represents vs us apart s2.router small o.arrays,
      )
