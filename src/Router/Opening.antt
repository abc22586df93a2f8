-- ===== src/Router/Opening.antt =====
-- The start of the router, on a system that makes its sockets and connections.
use rinha.Prelude.{
  ℕ, zero, suc, ◌+◌, ◌-◌, ◌%◌, ◌^◌, ◌≤◌, ◌<◌, ◌≡◌, refl, sym, ap, ap₂, subst, write_at, ◌∙◌, ℤ, pos,
  add_int, Bool, true, false, not, Option, none, some, List, [], ◌∷◌, ◌++◌, Bytes, ◌==◌,
  if◌then◌else◌, length, get_elem?, set, write_at-lt, length-set, length-append, arith,
}
use rinha.Prelude
use rinha.Prelude.Stateful.{>>=-some}
use Prim.Native.Nat.{bit_or}
use rinha.Os.{
  Os, Family, af_unix, CtlOp, epoll_ctl_add, one_shot, o_nonblock, make_socket_non_blocking,
}
use rinha.Router.{Available, Router, minus_one, give_back}
use rinha.Router.Queue.{window, IsQueue, give_back-window}
use rinha.Router.Proxy.{count}
use rinha.Router.Represents.{Holds, HoldsQueue}
use rinha.Router.Simulates.{entries-append}
use rinha.Router.Loop.{
  State, k_socket_path_1, k_socket_path_2, create_unix_socket_connection, change,
  create_unix_connection_and_add_to_epoll, add_free,
}

-- What the program relies on: the calls succeed, and a new descriptor is not in use and the lowest of
-- those, so that it is no higher than there are open ones.
pub record Grants {W : Type 0} (os : Os W) : Type 0 where
  pub opened : W → List ℕ
  pub on_socket :
      (f : Family) (w : W)
      → (fd : ℕ) × ((os.socket f w).0 ≡ some fd)
        × (count fd (opened w) ≡ 0)
        × (fd ≤ length (opened w))
        × (opened (os.socket f w).1 ≡ fd ∷ opened w)
  pub on_connect :
      (fd : ℕ) (path : Bytes) (w : W)
      → ((os.connect fd path w).0 ≡ true) × (opened (os.connect fd path w).1 ≡ opened w)
  pub on_get_flags :
      (fd : ℕ) (w : W)
      → (flags : ℕ) × ((os.get_flags fd w).0 ≡ some flags)
        × (opened (os.get_flags fd w).1 ≡ opened w)
  pub on_set_flags :
      (fd flags : ℕ) (w : W)
      → ((os.set_flags fd flags w).0 ≡ true) × (opened (os.set_flags fd flags w).1 ≡ opened w)
  pub on_epoll_ctl :
      (fd : ℕ) (op : CtlOp) (other events : ℕ) (w : W)
      → ((os.epoll_ctl fd op other events w).0 ≡ true)
        × (opened (os.epoll_ctl fd op other events w).1 ≡ opened w)
  pub on_option :
      (fd : ℕ) (option : Bytes) (w : W)
      → ((os.set_tcp_option fd option w).0 ≡ true)
        × (opened (os.set_tcp_option fd option w).1 ≡ opened w)
  pub on_bind :
      (fd : ℕ) (path : Bytes) (w : W)
      → ((os.bind fd path w).0 ≡ true) × (opened (os.bind fd path w).1 ≡ opened w)
  pub on_listen :
      (fd : ℕ) (w : W) → ((os.listen fd w).0 ≡ true) × (opened (os.listen fd w).1 ≡ opened w)
  pub on_epoll_create :
      (w : W)
      → (fd : ℕ) × ((os.epoll_create w).0 ≡ some fd)
        × (count fd (opened w) ≡ 0)
        × (opened (os.epoll_create w).1 ≡ fd ∷ opened w)

-- The arrays while the connections are opened: `vs` to the first server, `us` to the second.
pub record IsOpening (vs us : List ℕ) (r : Router) : Type 0 where
  pub tcp : Holds r.tcp_to_unix (λ _. none)
  pub unix : Holds r.unix_to_tcp (λ _. none)
  pub mark_places : length r.connection_1_fds ≡ 1000
  pub marks :
      (u : ℕ)
      → u < 1000
      → get_elem? r.connection_1_fds u ≡ some (if count u vs == 0 then minus_one else pos 1)
  pub queue_1 : HoldsQueue r.available_1 vs (length vs)
  pub queue_2 : HoldsQueue r.available_2 us (length us)
  pub turns : r.round_robin_counter ≡ pos 0

add_free-give_back :
    (a : Available) (u n : ℕ)
    → a.end_idx ≡ pos n
    → n % 1000 ≡ n
    → add_free u a ≡ give_back a (pos u)
unfolding give_back
add_free-give_back a u n ends place = rw (ends, place) refl

-- A connection is added at the end of the queue.
pub add_free-HoldsQueue :
    (a : Available) (vs : List ℕ) (u : ℕ)
    → HoldsQueue a vs (length vs)
    → length vs < 1000
    → (a' : Available) × (add_free u a ≡ some a')
      × HoldsQueue a' (vs ++ (u ∷ [])) (length (vs ++ (u ∷ [])))
add_free-HoldsQueue a vs u q room =
    let at_end : q.start + length vs ≡ length vs = omega (arith, q.within) in
    let place : (q.start + length vs) % 1000 ≡ q.start + length vs = omega (arith, q.within) in
    let (a', back, q1, left) =
      give_back-window a (pos u) q.start (length vs) q.queue room (omega (arith, q.within)) in
    let longer : length vs + 1 ≡ length (vs ++ (u ∷ [])) =
      omega (arith, length-append vs (u ∷ [])) in
    (
      a',
      add_free-give_back a u (q.start + length vs) q.queue.ends place ∙ back,
      record {
        start = q.start;
        queue = subst (IsQueue a' q.start) longer q1;
        content =
            ap (window a'.connections q.start) (sym longer)
            ∙ left
            ∙ ap (λ s. s ++ (pos u ∷ [])) q.content
            ∙ entries-append vs u;
        within = omega (arith, q.within, longer);
      },
    )

-- The mark of a connection to the first server.
abbrev pub marked : Bool → ℕ → Router → Router
marked true fd r = record r { connection_1_fds = set r.connection_1_fds fd (pos 1) }
marked false fd r = r

abbrev path_of : Bool → Bytes
path_of b = if b then k_socket_path_1 else k_socket_path_2

pub pairs_up : {A B : Type 0} {q : A × B} {a : A} {b : B} → q.0 ≡ a → q.1 ≡ b → q ≡ (a, b)
pairs_up {q = (x, y)} e f = ap₂ (λ u v. (u, v)) e f

socket_runs :
    {W : Type 0} (os : Os W) (b : Bool) (s : State W) (fd : ℕ) (w1 w2 : W)
    → ◌≡◌ {A = Option ℕ × W} (os.socket af_unix s.world) (some fd, w1)
    → ◌≡◌ {A = Bool × W} (os.connect fd (path_of b) w1) (true, w2)
    → write_at s.router.connection_1_fds fd (pos 1)
      ≡ some (set s.router.connection_1_fds fd (pos 1))
    → create_unix_socket_connection os b s
      ≡ some (fd, record { router = marked b fd s.router; world = w2 })
unfolding create_unix_socket_connection
socket_runs os true s fd w1 w2 makes connects marks =
    rw (makes, create_unix_socket_connection, connects)
      (>>=-some
        (change os (λ r.
          Prelude.◌>>=◌ (write_at r.connection_1_fds fd (pos 1))
            λ ms. some (record r { connection_1_fds = ms })))
        _ {w = record { router = s.router; world = w2 }} (rw marks refl))
socket_runs os false s fd w1 w2 makes connects marks =
    rw (makes, create_unix_socket_connection, connects) refl

create_runs :
    {W : Type 0} (os : Os W) (epoll_fd : ℕ) (b : Bool) (s s2 : State W) (fd flags : ℕ)
    (w3 w4 w5 : W)
    → create_unix_socket_connection os b s ≡ some (fd, s2)
    → ◌≡◌ {A = Option ℕ × W} (os.get_flags fd s2.world) (some flags, w3)
    → ◌≡◌ {A = Bool × W} (os.set_flags fd (bit_or flags o_nonblock) w3) (true, w4)
    → ◌≡◌ {A = Bool × W} (os.epoll_ctl epoll_fd epoll_ctl_add fd one_shot w4) (true, w5)
    → create_unix_connection_and_add_to_epoll os epoll_fd b s
      ≡ some (fd, record { router = s2.router; world = w5 })
unfolding create_unix_connection_and_add_to_epoll make_socket_non_blocking
create_runs os epoll_fd b s s2 fd flags w3 w4 w5 makes reads sets adds =
    >>=-some (create_unix_socket_connection os b) _ makes
    ∙ rw (reads, make_socket_non_blocking, sets, adds) refl

module _ {W : Type 0} (os : Os W) (grants : Grants os) where
  open grants use {opened}

  pub create-marked :
      (epoll_fd : ℕ) (b : Bool) (s : State W)
      → length s.router.connection_1_fds ≡ 1000
      → length (opened s.world) < 1000
      → (fd : ℕ) × (w' : W) × (create_unix_connection_and_add_to_epoll os epoll_fd b s
          ≡ some (fd, record { router = marked b fd s.router; world = w' }))
        × (count fd (opened s.world) ≡ 0)
        × (fd < 1000)
        × (opened w' ≡ fd ∷ opened s.world)
  create-marked epoll_fd b s places room =
      let (fd, makes, fresh, low, grown) = grants.on_socket af_unix s.world in
      let w1 = (os.socket af_unix s.world).1 in
      let (connects, same2) = grants.on_connect fd (path_of b) w1 in
      let w2 = (os.connect fd (path_of b) w1).1 in
      let (flags, reads, same3) = grants.on_get_flags fd w2 in
      let w3 = (os.get_flags fd w2).1 in
      let (sets, same4) = grants.on_set_flags fd (bit_or flags o_nonblock) w3 in
      let w4 = (os.set_flags fd (bit_or flags o_nonblock) w3).1 in
      let (adds, same5) = grants.on_epoll_ctl epoll_fd epoll_ctl_add fd one_shot w4 in
      let inside : fd < 1000 = omega (arith, low, room) in
      (
        fd,
        (os.epoll_ctl epoll_fd epoll_ctl_add fd one_shot w4).1,
        create_runs os epoll_fd b s (record { router = marked b fd s.router; world = w2 }) fd flags
            w3 w4 _
            (socket_runs os b s fd w1 w2 (pairs_up makes refl) (pairs_up connects refl)
              (write_at-lt s.router.connection_1_fds fd (pos 1) (omega (arith, inside, places))))
            (pairs_up reads refl) (pairs_up sets refl) (pairs_up adds refl),
        fresh,
        inside,
        same5 ∙ same4 ∙ same3 ∙ same2 ∙ grown,
      )
