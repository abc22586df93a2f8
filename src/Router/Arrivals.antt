-- ===== src/Router/Arrivals.antt =====
-- Clients that come, through the event loop of the router.
use rinha.Prelude.{
  ℕ, zero, suc, ◌+◌, ◌^◌, ◌<◌, ◌≡◌, refl, ap, sym, subst, ◌∙◌, ◌⊎◌, inl, inr, pos, Bool, true,
  false, some, List, [], ◌∷◌, length, arith, eq→==,
}
use Prim.Native.Nat.{bit_or}
use rinha.Prelude.Stateful.{effect, ◌>>=◌, >>=-some}
use rinha.Os.{
  Os, Accepted, connection, epoll_ctl_add, one_shot, o_nonblock, is_bad_event,
  make_socket_non_blocking,
}
use rinha.Router.{Router, assign}
use rinha.Router.Loop.{State, call, check, handle_connection, accept_loop, handle_event}
use rinha.Router.Proxy.{Proxy, arrives, leaves, Move, depart, IsProxy}
use rinha.Router.Proxy
use rinha.Router.Moves.{Move-IsProxy}
use rinha.Router.Represents.{Represents}
use rinha.Router.Simulates.{AreConnections, on_event, on_event-Represents}
use rinha.Router.Runs.{Moves, rests, moves}
use rinha.Router.Opening.{pairs_up}
use rinha.Router.Visits.{change-some}

-- What the program relies on: the calls for a new client succeed, and `accept` gives the clients that wait in
-- their order, then `EAGAIN`.
pub record Backlog {W : Type 0} (os : Os W) (epoll_fd server_fd : ℕ) : Type 0 where
  pub pending : W → List ℕ
  pub on_accept :
      (w : W)
      → ((t : ℕ) × ((os.accept server_fd w).0 ≡ connection t)
          × (pending w ≡ t ∷ pending (os.accept server_fd w).1))
        ⊎ ((os.accept server_fd w).0 ≡ Accepted.error true)
          × (pending w ≡ [])
          × (pending (os.accept server_fd w).1 ≡ [])
  pub on_get_flags :
      (fd : ℕ) (w : W)
      → (flags : ℕ) × ((os.get_flags fd w).0 ≡ some flags)
        × (pending (os.get_flags fd w).1 ≡ pending w)
  pub on_set_flags :
      (fd flags : ℕ) (w : W)
      → ((os.set_flags fd flags w).0 ≡ true) × (pending (os.set_flags fd flags w).1 ≡ pending w)
  pub on_epoll_ctl :
      (fd : ℕ) (w : W)
      → ((os.epoll_ctl epoll_fd epoll_ctl_add fd one_shot w).0 ≡ true)
        × (pending (os.epoll_ctl epoll_fd epoll_ctl_add fd one_shot w).1 ≡ pending w)

-- The events of clients that come one behind the other.
abbrev pub arrivals : List ℕ → List Proxy.Event
arrivals [] = []
arrivals (t ∷ ts) = arrives t ∷ arrivals ts

module _ {W : Type 0} (os : Os W) (epoll_fd server_fd : ℕ)
    (backlog : Backlog os epoll_fd server_fd) where
  open backlog use {pending}

  connects :
      (t flags : ℕ) (s : State W) (r : Router) (w1 w2 w3 : W)
      → os.get_flags t s.world ≡ (some flags, w1)
      → os.set_flags t (bit_or flags o_nonblock) w1 ≡ (true, w2)
      → assign (pos t) s.router ≡ some r
      → os.epoll_ctl epoll_fd epoll_ctl_add t one_shot w2 ≡ (true, w3)
      → handle_connection os epoll_fd t s ≡ some (tt, record { router = r; world = w3 })
  unfolding handle_connection make_socket_non_blocking
  connects t flags s r w1 w2 w3 reads sets joins adds =
      rw (reads, sets)
        (change-some os (assign (pos t))
            (λ _. call os (effect (os.epoll_ctl epoll_fd epoll_ctl_add t one_shot)) >>= check os)
            (record s { world = w2 }) r joins
          ∙ rw adds refl)

  handle_connection-some :
      (t : ℕ) (s : State W) (r : Router)
      → assign (pos t) s.router ≡ some r
      → (w' : W) × (handle_connection os epoll_fd t s
          ≡ some (tt, record { router = r; world = w' }))
        × (pending w' ≡ pending s.world)
  handle_connection-some t s r joins =
      let (flags, reads, same_1) = backlog.on_get_flags t s.world in
      let w1 = (os.get_flags t s.world).1 in
      let (sets, same_2) = backlog.on_set_flags t (bit_or flags o_nonblock) w1 in
      let w2 = (os.set_flags t (bit_or flags o_nonblock) w1).1 in
      let (adds, same_3) = backlog.on_epoll_ctl t w2 in
      (
        _,
        connects t flags s r w1 w2 _ (pairs_up reads refl) (pairs_up sets refl) joins
            (pairs_up adds refl),
        same_3 ∙ same_2 ∙ same_1,
      )

  accept_ends :
      (fuel : ℕ) (s : State W)
      → (os.accept server_fd s.world).0 ≡ Accepted.error true
      → accept_loop os (suc fuel) epoll_fd server_fd s
        ≡ some (tt, record s { world = (os.accept server_fd s.world).1 })
  unfolding accept_loop
  accept_ends fuel s e = rw e refl

  accept_one :
      (t fuel : ℕ) (s s2 : State W)
      → (os.accept server_fd s.world).0 ≡ connection t
      → handle_connection os epoll_fd t (record s { world = (os.accept server_fd s.world).1 })
        ≡ some (tt, s2)
      → accept_loop os (suc fuel) epoll_fd server_fd s ≡ accept_loop os fuel epoll_fd server_fd s2
  unfolding accept_loop
  accept_one t fuel s s2 e joins = rw e (
      >>=-some (handle_connection os epoll_fd t) (λ _. accept_loop os fuel epoll_fd server_fd)
        {a = tt} {w = record s { world = (os.accept server_fd s.world).1 }} {w' = s2} joins)

  module _ (us : List ℕ) (first : ℕ → Bool) (conns : AreConnections us) where
    accept_loop-arrivals :
        (ts : List ℕ) {p p' : Proxy} (fuel k : ℕ) (s : State W)
        → Moves us first p (arrivals ts) p'
        → pending s.world ≡ ts
        → IsProxy us first p
        → Represents us first p k s.router
        → length us + (k + length ts) + 1 < 2 ^ 31
        → length ts < fuel
        → (s' : State W) × (accept_loop os fuel epoll_fd server_fd s ≡ some (tt, s'))
          × (pending s'.world ≡ [])
          × Represents us first p' (k + length ts) s'.router
          × IsProxy us first p'
    unfolding on_event
    accept_loop-arrivals ts zero k s steps wait v h early enough = absurd (omega arith)
    accept_loop-arrivals [] {p} (suc fuel) k s (rests _) wait v h early enough =
        elim (backlog.on_accept s.world) [
          | inl (t, e, front) ↦ absurd (omega (arith, ap length (sym front ∙ wait)))
          | inr (e, none_left, still) ↦
              let same : k ≡ k + length {A = ℕ} [] = omega arith in
              (
                record s { world = (os.accept server_fd s.world).1 },
                accept_ends fuel s e,
                still,
                subst (λ n. Represents us first p n s.router) same h,
                v,
              )
        ]
    accept_loop-arrivals (t ∷ ts) {p' = p'} (suc fuel) k s (moves first_one others) wait v h early
          enough =
        elim (backlog.on_accept s.world) [
          | inl (t', e, front) ↦
              let alike : t' ∷ pending (os.accept server_fd s.world).1 ≡ t ∷ ts =
                sym front ∙ wait in
              let same : t' ≡ t = cc in
              let rest : pending (os.accept server_fd s.world).1 ≡ ts = cc in
              let s1 : State W = record s { world = (os.accept server_fd s.world).1 } in
              let (r, joins, h1) =
                on_event-Represents us first conns k s.router first_one v h
                  (omega (arith, early)) in
              let (w', connected, kept) = handle_connection-some t s1 r joins in
              let (s', runs, empty, h', v') =
                accept_loop-arrivals ts fuel (k + 1) (record { router = r; world = w' }) others
                  (kept ∙ rest) (Move-IsProxy us first first_one v) h1 (omega (arith, early))
                  (omega (arith, enough)) in
              let later : k + 1 + length ts ≡ k + suc (length ts) = omega arith in
              (
                s',
                accept_one t fuel s _ (e ∙ ap connection same) connected ∙ runs,
                empty,
                subst (λ n. Represents us first p' n s'.router) later h',
                v',
              )
          | inr (e, none_left, still) ↦ absurd (omega (arith, ap length (sym none_left ∙ wait)))
        ]

    -- Where the arrays hold a state of the view, in which every connection stands in one place, and the calls
    -- for a new client succeed: an event of the listening socket connects the clients that wait, in their order,
    -- as in the view. It ends, within one round more than there are clients, with no client waiting, and every
    -- connection still stands in one place. A connection is free for each client, its descriptor is not in use and below 1000,
    -- and the counters fit an `int`.
    pub handle_event-arrivals :
        {p p' : Proxy} (fuel k events : ℕ) (s : State W)
        → Moves us first p (arrivals (pending s.world)) p'
        → IsProxy us first p
        → Represents us first p k s.router
        → length us + (k + length (pending s.world)) + 1 < 2 ^ 31
        → length (pending s.world) < fuel
        → is_bad_event (record { events = events; fd = server_fd }) ≡ false
        → (s' : State W) × (handle_event os fuel epoll_fd server_fd
              (record { events = events; fd = server_fd })
              s
            ≡ some (tt, s'))
          × (pending s'.world ≡ [])
          × Represents us first p' (k + length (pending s.world)) s'.router
          × IsProxy us first p'
    unfolding handle_event
    handle_event-arrivals fuel k events s steps v h early enough fine =
        let (s', runs, empty, h', v') =
          accept_loop-arrivals (pending s.world) fuel k s steps refl v h early enough in
        (s', rw (fine, eq→== server_fd server_fd refl) runs, empty, h', v')
