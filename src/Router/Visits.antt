-- ===== src/Router/Visits.antt =====
-- Clients that go, through the event loop of the router.
use rinha.Prelude.{
  ℕ, suc, ◌+◌, ◌^◌, ◌<◌, ◌≡◌, refl, ◌∙◌, pos, Bool, false, Option, some, List, [], length, ◌==◌,
}
use rinha.Prelude.Stateful.{Action, modify, ◌>>=◌, >>=-some}
use rinha.Os.{Os, bytes, is_bad_event}
use rinha.Router.{Router, k_buffer_size, erase_from_maps}
use rinha.Router.Loop.{State, call, change, erase, read_loop, forward, handle_message, handle_event}
use rinha.Router.Proxy.{Proxy, leaves, Move, depart, IsProxy}
use rinha.Router.Moves.{Move-IsProxy}
use rinha.Router.Represents.{Represents}
use rinha.Router.Simulates.{AreConnections, on_event, on_event-Represents}
use rinha.Router.Runs.{Represents-destination}
use rinha.Router.Serving.{handle_event-message}

module _ {W : Type 0} (os : Os W) where
  pub change-some :
      (f : Router → Option Router) (g : Unit {0} → Action (State W) (Unit {0})) (s : State W)
      (r : Router)
      → f s.router ≡ some r
      → (change os f >>= g) s ≡ g tt (record s { router = r })
  change-some f g s r e =
      >>=-some (change os f) g {a = tt} {w = s} {w' = record s { router = r }} (rw e refl)

  erase-some :
      (fd : ℕ) (s : State W) (r : Router)
      → erase_from_maps (pos fd) s.router ≡ some r
      → erase os fd s ≡ some (tt, record { router = r; world = os.close fd s.world })
  unfolding erase
  erase-some fd s r e =
      change-some (erase_from_maps (pos fd)) (λ _. call os (modify (os.close fd))) s r e

  -- The end of the stream with no byte before it.
  handle_message-ended :
      (fuel src dst epoll_fd : ℕ) (s : State W)
      → (os.read src k_buffer_size s.world).0 ≡ bytes []
      → handle_message os (suc fuel) src dst epoll_fd s
        ≡ erase os src (record s { world = (os.read src k_buffer_size s.world).1 })
  unfolding handle_message read_loop forward
  handle_message-ended fuel src dst epoll_fd s e = rw e refl

module _ (us : List ℕ) (first : ℕ → Bool) (conns : AreConnections us) {W : Type 0} (os : Os W) where
  -- Where the arrays hold a state of the view, in which every connection stands in one place, and the counters fit
  -- an `int`: an event of a client whose stream is at its end, with no byte before it, makes the client depart, as
  -- in the view: its connection is free again, behind the others of its server, and its descriptor is closed.
  pub handle_event-leaves :
      (t : ℕ) {p p' : Proxy} (k fuel epoll_fd server_fd events : ℕ) (s : State W)
      → Move us first p (leaves t) p'
      → IsProxy us first p
      → Represents us first p k s.router
      → length us + k + 2 < 2 ^ 31
      → (os.read t k_buffer_size s.world).0 ≡ bytes []
      → is_bad_event (record { events = events; fd = t }) ≡ false
      → (server_fd == t) ≡ false
      → (r : Router) × (handle_event os
            (suc fuel)
            epoll_fd
            server_fd
            (record { events = events; fd = t })
            s
          ≡ some
              (tt, record { router = r; world = os.close t (os.read t k_buffer_size s.world).1 }))
        × Represents us first p' (k + 1) r
        × IsProxy us first p'
  unfolding on_event
  handle_event-leaves _ k fuel epoll_fd server_fd events s (depart p t u small has) v h early ended
        fine client =
      let gone : Move us first p (leaves t) _ = depart p t u small has in
      let (there, back) = Represents-destination us first conns p k s.router t u v h small has in
      let (r, does, h') = on_event-Represents us first conns k s.router gone v h early in
      (
        r,
        handle_event-message os (suc fuel) t u epoll_fd server_fd events s fine client there
            ∙ handle_message-ended os fuel t u epoll_fd s ended
            ∙ erase-some os t (record s { world = (os.read t k_buffer_size s.world).1 }) r does,
        h',
        Move-IsProxy us first gone v,
      )
