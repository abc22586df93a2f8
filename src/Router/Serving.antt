-- ===== src/Router/Serving.antt =====
-- The messages between the clients and their connections, through the event loop of the router.
use rinha.Prelude.{
  ℕ, zero, suc, ◌+◌, ◌-◌, ◌≤◌, ◌<◌, ◌≡◌, refl, ap, sym, ◌∙◌, ◌⊎◌, inl, inr, pos, pos_part, Bool,
  true, false, some, List, [], ◌∷◌, ◌++◌, Bytes, append_assoc, append-nil, length, length-append,
  arith, ◌==◌, ne→==,
}
use rinha.Prelude.Stateful.{pure, lift, ◌>>=◌, >>=-some}
use rinha.Os.{Os, Source, Received, epoll_ctl_mod, one_shot, is_bad_event}
use rinha.Router.{k_buffer_size, destination}
use rinha.Router.Loop.{State, read_loop, forward, handle_message, handle_event, check}
use rinha.Router.Proxy.{Proxy, IsProxy, partner}
use rinha.Router.Represents.{Represents}
use rinha.Router.Simulates.{AreConnections}
use rinha.Router.Runs.{Represents-destination}

length-none : {s : Bytes} → length s ≡ 0 → s ≡ []
length-none {s = []} e = refl
length-none {s = b ∷ s} e = absurd (omega (arith, e))

module _ {W : Type 0} (os : Os W) (src : ℕ) (source : Source os src) where
  open source use {waiting}

  -- While the other side is open, a `read` of some bytes fails with `EAGAIN` where none waits.
  abbrev pub StaysOpen : Type 0
  StaysOpen =
      (n : ℕ) (w : W) → 1 ≤ n → length (waiting w) ≡ 0 → (os.read src n w).0 ≡ Received.error true

  -- The loop reads a message that leaves room in the buffer to its end.
  read_loop-open :
      (fuel : ℕ) (buf : Bytes) (w : W)
      → StaysOpen
      → length buf + length (waiting w) < k_buffer_size
      → length (waiting w) < fuel
      → (w' : W) × (read_loop os fuel src buf w ≡ some ((buf ++ waiting w, false), w'))
        × (waiting w' ≡ [])
  unfolding read_loop
  read_loop-open zero buf w stays room enough = absurd (omega arith)
  read_loop-open (suc fuel) buf w stays room enough =
      elim (source.on_read (k_buffer_size - length buf) w) [
        | inl ([], e, split, short, inl more) ↦ absurd (omega (arith, more))
        | inl ([], e, split, short, inr (inl full)) ↦ absurd (omega (arith, full))
        | inl ([], e, split, short, inr (inr empty)) ↦
            let at_end = stays (k_buffer_size - length buf) w (omega arith) empty in cc
        | inl (b ∷ s, e, split, short, why) ↦
            let w1 = (os.read src (k_buffer_size - length buf) w).1 in
            let size : length (waiting w) ≡ length (b ∷ s) + length (waiting w1) =
              ap length split ∙ length-append (b ∷ s) (waiting w1) in
            let (w', runs, empty) =
              read_loop-open fuel (buf ++ (b ∷ s)) w1 stays
                (omega (arith, size, length-append buf (b ∷ s))) (omega (arith, size)) in
            (w', rw (e, runs, split, append_assoc buf (b ∷ s) (waiting w1)), empty)
        | inr (e, same, none_left) ↦
            (_, rw (e, length-none none_left, append-nil buf), sym same ∙ length-none none_left)
      ]

  abbrev pub Arms : Type 0
  Arms = (epoll_fd : ℕ) (w : W) → (os.epoll_ctl epoll_fd epoll_ctl_mod src one_shot w).0 ≡ true

  -- The world behind a message that goes on in one `write`, with its source armed again.
  abbrev pub passed_on : ℕ → ℕ → Bytes → W → W
  passed_on dst epoll_fd message w =
      (os.epoll_ctl epoll_fd epoll_ctl_mod src one_shot (os.write dst message w).1).1

  check-passes :
      (b : Bool) (s : State W) → b ≡ true → (check os b >>= λ _. pure tt) s ≡ some (tt, s)
  check-passes b s e = rw e refl

  passes_on :
      (dst epoll_fd : ℕ) (message : Bytes) (s : State W) (w' : W)
      → Arms
      → read_loop os (k_buffer_size + 1) src [] s.world ≡ some ((message, false), w')
      → (length message == 0) ≡ false
      → handle_message os (k_buffer_size + 1) src dst epoll_fd s
        ≡ some (tt, record s { world = passed_on dst epoll_fd message w' })
  unfolding handle_message forward
  passes_on dst epoll_fd message s w' arms runs more =
      rw (runs, more)
        (check-passes
          (os.epoll_ctl epoll_fd epoll_ctl_mod src one_shot (os.write dst message w').1).0
          (record s { world = passed_on dst epoll_fd message w' })
          (arms epoll_fd (os.write dst message w').1))

  handle_message-open :
      (dst epoll_fd : ℕ) (s : State W)
      → StaysOpen
      → Arms
      → 1 ≤ length (waiting s.world)
      → length (waiting s.world) < k_buffer_size
      → (w' : W) × (handle_message os (k_buffer_size + 1) src dst epoll_fd s
          ≡ some (tt, record s { world = passed_on dst epoll_fd (waiting s.world) w' }))
        × (waiting w' ≡ [])
  handle_message-open dst epoll_fd s stays arms some_wait short =
      let (w', runs, empty) =
        read_loop-open (k_buffer_size + 1) [] s.world stays (omega (arith, short)) (omega arith) in
      let more : (length (waiting s.world) == 0) ≡ false =
        ne→== (length (waiting s.world)) 0 (λ e. absurd (omega arith)) in
      (w', passes_on dst epoll_fd (waiting s.world) s w' arms runs more, empty)

-- An event of a client or a connection is a message to its destination.
pub handle_event-message :
    {W : Type 0} (os : Os W) (fuel src dst epoll_fd server_fd events : ℕ) (s : State W)
    → is_bad_event (record { events = events; fd = src }) ≡ false
    → (server_fd == src) ≡ false
    → destination (pos src) s.router ≡ some (pos dst)
    → handle_event os fuel epoll_fd server_fd (record { events = events; fd = src }) s
      ≡ handle_message os fuel src dst epoll_fd s
unfolding handle_event
handle_event-message os fuel src dst epoll_fd server_fd events s fine client way =
    rw (fine, client)
      (>>=-some (λ s'. lift (destination (pos src) s'.router) s')
        (λ fd. handle_message os fuel src (pos_part fd) epoll_fd) {a = pos dst} {w = s} {w' = s}
        (rw way refl))

module _ (us : List ℕ) (first : ℕ → Bool) (conns : AreConnections us) {W : Type 0} (os : Os W) where
  -- Where the arrays hold a state of the view, in which every connection stands in one place, `read` does
  -- what it is documented to, the source stays open and `epoll_ctl` succeeds: a message of less than 4096 bytes that waits at a client
  -- goes on in one `write` of all its bytes to the connection of the client, and one that waits at a
  -- connection to its client. Nothing of it is left waiting, its source is armed again, and the arrays
  -- are as they were.
  pub handle_event-passed_on :
      (p : Proxy) (k t u src dst epoll_fd server_fd events : ℕ) (s : State W)
      (source : Source os src)
      → IsProxy us first p
      → Represents us first p k s.router
      → t < 1000
      → partner p.pairs t ≡ some u
      → (src ≡ t) × (dst ≡ u) ⊎ (src ≡ u) × (dst ≡ t)
      → StaysOpen os src source
      → Arms os src source
      → is_bad_event (record { events = events; fd = src }) ≡ false
      → (server_fd == src) ≡ false
      → 1 ≤ length (source.waiting s.world)
      → length (source.waiting s.world) < k_buffer_size
      → (w' : W) × (handle_event os
            (k_buffer_size + 1)
            epoll_fd
            server_fd
            (record { events = events; fd = src })
            s
          ≡ some (
            tt,
            record s { world = passed_on os src source dst epoll_fd (source.waiting s.world) w' },
          ))
        × (source.waiting w' ≡ [])
  handle_event-passed_on p k t u src dst epoll_fd server_fd events s source v h small has ends stays
        arms fine client some_wait short =
      let (there, back) = Represents-destination us first conns p k s.router t u v h small has in
      let way : destination (pos src) s.router ≡ some (pos dst) = elim ends [
        | inl (from, to) ↦ rw (from, to) there
        | inr (from, to) ↦ rw (from, to) back
      ] in
      let (w', does, empty) =
        handle_message-open os src source dst epoll_fd s stays arms some_wait short in
      (
        w',
        handle_event-message os (k_buffer_size + 1) src dst epoll_fd server_fd events s fine client
              way
            ∙ does,
        empty,
      )
