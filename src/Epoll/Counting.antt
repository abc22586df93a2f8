-- ===== src/Epoll/Counting.antt =====
-- How many tasks the bytes of a client make in the measuring server.
use rinha.Prelude.{
  ℕ, zero, suc, ◌+◌, ◌*◌, ◌≤◌, ◌<◌, ◌≡◌, refl, sym, ap, ◌∙◌, ◌⊎◌, inl, inr, Bool, true, false, some,
  [], ◌∷◌, ◌++◌, append_assoc, append-nil, Bytes, ◌==◌, if◌then◌else◌, length, length-append,
  replicate, arith,
}
use rinha.Prelude.Stateful.{pure, modify, >>=-some}
use rinha.Os.{Os, Source, Event, is_bad_event}
use rinha.ThreadPool.{Pool, enqueue_process_request}
use rinha.Epoll.{buffer_size, call, read_loop, handle_event}

length-none : {s : Bytes} → length s ≡ 0 → s ≡ []
length-none {s = []} e = refl
length-none {s = b ∷ s} e = absurd (omega (arith, e))

-- An end of the stream brings no byte only where none is waiting.
nothing_left : {s : Bytes} → (1 ≤ 0) ⊎ (buffer_size ≡ 0) ⊎ (length s ≡ 0) → s ≡ []
nothing_left (inl le) = absurd (omega (arith, le))
nothing_left (inr (inl e)) = absurd (omega (arith, e))
nothing_left (inr (inr e)) = length-none e

module _ {W : Type 0} (os : Os W) (fd : ℕ) (source : Source os fd) where
  open source use {waiting}

  -- The pool with `n` tasks more.
  abbrev pub grown : Pool ℕ W → ℕ → W → Pool ℕ W
  grown p n w = record p { tasks = p.tasks ++ replicate n fd; world = w }

  close_if :
      (done : Bool) (q : Pool ℕ W)
      → (if done then call os (modify (os.close fd)) else pure tt) q
        ≡ some (tt, record q { world = if done then os.close fd q.world else q.world })
  close_if true q = refl
  close_if false q = refl

  read_loop-grown :
      (fuel : ℕ) (p : Pool ℕ W)
      → length (waiting p.world) < fuel
      → (n : ℕ) × (done : Bool) × (w' : W) × (read_loop os fuel fd p ≡ some (done, grown p n w'))
        × (waiting w' ≡ [])
        × (n ≤ length (waiting p.world))
        × (length (waiting p.world) ≤ n * 4096)
  unfolding read_loop enqueue_process_request
  read_loop-grown zero p enough = absurd (omega arith)
  read_loop-grown (suc fuel) p enough = elim (source.on_read buffer_size p.world) [
    | inl ([], e, split, short, why) ↦
        let empty : (waiting p.world ≡ []) = nothing_left why in
        (
          0,
          true,
          (os.read fd buffer_size p.world).1,
          rw (e, append-nil p.tasks),
          sym split ∙ empty,
          omega arith,
          omega (arith, ap length empty),
        )
    | inl (b ∷ s, e, split, short, why) ↦
        let w1 = (os.read fd buffer_size p.world).1 in
        let p1 : Pool ℕ W = record p { tasks = p.tasks ++ (fd ∷ []); world = w1 } in
        let size : length (waiting p.world) ≡ length (b ∷ s) + length (waiting w1) =
          ap length split ∙ length-append (b ∷ s) (waiting w1) in
        let (n, done, w', runs, empty, most, least) =
          read_loop-grown fuel p1 (omega (arith, size)) in
        (
          suc n,
          done,
          w',
          rw (e, runs, append_assoc p.tasks (fd ∷ []) (replicate n fd)),
          empty,
          omega (arith, size, most),
          omega (arith, size, least, short),
        )
    | inr (e, same, none_left) ↦ (
      0,
      false,
      (os.read fd buffer_size p.world).1,
      rw (e, append-nil p.tasks),
      sym same ∙ length-none none_left,
      omega arith,
      omega (arith, none_left),
    )
  ]

  -- Where `read` fails with nothing but `EAGAIN`, and the fuel is one round more than bytes wait at a client: its
  -- event is handled to the end, no byte is left waiting, and the workers have more tasks, all for the client and
  -- behind the others: at least one for every 4096 bytes that waited, and at most one for every byte. The
  -- connection is then closed or stays as it is.
  pub handle_event-grown :
      (fuel epoll_fd server_fd : ℕ) (event : Event) (p : Pool ℕ W)
      → event.fd ≡ fd
      → is_bad_event event ≡ false
      → (server_fd == fd) ≡ false
      → length (waiting p.world) < fuel
      → (n : ℕ) × (done : Bool) × (w' : W) × (handle_event os fuel epoll_fd server_fd event p
          ≡ some (tt, grown p n (if done then os.close fd w' else w')))
        × (waiting w' ≡ [])
        × (n ≤ length (waiting p.world))
        × (length (waiting p.world) ≤ n * 4096)
  unfolding handle_event
  handle_event-grown fuel epoll_fd server_fd event p same fine client enough =
      let (n, done, w', runs, empty, most, least) = read_loop-grown fuel p enough in
      (
        n,
        done,
        w',
        rw (same, fine, client)
            (>>=-some (read_loop os fuel fd)
                (λ b. if b then call os (modify (os.close fd)) else pure tt) {w = p} runs
              ∙ close_if done (grown p n w')),
        empty,
        most,
        least,
      )
