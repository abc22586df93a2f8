-- ===== src/Router/Messages.antt =====
-- `HandleMessage` of the router on what waits at its source.
use rinha.Prelude.{
  ℕ, zero, suc, ◌+◌, ◌-◌, ◌≤◌, ◌<◌, ◌≡◌, refl, ap, sym, ◌∙◌, ◌⊎◌, inl, inr, Bool, true, false, none,
  some, [], ◌∷◌, ◌++◌, Bytes, append_assoc, append-nil, length, length-append, arith, ◌==◌, ne→==,
}
use rinha.Prelude.Stateful.{Action, ◌>>=◌, ◌>>◌}
use rinha.Os.{Os, Source, epoll_ctl_mod, one_shot}
use rinha.Router.{k_buffer_size}
use rinha.Router.Loop.{State, read_loop, forward, handle_message, check, erase}

module _ {W : Type 0} (os : Os W) (src : ℕ) (source : Source os src) where
  open source use {waiting}

  -- What the loop has made of a buffer: the bytes that it has added were the first that waited.
  pub Got : Bytes → W → Bytes → Bool → W → Type 0
  Got buf w buf' closed w' =
      (got : Bytes) × (buf' ≡ buf ++ got)
      × (waiting w ≡ got ++ waiting w')
      × (length buf' ≤ k_buffer_size)
      × ((length buf' ≡ k_buffer_size) × (closed ≡ true) ⊎ (length (waiting w') ≡ 0))

  Got-step :
      (buf s buf' : Bytes) (w w1 w' : W) (closed : Bool)
      → waiting w ≡ s ++ waiting w1
      → Got (buf ++ s) w1 buf' closed w'
      → Got buf w buf' closed w'
  unfolding Got
  Got-step buf s buf' w w1 w' closed split (got, more, left, few, end) = (
    s ++ got,
    more ∙ append_assoc buf s got,
    split ∙ ap (◌++◌ s) left ∙ sym (append_assoc s got (waiting w')),
    few,
    end,
  )

  Got-nothing :
      (buf : Bytes) (w w' : W) (closed : Bool)
      → waiting w ≡ waiting w'
      → length buf ≤ k_buffer_size
      → (length buf ≡ k_buffer_size) × (closed ≡ true) ⊎ (length (waiting w') ≡ 0)
      → Got buf w buf closed w'
  unfolding Got
  Got-nothing buf w w' closed same few end = ([], sym (append-nil buf), same, few, end)

  full_or_left :
      (buf : Bytes) (w w' : W)
      → waiting w ≡ [] ++ waiting w'
      → length buf ≤ k_buffer_size
      → (1 ≤ 0) ⊎ (k_buffer_size - length buf ≡ 0) ⊎ (length (waiting w) ≡ 0)
      → (length buf ≡ k_buffer_size) × (true ≡ true) ⊎ (length (waiting w') ≡ 0)
  full_or_left buf w w' same few (inl more) = absurd (omega arith)
  full_or_left buf w w' same few (inr (inl full)) = inl (omega arith, refl)
  full_or_left buf w w' same few (inr (inr empty)) = inr (ap length (sym same) ∙ empty)

  -- The loop ends, and reads what waits, in order, until nothing is left or the buffer is full.
  pub read_loop-Got :
      (fuel : ℕ) (buf : Bytes) (w : W)
      → length buf ≤ k_buffer_size
      → k_buffer_size + 1 ≤ length buf + fuel
      → (buf' : Bytes) × (closed : Bool) × (w' : W) × (read_loop os fuel src buf w
          ≡ some ((buf', closed), w'))
        × Got buf w buf' closed w'
  unfolding read_loop
  read_loop-Got zero buf w few enough = absurd (omega arith)
  read_loop-Got (suc fuel) buf w few enough = elim (source.on_read (k_buffer_size - length buf) w) [
    | inl ([], e, split, short, why) ↦ (
      buf,
      true,
      _,
      rw (e, read_loop) refl,
      Got-nothing buf w _ true split few (full_or_left buf w _ split few why),
    )
    | inl (b ∷ s, e, split, short, why) ↦
        let (buf', closed, w', runs, got) =
          read_loop-Got fuel (buf ++ (b ∷ s)) (os.read src (k_buffer_size - length buf) w).1
            (omega (arith, length-append buf (b ∷ s))) (omega (arith, length-append buf (b ∷ s))) in
        (
          buf',
          closed,
          w',
          rw (e, read_loop) runs,
          Got-step buf (b ∷ s) buf' w _ w' closed split got,
        )
    | inr (e, same, none_left) ↦ (
      buf,
      false,
      _,
      rw (e, read_loop) refl,
      Got-nothing buf w _ false same few (inr (ap length (sym same) ∙ none_left)),
    )
  ]

  -- Where `read` fails with nothing but `EAGAIN`, 4097 rounds are enough from an empty buffer, however
  -- it cuts the bytes: the loop ends with the first bytes that waited, in order, and stops short of
  -- the last only where they fill the buffer.
  pub read_loop-waiting :
      (w : W)
      → (buf : Bytes) × (closed : Bool) × (w' : W) × (read_loop os (k_buffer_size + 1) src [] w
          ≡ some ((buf, closed), w'))
        × (waiting w ≡ buf ++ waiting w')
        × (length buf ≤ k_buffer_size)
        × ((length buf ≡ k_buffer_size) × (closed ≡ true) ⊎ (length (waiting w') ≡ 0))
  unfolding Got
  read_loop-waiting w =
      let (buf, closed, w', runs, (got, more, left, few, end)) =
        read_loop-Got (k_buffer_size + 1) [] w (omega arith) (omega arith) in
      (buf, closed, w', runs, left ∙ ap (λ s. s ++ waiting w') (sym more), few, end)

  check-stops :
      (b : Bool) (k : Action (State W) (Unit {0})) (s : State W)
      → (check os b >>= λ _. check os false >> k) s ≡ none
  check-stops true k s = refl
  check-stops false k s = refl

  stops_after :
      (dst epoll_fd : ℕ) (buf : Bytes) (s : State W) (w' : W)
      → read_loop os (k_buffer_size + 1) src [] s.world ≡ some ((buf, true), w')
      → (length buf == 0) ≡ false
      → handle_message os (k_buffer_size + 1) src dst epoll_fd s ≡ none
  unfolding handle_message forward
  stops_after dst epoll_fd buf s w' runs more =
      rw (runs, more)
        (check-stops (os.epoll_ctl epoll_fd epoll_ctl_mod src one_shot (os.write dst buf w').1).0
          (erase os src)
          (record s {
            world = (os.epoll_ctl epoll_fd epoll_ctl_mod src one_shot (os.write dst buf w').1).1;
          }))

  -- Where `read` fails with nothing but `EAGAIN`, and more bytes wait than the buffer has: the loop ends with a
  -- full buffer and the end of the stream, which a `read` of no byte has told it, although bytes still wait, and the
  -- `CHECK` for that end stops the process.
  pub handle_message-overflow :
      (dst epoll_fd : ℕ) (s : State W)
      → k_buffer_size < length (waiting s.world)
      → (buf : Bytes) × (w' : W) × (read_loop os (k_buffer_size + 1) src [] s.world
          ≡ some ((buf, true), w'))
        × (waiting s.world ≡ buf ++ waiting w')
        × (length buf ≡ k_buffer_size)
        × (1 ≤ length (waiting w'))
        × (handle_message os (k_buffer_size + 1) src dst epoll_fd s ≡ none)
  handle_message-overflow dst epoll_fd s long =
      let (buf, closed, w', runs, left, few, end) = read_loop-waiting s.world in
      let size : length (waiting s.world) ≡ length buf + length (waiting w') =
        ap length left ∙ length-append buf (waiting w') in
      elim end [
        | inl (full, at_end) ↦
            let ended = runs ∙ ap (λ b. some ((buf, b), w')) at_end in
            (
              buf,
              w',
              ended,
              left,
              full,
              omega (arith, size, full),
              stops_after dst epoll_fd buf s w' ended
                  (ne→== (length buf) 0 (λ e. absurd (omega arith))),
            )
        | inr none_left ↦ absurd (omega arith)
      ]
