-- ===== src/IoThreadPool/Buffers.antt =====
-- The buffers of a thread of the server: their number, their sizes, and the index of the next one.
use rinha.Prelude.{
  ℕ, zero, suc, ◌+◌, ◌-◌, ◌≤◌, ◌<◌, ◌≡◌, refl, ap, sym, subst, ◌∙◌, ◌⊎◌, inl, inr, Bool, true,
  false, if◌then◌else◌, ◌==◌, Option, none, some, List, [], ◌∷◌, Bytes, length, length-set,
  get_elem?, set, arith, Option-cases, >>=-eq-some,
}
use rinha.Prelude.Stateful.{Action, pure, modify, lift, effect, ◌>>=◌, >>=-some}
use rinha.Structs.{Request}
use rinha.Absl.{Absl}
use rinha.Os.{Os, Received, bytes, Event, is_bad_event}
use rinha.Time.{Clock}
use rinha.HandlerSocket.Interface.{Client, Layout}
use rinha.HandlerSocket.{Session}
use rinha.RequestHandler.{Unset}
use rinha.RequestProcessor.{Processor, process_request}
use rinha.IoThreadPool.{
  k_max_events, accept_loop, k_buffer_writtable_size, k_buffer_total_size, k_max_connections,
  overwrite, read_loop, Io, call, on_processor, process_buffer, handle_client, handle_event,
  handle_events, event_round,
}
use rinha.IoThreadPool.Reading.{length-overwrite}

-- What a `read` promises: no more bytes than it was asked for.
pub record Bounded {W : Type 0} (os : Os W) : Type 0 where
  pub on_read :
      (fd n : ℕ) (w : W)
      → ((s : Bytes) × ((os.read fd n w).0 ≡ bytes s) × (length s ≤ n))
        ⊎ ((again : Bool) × ((os.read fd n w).0 ≡ Received.error again))

-- Inversion of a call that returns.
>>=-returns :
    {W A B : Type 0} (m : Action W A) (f : A → Action W B) (w : W) {b : B} {w'' : W}
    → (m >>= f) w ≡ some (b, w'')
    → (a : A) × (w' : W) × (m w ≡ some (a, w')) × (f a w' ≡ some (b, w''))
>>=-returns m f w {b} {w''} h = elim (Option-cases (m w)) [
  | inl fails ↦ let stops : (m >>= f) w ≡ none = rw (fails, ◌>>=◌) refl in cc
  | inr ((a, w'), done) ↦ (a, w', done, sym (>>=-some m f done) ∙ h)
]

lift-returns :
    {W A : Type 0} (m : Option A) (w : W) {a : A} {w' : W}
    → lift m w ≡ some (a, w')
    → (m ≡ some a) × (w' ≡ w)
lift-returns none w h = cc
lift-returns (some x) w h = (cc, cc)

module _ {W : Type 0} (os : Os W) (bounded : Bounded os) (fd : ℕ) where
  same_text :
      {b b' : Bytes} {n n' : ℕ} {done done' : Bool} {w w' : W}
      → ◌≡◌ {A = Option ((Bytes × ℕ × Bool) × W)}
          (some ((b, n, done), w))
          (some ((b', n', done'), w'))
      → b ≡ b'
  same_text h = cc

  read_loop-length :
      (fuel at : ℕ) (buffer : Bytes) (w : W) (b : Bytes) (n : ℕ) (done : Bool) (w' : W)
      → length buffer ≡ k_buffer_total_size
      → at ≤ k_buffer_writtable_size
      → read_loop os fuel fd buffer at w ≡ some ((b, n, done), w')
      → length b ≡ k_buffer_total_size
  unfolding read_loop
  read_loop-length zero at buffer w b n done w' size few h = cc
  read_loop-length (suc fuel) at buffer w b n done w' size few h =
      elim (bounded.on_read fd (k_buffer_writtable_size - at) w) [
        | inl ([], e, short) ↦
            let runs : read_loop os (suc fuel) fd buffer at w
                ≡ some ((buffer, at, true), (os.read fd (k_buffer_writtable_size - at) w).1) =
              rw (e, read_loop) refl in
            ap length (sym (same_text (sym runs ∙ h))) ∙ size
        | inl (x ∷ s, e, short) ↦
            read_loop-length fuel (at + length (x ∷ s)) (overwrite buffer at (x ∷ s))
              (os.read fd (k_buffer_writtable_size - at) w).1 b n done w'
              (length-overwrite buffer (x ∷ s) at (omega arith) ∙ size) (omega arith)
              (let more : read_loop os (suc fuel) fd buffer at w
                    ≡ read_loop os fuel fd (overwrite buffer at (x ∷ s)) (at + length (x ∷ s))
                        (os.read fd (k_buffer_writtable_size - at) w).1 =
                  rw (e, read_loop) refl in
                sym more ∙ h)
        | inr (again, e) ↦
            let runs : read_loop os (suc fuel) fd buffer at w
                ≡ some (
                  (buffer, at, if again then false else true),
                  (os.read fd (k_buffer_writtable_size - at) w).1,
                ) =
              rw (e, read_loop) refl in
            ap length (sym (same_text (sym runs ∙ h))) ∙ size
      ]

-- Every buffer has the size of an array of the program.
abbrev pub AllSized : List Bytes → Type 0
AllSized buffers =
    (i : ℕ) (b : Bytes) → get_elem? buffers i ≡ some b → length b ≡ k_buffer_total_size

set-AllSized :
    (buffers : List Bytes) (i : ℕ) (b : Bytes)
    → length b ≡ k_buffer_total_size
    → AllSized buffers
    → AllSized (set buffers i b)
set-AllSized [] i b size all j x h = all j x h
set-AllSized (y ∷ ys) zero b size all zero x h =
    let same : b ≡ x = cc in ap length (sym same) ∙ size
set-AllSized (y ∷ ys) zero b size all (suc j) x h = all (suc j) x h
set-AllSized (y ∷ ys) (suc i) b size all zero x h = all zero x h
set-AllSized (y ∷ ys) (suc i) b size all (suc j) x h =
    set-AllSized ys i b size (λ k z e. all (suc k) z e) j x h

module _ (absl : Absl) (c : Client) (l : Layout) (clock : Clock c.World) (os : Os c.World)
    (bounded : Bounded os) where
  -- The thread has all its buffers, of their sizes, and the index is one of them.
  pub record IsSound (t : Io absl c l clock os) : Type 0 where
    pub number : length t.buffers ≡ k_max_connections
    pub sizes : AllSized t.buffers
    pub inside : t.buffer_index < k_max_connections

  abbrev pub Keeps : {A : Type 0} → Action (Io absl c l clock os) A → Type 0
  Keeps {A} m =
      (t : Io absl c l clock os) (a : A) (t' : Io absl c l clock os)
      → IsSound t
      → m t ≡ some (a, t')
      → IsSound t'

  pub >>=-Keeps :
      {A B : Type 0} (m : Action (Io absl c l clock os) A) (f : A → Action (Io absl c l clock os) B)
      → Keeps m
      → ((a : A) → Keeps (f a))
      → Keeps (m >>= f)
  >>=-Keeps m f first rest t b t' v h =
      let (a, t1, runs, goes_on) = >>=-returns m f t h in
      rest a t1 b t' (first t a t1 v runs) goes_on

  same_thread :
      {A : Type 0} {a b : A} {t t' : Io absl c l clock os}
      → ◌≡◌ {A = Option (A × Io absl c l clock os)} (some (a, t)) (some (b, t'))
      → t ≡ t'
  same_thread h = cc

  call-Keeps : {A : Type 0} (m : Action c.World A) → Keeps (call absl c l clock os m)
  call-Keeps m t a t' v h =
      let (r, runs, same) = >>=-eq-some (m t.processor.worker.shared.world) _ h in
      subst IsSound (same_thread same)
        (record { number = v.number; sizes = v.sizes; inside = v.inside })

  pub pure-Keeps : {A : Type 0} (a : A) → Keeps {A = A} (λ t. some (a, t))
  pure-Keeps a t b t' v h = subst IsSound (same_thread h) v

  if-Keeps :
      {A : Type 0} {m n : Action (Io absl c l clock os) A} (b : Bool)
      → Keeps m
      → Keeps n
      → Keeps (if b then m else n)
  if-Keeps true first second = first
  if-Keeps false first second = second

  same_result :
      {A : Type 0} {a b : A} {t t' : Io absl c l clock os}
      → ◌≡◌ {A = Option (A × Io absl c l clock os)} (some (a, t)) (some (b, t'))
      → a ≡ b
  same_result h = cc

  abbrev world_of : Io absl c l clock os → c.World
  world_of t = t.processor.worker.shared.world

  abbrev current_buffer : Action (Io absl c l clock os) Bytes
  current_buffer t = lift (get_elem? t.buffers t.buffer_index) t

  on_processor-Keeps :
      {A : Type 0} (m : Action (Processor absl c l clock os) A)
      → Keeps (on_processor absl c l clock os m)
  on_processor-Keeps m t a t' v h =
      let (r, runs, same) = >>=-eq-some (m t.processor) _ h in
      subst IsSound (same_thread same)
        (record { number = v.number; sizes = v.sizes; inside = v.inside })

  process_buffer-Keeps :
      (fuel rows : ℕ) (s : Session c) (unset : Unset) (fresh : Request) (fd : ℕ) (buffer : Bytes)
      (count : ℕ)
      → length buffer ≡ k_buffer_total_size
      → Keeps (process_buffer absl c l clock os fuel rows s unset fresh fd buffer count)
  unfolding process_buffer
  process_buffer-Keeps fuel rows s unset fresh fd buffer count size =
      >>=-Keeps
        (on_processor absl c l clock os
          (process_request absl c l clock os fuel rows s unset fresh buffer count fd))
        _ (on_processor-Keeps _)
        (λ left t a t' v h. subst IsSound (same_thread h) (record {
          number = length-set t.buffers t.buffer_index (set buffer count 0) ∙ v.number;
          sizes =
              set-AllSized t.buffers t.buffer_index (set buffer count 0)
                (length-set buffer count 0 ∙ size) v.sizes;
          inside = omega arith;
        }))

  handle_client-Keeps :
      (fuel rows : ℕ) (s : Session c) (unset : Unset) (fresh : Request) (fd : ℕ)
      → Keeps (handle_client absl c l clock os fuel rows s unset fresh fd)
  unfolding handle_client
  handle_client-Keeps fuel rows s unset fresh fd t a t' v h =
      let (buffer, t1, gets, reading) = >>=-returns current_buffer _ t h in
      let (found, same) = lift-returns (get_elem? t.buffers t.buffer_index) t gets in
      let v1 : IsSound t1 = subst IsSound (sym same) v in
      let (r, t2, reads, rest) =
        >>=-returns (call absl c l clock os (read_loop os fuel fd buffer 0)) _ t1 reading in
      let (((b, n, done), w'), runs, same2) =
        >>=-eq-some (read_loop os fuel fd buffer 0 (world_of t1)) _ reads in
      let text : b ≡ r.0 = ap (λ (q : Bytes × ℕ × Bool). q.0) (same_result same2) in
      let size : length b ≡ k_buffer_total_size =
        read_loop-length os bounded fd fuel 0 buffer (world_of t1) b n done w'
          (v.sizes t.buffer_index buffer found) (omega arith) runs in
      >>=-Keeps
        (if r.1 == 0
          then pure tt
          else process_buffer absl c l clock os fuel rows s unset fresh fd r.0 r.1)
        _
        (if-Keeps (r.1 == 0) (pure-Keeps tt)
          (process_buffer-Keeps fuel rows s unset fresh fd r.0 r.1 (ap length (sym text) ∙ size)))
        (λ _. if-Keeps r.2 (call-Keeps (modify (os.close fd))) (pure-Keeps tt)) t2 a t'
        (call-Keeps (read_loop os fuel fd buffer 0) t1 r t2 v1 reads) rest

  handle_event-Keeps :
      (fuel rows : ℕ) (s : Session c) (unset : Unset) (fresh : Request) (epoll_fd server_fd : ℕ)
      (event : Event)
      → Keeps (handle_event absl c l clock os fuel rows s unset fresh epoll_fd server_fd event)
  unfolding handle_event
  handle_event-Keeps fuel rows s unset fresh epoll_fd server_fd event =
      if-Keeps (is_bad_event event) (call-Keeps (modify (os.close event.fd))) (
        if-Keeps (server_fd == event.fd) (call-Keeps (accept_loop os fuel epoll_fd server_fd))
          (handle_client-Keeps fuel rows s unset fresh event.fd))

  handle_events-Keeps :
      (fuel rows : ℕ) (s : Session c) (unset : Unset) (fresh : Request) (epoll_fd server_fd : ℕ)
      (events : List Event)
      → Keeps (handle_events absl c l clock os fuel rows s unset fresh epoll_fd server_fd events)
  unfolding handle_events
  handle_events-Keeps fuel rows s unset fresh epoll_fd server_fd [] = pure-Keeps tt
  handle_events-Keeps fuel rows s unset fresh epoll_fd server_fd (e ∷ events) =
      >>=-Keeps (handle_event absl c l clock os fuel rows s unset fresh epoll_fd server_fd e) _
        (handle_event-Keeps fuel rows s unset fresh epoll_fd server_fd e)
        (λ _. handle_events-Keeps fuel rows s unset fresh epoll_fd server_fd events)

  pub event_round-Keeps :
      (fuel rows : ℕ) (s : Session c) (unset : Unset) (fresh : Request) (epoll_fd server_fd : ℕ)
      → Keeps (event_round absl c l clock os fuel rows s unset fresh epoll_fd server_fd)
  unfolding event_round
  event_round-Keeps fuel rows s unset fresh epoll_fd server_fd =
      >>=-Keeps (call absl c l clock os (effect (os.epoll_wait epoll_fd k_max_events))) _
        (call-Keeps (effect (os.epoll_wait epoll_fd k_max_events)))
        (handle_events-Keeps fuel rows s unset fresh epoll_fd server_fd)
