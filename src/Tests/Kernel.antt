-- ===== src/Tests/Kernel.antt =====
-- A kernel whose descriptors take two bytes at a time, for the examples.
use rinha.Prelude.{
  ◌≡◌, suc, ◌≤◌, length, arith, ℕ, refl, ap, subst, true, some, [], ◌∷◌, ◌++◌, Bytes, take, ◌∙◌,
}
use rinha.Os.{Os, Written, count, error, Accepted, Received}
use rinha.RequestProcessor.Sending.{Sink}

abbrev two : Bytes → ℕ
two [] = 0
two (a ∷ []) = 1
two (a ∷ b ∷ s) = 2

-- `more` adds to a world what its descriptors take.
abbrev pub kernel_of : {W : Type 0} → (W → Bytes → W) → Os W
kernel_of more = record {
  socket = λ family w. (some 3, w);
  set_tcp_option = λ fd option w. (true, w);
  bind = λ fd path w. (true, w);
  connect = λ fd path w. (true, w);
  listen = λ fd w. (true, w);
  unlink = λ path w. w;
  get_flags = λ fd w. (some 2, w);
  set_flags = λ fd flags w. (true, w);
  epoll_create = λ w. (some 4, w);
  epoll_ctl = λ fd op other events w. (true, w);
  epoll_wait = λ fd n w. ([], w);
  accept = λ fd w. (Accepted.error true, w);
  read = λ fd n w. (Received.error true, w);
  write = λ fd s w. (count (two s), more w (take (two s) s));
  close = λ fd w. w;
}

-- The world is what the descriptors have taken.
abbrev pub kernel : Os Bytes
kernel = kernel_of ◌++◌

count_of : Written → ℕ
count_of (count n) = n
count_of (error again) = 0

IsCount : Written → Type 0
IsCount (count n) = Unit {0}
IsCount (error again) = ⊥

pub sink_of :
    {W : Type 0} (more : W → Bytes → W) (taken : W → Bytes) (fd : ℕ)
    → ((w : W) (s : Bytes) → taken (more w s) ≡ taken w ++ s)
    → Sink (kernel_of more) fd
unfolding count_of IsCount
sink_of more taken fd adds = record {
  taken = taken;
  on_write = λ s w n e. adds w (take (two s) s) ∙ ap (λ k. taken w ++ take k s) (ap count_of e);
  on_error = λ s w again e. absurd (subst IsCount e tt);
  on_close = λ w. refl;
}

abbrev pub sink : Sink kernel 7
unfolding sink_of
sink = sink_of ◌++◌ (λ w. w) 7 (λ w s. refl)

pub two_takes_of :
    {W : Type 0} (more : W → Bytes → W) (fd : ℕ) (s : Bytes) (w : W)
    → 1 ≤ length s
    → (n : ℕ) × (((kernel_of more).write fd s w).0 ≡ count (suc n))
two_takes_of m fd [] w more = absurd (omega arith)
two_takes_of m fd (a ∷ []) w more = (0, refl)
two_takes_of m fd (a ∷ b ∷ s) w more = (1, refl)

pub two_takes : (s w : Bytes) → 1 ≤ length s → (n : ℕ) × ((kernel.write 7 s w).0 ≡ count (suc n))
two_takes s w more = two_takes_of ◌++◌ 7 s w more
