-- ===== src/Router/Reached.antt =====
-- Every state of the threads at a queue of the router, from its start.
use rinha.Prelude.{
  ℕ, zero, suc, ◌+◌, ◌%◌, ◌≤◌, ◌≡◌, refl, ap, ◌∙◌, inl, ℤ, pos, some, List, [], ◌∷◌, length,
  get_elem?, get_elem?-eq-get_or, get_or, replicate, arith,
}
use rinha.Router.{Available, minus_one}
use rinha.Router.Queue.{window}
use rinha.Router.Proxy.{count}
use rinha.Router.Represents.{HoldsQueue, entries}
use rinha.Router.Tickets.{
  Tickets, Errand, idle, taking, giving, promised, TicketStep, counts_start, reads, counts_end,
  writes, Timely, IsKept, read_place,
}
use rinha.Router.Errands.{count-promised}
use rinha.Router.Places.{read_place-some}
use rinha.Router.Takes.{reads-IsKept, counts_start-IsKept}
use rinha.Router.Gives.{counts_end-IsKept, writes-IsKept}

-- `n` threads at a queue of free connections.
abbrev pub at_rest : Available → List ℕ → ℕ → Tickets
at_rest a us n = record { queue = a; hands = replicate n idle; used = []; free = us }

pub data TicketReach (s0 : Tickets) : Tickets → Type 0 where
  start : TicketReach s0 s0
  next : {s s' : Tickets} → TicketReach s0 s → TicketStep s s' → TicketReach s0 s'

-- Every step of a run came in time.
abbrev pub AreTimely : {s0 s : Tickets} → TicketReach s0 s → Type 0
AreTimely start = Unit {0}
AreTimely (next before step) = AreTimely before × Timely step

promised-replicate : (n : ℕ) → promised (replicate n idle) ≡ []
promised-replicate zero = refl
promised-replicate (suc n) = promised-replicate n

all_idle : (n i : ℕ) (h : Errand) → get_elem? (replicate n idle) i ≡ some h → idle ≡ h
all_idle zero i h e = cc
all_idle (suc n) zero h e = cc
all_idle (suc n) (suc i) h e = all_idle n i h e

window-entry :
    (xs : List ℤ) (i n u : ℕ) (us : List ℕ)
    → window xs i (length us) ≡ entries us
    → get_elem? us n ≡ some u
    → get_or xs ((i + n) % 1000) minus_one ≡ pos u
unfolding window
window-entry xs i n u [] e h = cc
window-entry xs i zero u (v ∷ us) e h =
    let here : i + 0 ≡ i = omega arith in
    let head : get_or xs (i % 1000) minus_one ≡ pos v = cc in
    let same : v ≡ u = cc in ap (λ k. get_or xs (k % 1000) minus_one) here ∙ head ∙ ap pos same
window-entry xs i (suc n) u (v ∷ us) e h =
    let there : i + suc n ≡ i + 1 + n = omega arith in
    let tail : window xs (i + 1) (length us) ≡ entries us = cc in
    ap (λ k. get_or xs (k % 1000) minus_one) there ∙ window-entry xs (i + 1) n u us tail h

at_rest-IsKept :
    (a : Available) (us : List ℕ) (n bound : ℕ) → HoldsQueue a us bound → IsKept us (at_rest a us n)
at_rest-IsKept a us n bound h = record {
  start = h.start;
  places = h.queue.places;
  starts = h.queue.starts;
  ends = h.queue.ends;
  kept = λ u. omega (arith, ap (count u) (promised-replicate n));
  total = omega (arith, ap length (promised-replicate n));
  to_take = λ i k u e. let no_hand = all_idle n i (taking k u) e in cc;
  to_give = λ i k u e. let no_hand = all_idle n i (giving k u) e in cc;
  written = λ m u e. inl (
      get_elem?-eq-get_or a.connections ((h.start + m) % 1000) minus_one
        (omega (arith, h.queue.places))
      ∙ ap some (window-entry a.connections h.start m u us h.content e));
}

TicketStep-IsKept :
    (us : List ℕ) {s s' : Tickets}
    → length us ≤ 1000
    → (step : TicketStep s s') → Timely step
    → IsKept us s
    → IsKept us s'
TicketStep-IsKept us many (counts_start s i k u rest q mine counts front) (done, small) h =
    counts_start-IsKept us many s i k u rest q mine counts front done small h
TicketStep-IsKept us many (reads s i k u v mine got) _ h = reads-IsKept us many s i k u v mine got h
TicketStep-IsKept us many (counts_end s i k u q mine has counts) (near, small) h =
    counts_end-IsKept us many s i k u q mine has counts near small h
TicketStep-IsKept us many (writes s i k u q mine wrote) _ h =
    writes-IsKept us many s i k u q mine wrote h

TicketReach-IsKept :
    (us : List ℕ) (s0 s : Tickets)
    → length us ≤ 1000
    → IsKept us s0
    → (run : TicketReach s0 s) → AreTimely run
    → IsKept us s
TicketReach-IsKept us s0 _ many h start _ = h
TicketReach-IsKept us s0 _ many h (next before step) (all, timely) =
    TicketStep-IsKept us many step timely (TicketReach-IsKept us s0 _ many h before all)

-- Any number of threads take connections from a queue and give them back, in every order of their
-- atomic steps in which every step comes in time: a thread counts the start only where a connection is free
-- and its place is written, none that takes is overtaken by a thousand connections between its two steps, and the
-- counters fit an `int`. Then every connection is used by one client, or is to be read by one thread, or is
-- free, and stands in no two of these places.
pub TicketReach-kept :
    (a : Available) (us : List ℕ) (n bound u : ℕ) (s : Tickets)
    → HoldsQueue a us bound
    → length us ≤ 1000
    → count u us ≡ 1
    → (run : TicketReach (at_rest a us n) s) → AreTimely run
    → count u s.used + count u (promised s.hands) + count u s.free ≡ 1
TicketReach-kept a us n bound u s q many one run timely =
    let h =
      TicketReach-IsKept us (at_rest a us n) s many (at_rest-IsKept a us n bound q) run timely in
    h.kept u ∙ one

-- Under the same conditions, a thread that has counted the start reads the connection that it was to get, so that
-- its `CHECK` holds, and no client uses it yet.
pub TicketReach-read_place :
    (a : Available) (us : List ℕ) (n bound i k u : ℕ) (s : Tickets)
    → HoldsQueue a us bound
    → length us ≤ 1000
    → count u us ≡ 1
    → (run : TicketReach (at_rest a us n) s) → AreTimely run
    → get_elem? s.hands i ≡ some (taking k u)
    → (read_place s.queue (pos k) ≡ some (pos u)) × (count u s.used ≡ 0) × (count u s.free ≡ 0)
TicketReach-read_place a us n bound i k u s q many one run timely mine =
    let h =
      TicketReach-IsKept us (at_rest a us n) s many (at_rest-IsKept a us n bound q) run timely in
    let (before, near, place) = h.to_take i k u mine in
    let left = count-promised s.hands i u (taking k u) idle mine in
    let self : count u (u ∷ []) ≡ 1 = ground arith in
    (
      read_place-some s.queue k u place,
      omega (arith, left, self, h.kept u, one),
      omega (arith, left, self, h.kept u, one),
    )
