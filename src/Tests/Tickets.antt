-- ===== src/Tests/Tickets.antt =====
-- The theorems about the threads of the router at a queue, at a run in which two threads overlap.
use rinha.Prelude.{
  ℕ, zero, suc, ◌+◌, add_int, wrap_int, ◌+ℤ◌, ◌≡◌, refl, pos, some, List, [], ◌∷◌, set, replicate,
  arith,
}
use rinha.Router.{Available, minus_one}
use rinha.Router.Queue.{window}
use rinha.Router.Proxy.{count}
use rinha.Router.Represents.{HoldsQueue}
use rinha.Router.Tickets.{
  Tickets, idle, taking, giving, promised, IsWritten, counts_start, reads, counts_end, count_start,
  read_place, count_end,
}
use rinha.Router.Reached.{
  at_rest, TicketReach, start, next, AreTimely, TicketReach-kept, TicketReach-read_place,
}

abbrev both : List ℕ
both = 60 ∷ 62 ∷ []

abbrev queue : Available
queue = record {
  connections = set (set (replicate 1000 minus_one) 0 (pos 60)) 1 (pos 62);
  start_idx = pos 0;
  end_idx = pos 2;
}

queue_of_both : HoldsQueue queue both 2
unfolding window
queue_of_both = record {
  start = 0;
  queue = record {
    places = refl;
    starts = refl;
    ends = refl;
    few = omega arith;
    small = omega arith;
  };
  content = refl;
  within = omega arith;
}

-- Both threads have counted the start, the second one has read its place, and its client has closed
-- before the first one reads.
abbrev overlapping : Tickets
overlapping = record {
  queue = record queue { start_idx = pos 2; end_idx = pos 3 };
  hands = taking 0 60 ∷ giving 2 62 ∷ [];
  used = [];
  free = 62 ∷ [];
}

nobody_writes : IsWritten (idle ∷ idle ∷ []) 0
nobody_writes zero u e = cc
nobody_writes (suc zero) u e = cc
nobody_writes (suc (suc i)) u e = cc

first_reads : IsWritten (taking 0 60 ∷ idle ∷ []) 1
first_reads zero u e = cc
first_reads (suc zero) u e = cc
first_reads (suc (suc i)) u e = cc

abbrev overlap : TicketReach (at_rest queue both 2) overlapping
unfolding count_start read_place count_end add_int wrap_int ◌+ℤ◌
overlap =
    next
      (next
        (next (next start (counts_start (at_rest queue both 2) 0 0 60 (62 ∷ []) _ refl refl refl))
          (counts_start _ 1 1 62 [] _ refl refl refl))
        (reads _ 1 1 62 62 refl refl))
      (counts_end _ 1 2 62 _ refl (omega arith) refl)

overlap-AreTimely : AreTimely overlap
unfolding overlap
overlap-AreTimely = (
  (((tt, (nobody_writes, omega arith)), (first_reads, omega arith)), tt),
  ((λ i j u e. omega arith), omega arith),
)

TicketReach-kept_example :
    count 62 overlapping.used + count 62 (promised overlapping.hands) + count 62 overlapping.free
    ≡ 1
TicketReach-kept_example =
    TicketReach-kept queue both 2 2 62 overlapping queue_of_both (omega arith) refl overlap
      overlap-AreTimely

TicketReach-read_place_example :
    (read_place overlapping.queue (pos 0) ≡ some (pos 60))
    × (count 60 overlapping.used ≡ 0)
    × (count 60 overlapping.free ≡ 0)
TicketReach-read_place_example =
    TicketReach-read_place queue both 2 2 0 0 60 overlapping queue_of_both (omega arith) refl
      overlap overlap-AreTimely refl
