-- ===== src/Router/Tickets.antt =====
-- The threads of the router at one of its queues, whose steps come in any order: a thread first counts, which is
-- one atomic step, and then reads or writes the place that it has counted.
use rinha.Prelude.{
  ℕ, ◌+◌, ◌%◌, ◌^◌, ◌≤◌, ◌<◌, ◌≡◌, ◌≢◌, refl, ◌⊎◌, inl, inr, ℤ, pos, add_int, Option, none, some,
  List, [], ◌∷◌, ◌++◌, ◌==◌, if◌then◌else◌, length, get_elem?, set, Bool-cases, Option-cases, ◌>>=◌,
}
use rinha.Router.{Available, is_none, read_int, write_int, slot, take_next, give_back}
use rinha.Router.Proxy.{count}

-- `fetch_add` on the start, and the read of the place with its `CHECK`.
unfoldable pub count_start : Available → ℤ × Available
count_start a = (a.start_idx, record a { start_idx = add_int a.start_idx (pos 1) })

unfoldable pub read_place : Available → ℤ → Option ℤ
read_place a i = read_int a.connections (slot i) >>= λ u. if is_none u then none else some u

-- `fetch_add` on the end, and the write of the place.
unfoldable pub count_end : Available → ℤ × Available
count_end a = (a.end_idx, record a { end_idx = add_int a.end_idx (pos 1) })

unfoldable pub write_place : Available → ℤ → ℤ → Option Available
write_place a i u =
    write_int a.connections (slot i) u >>= λ cs. some (record a { connections = cs })

-- With no step between, they are the two operations.
take_next-steps :
    (a : Available)
    → take_next a
      ≡ (read_place (count_start a).1 (count_start a).0 >>= λ u. some (u, (count_start a).1))
unfolding take_next count_start read_place
take_next-steps a = elim (Option-cases (read_int a.connections (slot a.start_idx))) [
  | inl fails ↦ rw (fails, ◌>>=◌) refl
  | inr (u, found) ↦ elim (Bool-cases (is_none u)) [
    | inl unset ↦ rw (found, unset) refl
    | inr set_to ↦ rw (found, set_to) refl
  ]
]

give_back-steps :
    (a : Available) (u : ℤ) → give_back a u ≡ write_place (count_end a).1 (count_end a).0 u
unfolding give_back count_end write_place
give_back-steps a u = refl

-- What a thread is at: it has counted the start, and the place `k` is to give it `u`; or it has
-- counted the end, and is to write `u` there.
pub data Errand : Type 0 where
  idle : Errand
  taking giving : ℕ → ℕ → Errand

pub record Tickets : Type 0 where
  pub queue : Available
  pub hands : List Errand
  -- the connections that clients have
  pub used : List ℕ
  -- the connections that no thread has counted, in their order
  pub free : List ℕ

abbrev pub remove : ℕ → List ℕ → List ℕ
remove u [] = []
remove u (v ∷ vs) = if v == u then vs else v ∷ remove u vs

pub data TicketStep : Tickets → Tickets → Type 0 where
  -- a thread with a new client counts the start, where a connection is free
  counts_start :
      (s : Tickets) (i k u : ℕ) (rest : List ℕ) (q : Available)
      → get_elem? s.hands i ≡ some idle
      → count_start s.queue ≡ (pos k, q)
      → s.free ≡ u ∷ rest
      → TicketStep s (record s { queue = q; hands = set s.hands i (taking k u); free = rest })
  -- it reads its place
  reads :
      (s : Tickets) (i k u v : ℕ)
      → get_elem? s.hands i ≡ some (taking k u)
      → read_place s.queue (pos k) ≡ some (pos v)
      → TicketStep s (record s { hands = set s.hands i idle; used = v ∷ s.used })
  -- a thread whose client has closed counts the end
  counts_end :
      (s : Tickets) (i k u : ℕ) (q : Available)
      → get_elem? s.hands i ≡ some idle
      → 1 ≤ count u s.used
      → count_end s.queue ≡ (pos k, q)
      → TicketStep s (record s {
        queue = q;
        hands = set s.hands i (giving k u);
        used = remove u s.used;
        free = s.free ++ (u ∷ []);
      })
  -- it writes its place
  writes :
      (s : Tickets) (i k u : ℕ) (q : Available)
      → get_elem? s.hands i ≡ some (giving k u)
      → write_place s.queue (pos k) (pos u) ≡ some q
      → TicketStep s (record s { queue = q; hands = set s.hands i idle })

-- No thread is overtaken by a thousand connections that are given back while it takes one.
abbrev pub NotOvertaken : List Errand → ℕ → Type 0
NotOvertaken hands k = (i j u : ℕ) → get_elem? hands i ≡ some (taking j u) → k < j + 1000

-- No thread still has to write the place.
abbrev pub IsWritten : List Errand → ℕ → Type 0
IsWritten hands k = (i u : ℕ) → get_elem? hands i ≢ some (giving k u)

-- A step that comes in time: the counter fits an `int`, a thread counts the start behind the write of
-- that place, and counts the end before another that takes is a thousand places behind.
abbrev pub Timely : {s s' : Tickets} → TicketStep s s' → Type 0
Timely (counts_start s i k u rest q _ _ _) = IsWritten s.hands k × (k + 1 < 2 ^ 31)
Timely (reads s i k u v _ _) = Unit {0}
Timely (counts_end s i k u q _ _ _) = NotOvertaken s.hands k × (k + 1 < 2 ^ 31)
Timely (writes s i k u q _ _) = Unit {0}

-- What the threads are to get.
abbrev pub held_by : Errand → List ℕ
held_by idle = []
held_by (taking k u) = u ∷ []
held_by (giving k u) = []

abbrev pub promised : List Errand → List ℕ
promised [] = []
promised (h ∷ hands) = held_by h ++ promised hands

-- Every connection stands in one place, and the places hold what they are to give.
pub record IsKept (us : List ℕ) (s : Tickets) : Type 0 where
  pub start : ℕ
  pub places : length s.queue.connections ≡ 1000
  pub starts : s.queue.start_idx ≡ pos start
  pub ends : s.queue.end_idx ≡ pos (start + length s.free)
  pub kept : (u : ℕ) → count u s.used + count u (promised s.hands) + count u s.free ≡ count u us
  pub total : length s.used + length (promised s.hands) + length s.free ≡ length us
  pub to_take :
      (i k u : ℕ)
      → get_elem? s.hands i ≡ some (taking k u)
      → (k < start)
        × (start + length s.free ≤ k + 1000)
        × (get_elem? s.queue.connections (k % 1000) ≡ some (pos u))
  pub to_give :
      (i k u : ℕ)
      → get_elem? s.hands i ≡ some (giving k u)
      → (n : ℕ) × (k ≡ start + n) × (get_elem? s.free n ≡ some u)
  pub written :
      (n u : ℕ)
      → get_elem? s.free n ≡ some u
      → (get_elem? s.queue.connections ((start + n) % 1000) ≡ some (pos u))
        ⊎ ((i : ℕ) × (get_elem? s.hands i ≡ some (giving (start + n) u)))
