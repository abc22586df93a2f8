-- ===== src/Router/Represents.antt =====
-- The arrays of the router hold a state of its abstract view, and the code does to them what an event
-- does to the view.
use rinha.Prelude.{
  ℕ, zero, suc, ◌+◌, ◌≤◌, ◌<◌, ◌≡◌, refl, ◌∙◌, ℤ, pos, Bool, true, false, not, Option, none, some,
  List, [], ◌∷◌, ◌==◌, if◌then◌else◌, length, length-set, get_elem?, set, arith,
}
use rinha.Router.{Available, Router, minus_one, is_none}
use rinha.Router.Queue.{window, IsQueue}
use rinha.Router.Pairing.{held, with_held}
use rinha.Router.Proxy.{Proxy, free, with_free, partner, client_of, count}

-- What an array holds for a descriptor.
abbrev pub entry : Option ℕ → ℤ
entry none = minus_one
entry (some u) = pos u

abbrev pub entries : List ℕ → List ℤ
entries [] = []
entries (u ∷ us) = pos u ∷ entries us

-- An array of 1000 places that holds a map.
pub record Holds (xs : List ℤ) (f : ℕ → Option ℕ) : Type 0 where
  pub places : length xs ≡ 1000
  pub holds : (i : ℕ) → i < 1000 → get_elem? xs i ≡ some (entry (f i))

pub get_elem?-set :
    (xs : List ℤ) (i j : ℕ) (v : ℤ)
    → i < length xs
    → get_elem? (set xs i v) j ≡ (if i == j then some v else get_elem? xs j)
get_elem?-set [] i j v h = absurd (omega arith)
get_elem?-set (x ∷ xs) zero zero v h = refl
get_elem?-set (x ∷ xs) zero (suc j) v h = ground arith
get_elem?-set (x ∷ xs) (suc i) zero v h = ground arith
get_elem?-set (x ∷ xs) (suc i) (suc j) v h = ground (arith, get_elem?-set xs i j v)

pub set-Holds :
    (xs : List ℤ) (f g : ℕ → Option ℕ) (i : ℕ) (v : Option ℕ)
    → i < 1000
    → ((j : ℕ) → g j ≡ (if i == j then v else f j))
    → Holds xs f
    → Holds (set xs i (entry v)) g
set-Holds xs f g i v small new h = record {
  places = length-set xs i (entry v) ∙ h.places;
  holds =
      λ j within. ground (arith, get_elem?-set xs i j (entry v), h.places, h.holds j within, new j);
}

-- A queue of free connections, whose counters are not above a bound.
pub record HoldsQueue (a : Available) (vs : List ℕ) (bound : ℕ) : Type 0 where
  pub start : ℕ
  pub queue : IsQueue a start (length vs)
  pub content : window a.connections start (length vs) ≡ entries vs
  pub within : start + length vs ≤ bound

-- The marks of the connections tell the servers apart.
abbrev pub Marked : List ℕ → (ℕ → Bool) → List ℤ → Type 0
Marked us first marks =
    (u : ℕ)
    → 1 ≤ count u us
    → (mark : ℤ) × (get_elem? marks u ≡ some mark) × (not (is_none mark) ≡ first u)

-- After `k` events.
pub record Represents (us : List ℕ) (first : ℕ → Bool) (p : Proxy) (k : ℕ) (r : Router)
    : Type 0 where
  pub tcp : Holds r.tcp_to_unix (partner p.pairs)
  pub unix : Holds r.unix_to_tcp (client_of p.pairs)
  pub marks : Marked us first r.connection_1_fds
  pub queue_1 : HoldsQueue r.available_1 p.free_1 (length us + k)
  pub queue_2 : HoldsQueue r.available_2 p.free_2 (length us + k)
  pub turns : r.round_robin_counter ≡ pos p.clients
  pub few_clients : p.clients ≤ k

pub queue_of :
    (b : Bool) {us : List ℕ} {first : ℕ → Bool} {p : Proxy} {k : ℕ} {r : Router}
    → Represents us first p k r
    → HoldsQueue (held b r) (free b p) (length us + k)
queue_of true h = h.queue_1
queue_of false h = h.queue_2

pub later : {a : Available} {vs : List ℕ} (m n : ℕ) → m ≤ n → HoldsQueue a vs m → HoldsQueue a vs n
later m n more h = record {
  start = h.start;
  queue = h.queue;
  content = h.content;
  within = omega (arith, h.within);
}

-- One event later, with other maps and another queue of the server `b`.
pub changed-Represents :
    (us : List ℕ) (first : ℕ → Bool) (b : Bool) (p : Proxy) (k : ℕ) (r : Router) (a : Available)
    (vs : List ℕ) (tcp unix : List ℤ) (ps : List (ℕ × ℕ)) (counter : ℤ) (clients : ℕ)
    → Represents us first p k r
    → HoldsQueue a vs (length us + (k + 1))
    → Holds tcp (partner ps)
    → Holds unix (client_of ps)
    → counter ≡ pos clients
    → clients ≤ k + 1
    → Represents us first
        (record (with_free b vs p) { pairs = ps; clients = clients })
        (k + 1)
        (with_held b
          (record r { tcp_to_unix = tcp; unix_to_tcp = unix; round_robin_counter = counter })
          a)
changed-Represents us first true p k r a vs tcp unix ps counter clients h q ht hu hc hn = record {
  tcp = ht;
  unix = hu;
  marks = h.marks;
  queue_1 = q;
  queue_2 = later (length us + k) (length us + (k + 1)) (omega arith) h.queue_2;
  turns = hc;
  few_clients = hn;
}
changed-Represents us first false p k r a vs tcp unix ps counter clients h q ht hu hc hn = record {
  tcp = ht;
  unix = hu;
  marks = h.marks;
  queue_1 = later (length us + k) (length us + (k + 1)) (omega arith) h.queue_1;
  queue_2 = q;
  turns = hc;
  few_clients = hn;
}
