-- ===== src/Router/Simulates.antt =====
-- The accept loop and `erase_from_maps` do to the arrays what the events do to the abstract view.
use rinha.Prelude.{
  ℕ, ◌+◌, ◌^◌, ◌≤◌, ◌<◌, ◌≡◌, refl, sym, ap, subst, ◌∙◌, pos, add_int, add_int-one, Bool, true,
  false, Option, none, some, List, [], ◌∷◌, ◌++◌, length, length-append, set, arith,
}
use rinha.Router.{Router, minus_one, is_even, assign, erase_from_maps}
use rinha.Router.Queue.{window, IsQueue, give_back-window, take_next-window}
use rinha.Router.Pairing.{held, with_held, joined, CanJoin, assign-held, erase-held_partner}
use rinha.Router.Proxy.{
  Proxy, Event, arrives, leaves, Move, arrive, depart, IsProxy, turn, free, with_free, partner,
  client_of, taken, leave, count, partner-leave, client_of-leave, count-partner, length-leave,
  client_of-none,
}
use rinha.Router.Represents.{entry, entries, Represents, queue_of, changed-Represents, set-Holds}

-- What the connections are: different descriptors in the arrays, a thousand at most.
pub record AreConnections (us : List ℕ) : Type 0 where
  pub once : (u : ℕ) → count u us ≤ 1
  pub small : (u : ℕ) → 1 ≤ count u us → u < 1000
  pub few : length us ≤ 1000

-- `assign` and `erase_from_maps`, as the event tells.
unfoldable pub on_event : Event → Router → Option Router
unfolding assign erase_from_maps
on_event (arrives t) r = assign (pos t) r
on_event (leaves t) r = erase_from_maps (pos t) r

pub entries-append : (vs : List ℕ) (u : ℕ) → entries vs ++ (pos u ∷ []) ≡ entries (vs ++ (u ∷ []))
entries-append [] u = refl
entries-append (v ∷ vs) u = ap (◌∷◌ (pos v)) (entries-append vs u)

module _ (us : List ℕ) (first : ℕ → Bool) (conns : AreConnections us) where
  count-free :
      (b : Bool) (p : Proxy) (u : ℕ) → count u (free b p) ≤ count u p.free_1 + count u p.free_2
  count-free true p u = omega arith
  count-free false p u = omega arith

  length-free : (b : Bool) (p : Proxy) → length (free b p) ≤ length p.free_1 + length p.free_2
  length-free true p = omega arith
  length-free false p = omega arith

  first_free-IsConnection :
      (b : Bool) (p : Proxy) (u : ℕ) (rest : List ℕ)
      → IsProxy us first p
      → free b p ≡ u ∷ rest
      → 1 ≤ count u us
  first_free-IsConnection b p u rest v front =
      let here : 1 ≤ count u (free b p) = rw front (ground arith) in
      omega (arith, count-free b p u, v.kept u)

  -- A free connection has no partner, and can be given to a new client.
  CanJoin-free :
      (b : Bool) (p : Proxy) (k : ℕ) (r : Router) (t u : ℕ) (rest : List ℕ)
      → IsProxy us first p
      → Represents us first p k r
      → free b p ≡ u ∷ rest
      → partner p.pairs t ≡ none
      → count t us ≡ 0
      → t < 1000
      → CanJoin r t u
  CanJoin-free b p k r t u rest v h front alone no_conn small =
      let here : 1 ≤ count u (free b p) = rw front (ground arith) in
      let one = first_free-IsConnection b p u rest v front in
      let idle : count u (taken p.pairs) ≡ 0 =
        omega (arith, count-free b p u, v.kept u, conns.once u) in
      record {
        no_unix = h.tcp.holds t small ∙ ap (λ x. some (entry x)) alone;
        no_tcp =
            h.unix.holds u (conns.small u one)
            ∙ ap (λ x. some (entry x)) (client_of-none p.pairs u idle);
        apart = h.tcp.holds u (conns.small u one) ∙ ap (λ x. some (entry x)) (v.apart u one);
        different = λ e. absurd (omega (arith, ap (λ x. count x us) e));
      }

  arrived-Represents :
      (p : Proxy) (k : ℕ) (r : Router) (t u : ℕ) (rest : List ℕ)
      → IsProxy us first p
      → Represents us first p k r
      → length us + k + 2 < 2 ^ 31
      → free (turn p) p ≡ u ∷ rest
      → partner p.pairs t ≡ none
      → count t us ≡ 0
      → t < 1000
      → (r' : Router) × (assign (pos t) r ≡ some r')
        × Represents us first
            (record (with_free (turn p) rest p) {
              pairs = (t, u) ∷ p.pairs;
              clients = p.clients + 1;
            })
            (k + 1)
            r'
  arrived-Represents p k r t u rest v h early front alone no_conn small =
      let b = turn p in
      let j = CanJoin-free b p k r t u rest v h front alone no_conn small in
      let q = queue_of b h in
      let (a, takes, q1, left) =
        take_next-window (held b r) u q.start (length rest) (entries rest)
          (subst (λ vs. IsQueue (held b r) q.start (length vs)) front q.queue)
          (subst (λ vs. window (held b r).connections q.start (length vs) ≡ entries vs) front
            q.content) in
      (
        with_held b (joined t u r) a,
        assign-held b r t u a (ap is_even h.turns) takes j,
        changed-Represents us first b p k r a rest (set r.tcp_to_unix t (pos u))
            (set r.unix_to_tcp u (pos t)) ((t, u) ∷ p.pairs) (add_int r.round_robin_counter (pos 1))
            (p.clients + 1) h
            (record {
              start = q.start + 1;
              queue = q1;
              content = left;
              within = omega (arith, q.within, ap length front);
            })
            (set-Holds r.tcp_to_unix (partner p.pairs) (partner ((t, u) ∷ p.pairs)) t (some u) small
              (λ i. refl) h.tcp)
            (set-Holds r.unix_to_tcp (client_of p.pairs) (client_of ((t, u) ∷ p.pairs)) u (some t)
              (conns.small u (first_free-IsConnection b p u rest v front)) (λ i. refl) h.unix)
            (ap (λ x. add_int x (pos 1)) h.turns
              ∙ add_int-one p.clients (omega (arith, h.few_clients)))
            (omega (arith, h.few_clients)),
      )

  departed-Represents :
      (p : Proxy) (k : ℕ) (r : Router) (t u : ℕ)
      → IsProxy us first p
      → Represents us first p k r
      → length us + k + 2 < 2 ^ 31
      → t < 1000
      → partner p.pairs t ≡ some u
      → (r' : Router) × (erase_from_maps (pos t) r ≡ some r')
        × Represents us first
            (record (with_free (first u) (free (first u) p ++ (u ∷ [])) p) {
              pairs = leave t p.pairs;
              clients = p.clients;
            })
            (k + 1)
            r'
  departed-Represents p k r t u v h early small has =
      let b = first u in
      let one : 1 ≤ count u us = omega (arith, v.kept u, count-partner p.pairs t u has) in
      let mine : count u (taken p.pairs) ≤ 1 = omega (arith, v.kept u, conns.once u) in
      let q = queue_of b h in
      let (mark, marked, side) = h.marks u one in
      let (a, back, q1, left) =
        give_back-window (held b r) (pos u) q.start (length (free b p)) q.queue
          (omega (arith, length-free b p, length-leave p.pairs t u has, v.total, conns.few))
          (omega (arith, q.within)) in
      let longer : length (free b p) + 1 ≡ length (free b p ++ (u ∷ [])) =
        omega (arith, length-append (free b p) (u ∷ [])) in
      (
        with_held b
            (record r {
              tcp_to_unix = set r.tcp_to_unix t minus_one;
              unix_to_tcp = set r.unix_to_tcp u minus_one;
            })
            a,
        erase-held_partner b r t u a mark (h.tcp.holds t small ∙ ap (λ x. some (entry x)) has)
            (omega (arith, conns.small u one, h.unix.places)) marked side back,
        changed-Represents us first b p k r a (free b p ++ (u ∷ [])) (set r.tcp_to_unix t minus_one)
            (set r.unix_to_tcp u minus_one) (leave t p.pairs) r.round_robin_counter p.clients h
            (record {
              start = q.start;
              queue = subst (IsQueue a q.start) longer q1;
              content =
                  ap (window a.connections q.start) (sym longer)
                  ∙ left
                  ∙ ap (λ s. s ++ (pos u ∷ [])) q.content
                  ∙ entries-append (free b p) u;
              within = omega (arith, q.within, length-append (free b p) (u ∷ []));
            })
            (set-Holds r.tcp_to_unix (partner p.pairs) (partner (leave t p.pairs)) t none small
              (λ i. partner-leave p.pairs t i v.distinct) h.tcp)
            (set-Holds r.unix_to_tcp (client_of p.pairs) (client_of (leave t p.pairs)) u none
              (conns.small u one) (λ i. client_of-leave p.pairs t u i has mine) h.unix)
            h.turns (omega (arith, h.few_clients)),
      )

  -- The code does an event.
  pub on_event-Represents :
      {p p' : Proxy} {e : Event} (k : ℕ) (r : Router)
      → Move us first p e p'
      → IsProxy us first p
      → Represents us first p k r
      → length us + k + 2 < 2 ^ 31
      → (r' : Router) × (on_event e r ≡ some r') × Represents us first p' (k + 1) r'
  unfolding on_event
  on_event-Represents k r (arrive p t u rest front alone no_conn small) v h early =
      arrived-Represents p k r t u rest v h early front alone no_conn small
  on_event-Represents k r (depart p t u small has) v h early =
      departed-Represents p k r t u v h early small has
