-- ===== src/Router/Takes.antt =====
-- A thread that takes a connection loses none.
use rinha.Prelude.{
  ℕ, suc, ◌+◌, ◌%◌, ◌^◌, ◌≤◌, ◌<◌, ◌≡◌, sym, ap, subst, ◌∙◌, inl, inr, pos, some, List, [], ◌∷◌,
  length, get_elem?, set, arith,
}
use rinha.Router.{Available}
use rinha.Router.Proxy.{count}
use rinha.Router.Tickets.{Tickets, idle, taking, giving, IsWritten, IsKept, count_start, read_place}
use rinha.Router.Errands.{count-promised, length-promised, hand_cases, still_giving}
use rinha.Router.Places.{count_start-eq, read_place-some, IsPlaced, tail_entry}

module _ (us : List ℕ) (many : length us ≤ 1000) where
  pub reads-IsKept :
      (s : Tickets) (i k u v : ℕ)
      → get_elem? s.hands i ≡ some (taking k u)
      → read_place s.queue (pos k) ≡ some (pos v)
      → IsKept us s
      → IsKept us (record s { hands = set s.hands i idle; used = v ∷ s.used })
  reads-IsKept s i k u v mine got h =
      let (before, near, place) = h.to_take i k u mine in
      let gives : read_place s.queue (pos k) ≡ some (pos u) = read_place-some s.queue k u place in
      let same : u ≡ v = cc in
      record {
        start = h.start;
        places = h.places;
        starts = h.starts;
        ends = h.ends;
        kept = λ x. omega (
          arith,
          count-promised s.hands i x (taking k u) idle mine,
          h.kept x,
          ap (λ y. count x (y ∷ [])) same,
        );
        total = omega (arith, length-promised s.hands i (taking k u) idle mine, h.total);
        to_take = λ j k' u' e. elim (hand_cases s.hands i j idle (taking k' u') e) [
          | inl (_, no_hand) ↦ cc
          | inr other ↦ h.to_take j k' u' other
        ];
        to_give = λ j k' u' e. elim (hand_cases s.hands i j idle (giving k' u') e) [
          | inl (_, no_hand) ↦ cc
          | inr other ↦ h.to_give j k' u' other
        ];
        written = λ n x e.
            still_giving s.hands i (taking k u) idle (h.start + n) x mine (λ z. cc)
              (h.written n x e);
      }

  -- A free connection that is written stands at its place.
  first_place :
      (s : Tickets) (k u : ℕ) (h : IsKept us s)
      → k ≡ h.start
      → get_elem? s.free 0 ≡ some u
      → IsWritten s.hands k
      → get_elem? s.queue.connections (k % 1000) ≡ some (pos u)
  first_place s k u h same first done =
      let here : h.start + 0 ≡ k = omega (arith, same) in
      elim (subst (IsPlaced s.queue.connections s.hands u) here (h.written 0 u first)) [
        | inl place ↦ place
        | inr (j, giver) ↦ absurd (done j u giver)
      ]

  pub counts_start-IsKept :
      (s : Tickets) (i k u : ℕ) (rest : List ℕ) (q : Available)
      → get_elem? s.hands i ≡ some idle
      → count_start s.queue ≡ (pos k, q)
      → s.free ≡ u ∷ rest
      → IsWritten s.hands k
      → k + 1 < 2 ^ 31
      → IsKept us s
      → IsKept us (record s { queue = q; hands = set s.hands i (taking k u); free = rest })
  counts_start-IsKept s i k u rest q mine counts front done small h =
      let (same, next) = count_start-eq s.queue h.start k q h.starts small counts in
      let places : q.connections ≡ s.queue.connections =
        ap (λ (a : Available). a.connections) next in
      let first : get_elem? s.free 0 ≡ some u = ap (λ vs. get_elem? vs 0) front in
      record {
        start = h.start + 1;
        places = ap length places ∙ h.places;
        starts = ap (λ (a : Available). a.start_idx) next;
        ends =
            ap (λ (a : Available). a.end_idx) next
            ∙ h.ends
            ∙ ap pos (omega (arith, ap length front));
        kept = λ x. omega (
          arith,
          count-promised s.hands i x idle (taking k u) mine,
          h.kept x,
          ap (count x) front,
        );
        total =
            omega
              (arith, length-promised s.hands i idle (taking k u) mine, h.total, ap length front);
        to_take = λ j k' u' e. elim (hand_cases s.hands i j (taking k u) (taking k' u') e) [
          | inl (_, it) ↦
              let this : k ≡ k' = cc in
              let conn : u ≡ u' = cc in
              (
                omega (arith, same, this),
                omega (arith, same, this, h.total, ap length front, many),
                ap (λ x. get_elem? q.connections (x % 1000)) (sym this)
                    ∙ ap (λ cs. get_elem? cs (k % 1000)) places
                    ∙ first_place s k u h same first done
                    ∙ ap (λ x. some (pos x)) conn,
              )
          | inr other ↦
              let (before, near, place) = h.to_take j k' u' other in
              (
                omega arith,
                omega (arith, near, ap length front),
                ap (λ cs. get_elem? cs (k' % 1000)) places ∙ place,
              )
        ];
        to_give = λ j k' u' e. elim (hand_cases s.hands i j (taking k u) (giving k' u') e) [
          | inl (_, no_hand) ↦ cc
          | inr other ↦
              let (n, at, given) = h.to_give j k' u' other in
              elim (tail_entry n u u' s.free rest front given) [
                | inl none_before ↦
                    let this : k' ≡ k = omega (arith, at, same, none_before) in
                    absurd (done j u' (other ∙ ap (λ x. some (giving x u')) this))
                | inr (m, before, later) ↦ (m, omega (arith, at, before), later)
              ]
        ];
        written = λ n x e.
            let shift : h.start + suc n ≡ h.start + 1 + n = omega arith in
            still_giving s.hands i idle (taking k u) (h.start + 1 + n) x mine (λ z. cc)
              (subst (λ cs. IsPlaced cs s.hands x (h.start + 1 + n)) (sym places)
                (subst (IsPlaced s.queue.connections s.hands x) shift
                  (h.written (suc n) x (ap (λ vs. get_elem? vs (suc n)) front ∙ e))));
      }
