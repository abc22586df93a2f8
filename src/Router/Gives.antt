-- ===== src/Router/Gives.antt =====
-- A thread that gives a connection back loses none.
use rinha.Prelude.{
  ℕ, ◌+◌, ◌%◌, ◌^◌, ◌≤◌, ◌<◌, ◌≡◌, refl, sym, ap, subst, ◌∙◌, inl, inr, pos, some, List, [], ◌∷◌,
  ◌++◌, length, length-set, length-append, get_elem?, get_elem?-set_self, get_elem?-set_ne,
  get_elem?-front, set, arith,
}
use native.Mathlib.Decide.{ℕ_discrete}
use rinha.Router.{Available}
use rinha.Router.Proxy.{count, count-append}
use rinha.Router.Tickets.{
  Tickets, idle, taking, giving, remove, NotOvertaken, IsKept, count_end, write_place,
}
use rinha.Router.Errands.{
  count-promised, length-promised, count-remove, length-remove, hand_cases, still_giving, in_range,
}
use rinha.Router.Places.{
  count_end-eq, write_place-eq, IsPlaced, snoc_entry, get_elem?-append_left, set-IsPlaced,
}

module _ (us : List ℕ) (many : length us ≤ 1000) where
  pub counts_end-IsKept :
      (s : Tickets) (i k u : ℕ) (q : Available)
      → get_elem? s.hands i ≡ some idle
      → 1 ≤ count u s.used
      → count_end s.queue ≡ (pos k, q)
      → NotOvertaken s.hands k
      → k + 1 < 2 ^ 31
      → IsKept us s
      → IsKept us (record s {
        queue = q;
        hands = set s.hands i (giving k u);
        used = remove u s.used;
        free = s.free ++ (u ∷ []);
      })
  counts_end-IsKept s i k u q mine has counts near_all small h =
      let (same, next) = count_end-eq s.queue (h.start + length s.free) k q h.ends small counts in
      let places : q.connections ≡ s.queue.connections =
        ap (λ (a : Available). a.connections) next in
      let longer = length-append s.free (u ∷ []) in
      record {
        start = h.start;
        places = ap length places ∙ h.places;
        starts = ap (λ (a : Available). a.start_idx) next ∙ h.starts;
        ends = ap (λ (a : Available). a.end_idx) next ∙ ap pos (omega (arith, longer));
        kept = λ x. omega (
          arith,
          count-promised s.hands i x idle (giving k u) mine,
          h.kept x,
          count-remove u x s.used has,
          count-append x s.free (u ∷ []),
        );
        total = omega (
          arith,
          length-promised s.hands i idle (giving k u) mine,
          h.total,
          length-remove u s.used has,
          longer,
        );
        to_take = λ j k' u' e. elim (hand_cases s.hands i j (giving k u) (taking k' u') e) [
          | inl (_, no_hand) ↦ cc
          | inr other ↦
              let (before, near, place) = h.to_take j k' u' other in
              (
                before,
                omega (arith, same, longer, near_all j k' u' other),
                ap (λ cs. get_elem? cs (k' % 1000)) places ∙ place,
              )
        ];
        to_give = λ j k' u' e. elim (hand_cases s.hands i j (giving k u) (giving k' u') e) [
          | inl (_, it) ↦
              let this : k ≡ k' = cc in
              let conn : u ≡ u' = cc in
              (
                length s.free,
                omega (arith, this, same),
                get_elem?-front s.free [] u (length s.free) refl ∙ ap some conn,
              )
          | inr other ↦
              let (n, at, given) = h.to_give j k' u' other in
              (n, at, get_elem?-append_left n s.free (u ∷ []) given)
        ];
        written = λ n x e. elim (snoc_entry n u x s.free e) [
          | inl inside ↦
              still_giving s.hands i idle (giving k u) (h.start + n) x mine (λ z. cc)
                (subst (λ cs. IsPlaced cs s.hands x (h.start + n)) (sym places)
                  (h.written n x inside))
          | inr (last, conn) ↦
              let this : k ≡ h.start + n = omega (arith, same, last) in
              inr (
                i,
                get_elem?-set_self s.hands i (giving k u) (in_range s.hands i mine)
                    ∙ ap (λ y. some (giving y u)) this
                    ∙ ap (λ y. some (giving (h.start + n) y)) conn,
              )
        ];
      }

  pub writes-IsKept :
      (s : Tickets) (i k u : ℕ) (q : Available)
      → get_elem? s.hands i ≡ some (giving k u)
      → write_place s.queue (pos k) (pos u) ≡ some q
      → IsKept us s
      → IsKept us (record s { queue = q; hands = set s.hands i idle })
  writes-IsKept s i k u q mine wrote h =
      let next = write_place-eq s.queue k u q h.places wrote in
      let places : q.connections ≡ set s.queue.connections (k % 1000) (pos u) =
        ap (λ (a : Available). a.connections) next in
      let (n, at, given) = h.to_give i k u mine in
      let inside = in_range s.free n given in
      record {
        start = h.start;
        places = ap length places ∙ length-set s.queue.connections (k % 1000) (pos u) ∙ h.places;
        starts = ap (λ (a : Available). a.start_idx) next ∙ h.starts;
        ends = ap (λ (a : Available). a.end_idx) next ∙ h.ends;
        kept = λ x. omega (arith, count-promised s.hands i x (giving k u) idle mine, h.kept x);
        total = omega (arith, length-promised s.hands i (giving k u) idle mine, h.total);
        to_take = λ j k' u' e. elim (hand_cases s.hands i j idle (taking k' u') e) [
          | inl (_, no_hand) ↦ cc
          | inr other ↦
              let (before, near, place) = h.to_take j k' u' other in
              (
                before,
                near,
                ap (λ cs. get_elem? cs (k' % 1000)) places
                    ∙ get_elem?-set_ne s.queue.connections (k % 1000) (k' % 1000) (pos u)
                        (λ z. absurd (omega (arith, before, near, at, inside)))
                    ∙ place,
              )
        ];
        to_give = λ j k' u' e. elim (hand_cases s.hands i j idle (giving k' u') e) [
          | inl (_, no_hand) ↦ cc
          | inr other ↦ h.to_give j k' u' other
        ];
        written = λ m x e. elim (ℕ_discrete m n) [
          | yes it ↦
              let entry : some x ≡ some u = sym e ∙ ap (get_elem? s.free) it ∙ given in
              let conn : u ≡ x = cc in
              let this : h.start + m ≡ k = omega (arith, at, it) in
              inl (
                ap (λ j. get_elem? q.connections (j % 1000)) this
                ∙ ap (λ cs. get_elem? cs (k % 1000)) places
                ∙ get_elem?-set_self s.queue.connections (k % 1000) (pos u)
                    (omega (arith, h.places))
                ∙ ap (λ y. some (pos y)) conn)
          | no apart ↦
              still_giving s.hands i (giving k u) idle (h.start + m) x mine
                (λ (z : giving k u ≡ giving (h.start + m) x).
                  let this : k ≡ h.start + m = cc in apart (omega (arith, at, this)))
                (subst (λ cs. IsPlaced cs s.hands x (h.start + m)) (sym places)
                  (set-IsPlaced s.queue.connections s.hands k (h.start + m) u x
                    (λ z. apart (omega (arith, at, inside, in_range s.free m e, h.total, many, z)))
                    (h.written m x e)))
        ];
      }
