-- ===== src/Router/Queue.antt =====
-- The free connections of the router as a queue: first in, first out.
use rinha.Prelude.{
  ℕ, zero, suc, ◌+◌, ◌-◌, ◌%◌, ◌^◌, ◌≤◌, ◌<◌, ◌≡◌, refl, ap, ap₂, ◌∙◌, ℤ, pos, add_int, add_int_id,
  ◌+ℤ◌, List, [], ◌∷◌, ◌++◌, some, length, get_or, set, arith, int_laws, get_or-set_ne,
  get_or-set_self, length-set, get_elem?-eq-get_or, write_at-lt, eq_of_parts,
}
use rinha.Router.{Available, minus_one, give_back, take_next}

-- The `n` entries from the place `i` of the ring on.
unfoldable pub window : List ℤ → ℕ → ℕ → List ℤ
window xs i zero = []
window xs i (suc n) = get_or xs (i % 1000) minus_one ∷ window xs (i + 1) n

-- The state in which the queue holds the connections between the two counters, neither of which has
-- come to the end of `int`.
pub record IsQueue (a : Available) (start n : ℕ) : Type 0 where
  pub places : length a.connections ≡ 1000
  pub starts : a.start_idx ≡ pos start
  pub ends : a.end_idx ≡ pos (start + n)
  pub few : n ≤ 1000
  pub small : start + n < 2 ^ 31 - 1

next_int : (n : ℕ) → n < 2 ^ 31 - 1 → add_int (pos n) (pos 1) ≡ pos (n + 1)
next_int n small =
    add_int_id (pos n) (pos 1) (omega int_laws)
    ∙ eq_of_parts (pos n +ℤ pos 1) (pos (n + 1)) (omega int_laws)

-- Another place of the ring does not change the entries before it.
window-set :
    (xs : List ℤ) (v : ℤ) (i n j : ℕ)
    → i + n ≤ j
    → j < i + 1000
    → window (set xs (j % 1000) v) i n ≡ window xs i n
unfolding window
window-set xs v i zero j before within = refl
window-set xs v i (suc n) j before within =
    ap₂ ◌∷◌ (get_or-set_ne xs (j % 1000) (i % 1000) v minus_one (omega arith))
      (window-set xs v (i + 1) n j (omega arith) (omega arith))

window-end :
    (xs : List ℤ) (i n : ℕ)
    → window xs i (suc n) ≡ window xs i n ++ (get_or xs ((i + n) % 1000) minus_one ∷ [])
unfolding window
window-end xs i zero = ap (λ k. get_or xs (k % 1000) minus_one ∷ []) (omega arith)
window-end xs i (suc n) = ap (◌∷◌ (get_or xs (i % 1000) minus_one)) (
    window-end xs (i + 1) n
    ∙ ap (λ k. window xs (i + 1) n ++ (get_or xs (k % 1000) minus_one ∷ [])) (omega arith))

-- A connection that is given back while fewer than all places are taken, and the counters fit an
-- `int`, comes last in the queue, and
-- the others keep their order.
pub give_back-window :
    (a : Available) (unix_fd : ℤ) (start n : ℕ)
    → IsQueue a start n
    → n < 1000
    → start + n + 1 < 2 ^ 31 - 1
    → (a' : Available) × (give_back a unix_fd ≡ some a')
      × IsQueue a' start (n + 1)
      × (window a'.connections start (n + 1) ≡ window a.connections start n ++ (unix_fd ∷ []))
unfolding give_back
give_back-window a unix_fd start n q room small = (
  record a {
    connections = set a.connections ((start + n) % 1000) unix_fd;
    end_idx = pos (start + n + 1);
  },
  rw
      (
        q.ends,
        write_at-lt a.connections ((start + n) % 1000) unix_fd (omega (arith, q.places)),
        next_int (start + n) q.small,
      )
      refl,
  record {
    places = length-set a.connections ((start + n) % 1000) unix_fd ∙ q.places;
    starts = q.starts;
    ends = ap pos (omega arith);
    few = omega arith;
    small = omega arith;
  },
  ap (window (set a.connections ((start + n) % 1000) unix_fd) start) (omega arith)
      ∙ window-end (set a.connections ((start + n) % 1000) unix_fd) start n
      ∙ ap₂ (λ s v. s ++ (v ∷ []))
          (window-set a.connections unix_fd start n (start + n) (omega arith) (omega arith))
          (get_or-set_self a.connections ((start + n) % 1000) unix_fd minus_one
            (omega (arith, q.places))),
)

-- While connections are free, and the counters fit an `int`, the next one that is taken is the first of the queue.
pub take_next-window :
    (a : Available) (unix_fd start n : ℕ) (rest : List ℤ)
    → IsQueue a start (suc n)
    → window a.connections start (suc n) ≡ pos unix_fd ∷ rest
    → (a' : Available) × (take_next a ≡ some (pos unix_fd, a'))
      × IsQueue a' (start + 1) n
      × (window a'.connections (start + 1) n ≡ rest)
unfolding take_next window
take_next-window a unix_fd start n rest q first =
    let here : get_or a.connections (start % 1000) minus_one ≡ pos unix_fd = cc in
    (
      record a { start_idx = pos (start + 1) },
      rw
          (
            q.starts,
            get_elem?-eq-get_or a.connections (start % 1000) minus_one (omega (arith, q.places)),
            here,
            next_int start (omega (arith, q.small)),
          )
          refl,
      record {
        places = q.places;
        starts = refl;
        ends = q.ends ∙ ap pos (omega arith);
        few = omega (arith, q.few);
        small = omega (arith, q.small);
      },
      cc,
    )
