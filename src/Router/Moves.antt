-- ===== src/Router/Moves.antt =====
-- Every event of the router leaves every connection in one place.
use rinha.Prelude.{
  ℕ, ◌+◌, ◌≤◌, ◌≡◌, refl, ap, Bool, true, false, none, some, List, [], ◌∷◌, ◌++◌, length,
  length-append, arith,
}
use rinha.Router.Proxy.{
  Proxy, Event, Move, arrive, depart, IsProxy, turn, free, with_free, partner, leave, count,
  count-append, count-leave, length-leave, partner-leave, leave-Distinct,
}

free-with_free : (b : Bool) (us : List ℕ) (p : Proxy) → free b (with_free b us p) ≡ us
free-with_free true us p = refl
free-with_free false us p = refl

-- A queue in place of the one of a server, in what all queues hold.
count-with_free :
    (b : Bool) (x : ℕ) (vs : List ℕ) (p : Proxy)
    → count x (with_free b vs p).free_1 + count x (with_free b vs p).free_2 + count x (free b p)
      ≡ count x p.free_1 + count x p.free_2 + count x vs
count-with_free true x vs p = omega arith
count-with_free false x vs p = omega arith

length-with_free :
    (b : Bool) (vs : List ℕ) (p : Proxy)
    → length (with_free b vs p).free_1 + length (with_free b vs p).free_2 + length (free b p)
      ≡ length p.free_1 + length p.free_2 + length vs
length-with_free true vs p = omega arith
length-with_free false vs p = omega arith

-- Each queue holds connections of its server.
abbrev Sided : (ℕ → Bool) → Proxy → Type 0
Sided first p = (b : Bool) (u : ℕ) → 1 ≤ count u (free b p) → first u ≡ b

with_free-Sided :
    (first : ℕ → Bool) (b : Bool) (vs : List ℕ) (p : Proxy)
    → Sided first p
    → ((u : ℕ) → 1 ≤ count u vs → first u ≡ b)
    → Sided first (with_free b vs p)
with_free-Sided first true vs p old new true u h = new u h
with_free-Sided first true vs p old new false u h = old false u h
with_free-Sided first false vs p old new true u h = old true u h
with_free-Sided first false vs p old new false u h = new u h

with_pairs-Sided :
    (first : ℕ → Bool) (p : Proxy) (ps : List (ℕ × ℕ)) (n : ℕ)
    → Sided first p
    → Sided first (record p { pairs = ps; clients = n })
with_pairs-Sided first p ps n old true u h = old true u h
with_pairs-Sided first p ps n old false u h = old false u h

snoc-sided :
    (first : ℕ → Bool) (b : Bool) (vs : List ℕ) (u x : ℕ)
    → ((x : ℕ) → 1 ≤ count x vs → first x ≡ b)
    → first u ≡ b
    → 1 ≤ count x (vs ++ (u ∷ []))
    → first x ≡ b
snoc-sided first b vs u x old new h = ground (arith, old x, count-append x vs (u ∷ []))

module _ (us : List ℕ) (first : ℕ → Bool) where
  arrived-IsProxy :
      (b : Bool) (p : Proxy) (t u : ℕ) (rest : List ℕ)
      → free b p ≡ u ∷ rest
      → partner p.pairs t ≡ none
      → count t us ≡ 0
      → IsProxy us first p
      → IsProxy us first
          (record (with_free b rest p) { pairs = (t, u) ∷ p.pairs; clients = p.clients + 1 })
  arrived-IsProxy b p t u rest front alone no_conn v = record {
    kept = λ x. omega (arith, count-with_free b x rest p, ap (count x) front, v.kept x);
    total = omega (arith, length-with_free b rest p, ap length front, v.total);
    sided =
        with_pairs-Sided first (with_free b rest p) ((t, u) ∷ p.pairs) (p.clients + 1)
          (with_free-Sided first b rest p v.sided (λ x h. v.sided b x (rw front (omega arith))));
    apart = λ x h. ground (arith, v.apart x h);
    distinct = (alone, v.distinct);
  }

  departed-IsProxy :
      (p : Proxy) (t u : ℕ)
      → partner p.pairs t ≡ some u
      → IsProxy us first p
      → IsProxy us first (record (with_free (first u) (free (first u) p ++ (u ∷ [])) p) {
        pairs = leave t p.pairs;
        clients = p.clients;
      })
  departed-IsProxy p t u has v =
      let b = first u in
      let vs : List ℕ = free b p ++ (u ∷ []) in
      record {
        kept = λ x. omega (
          arith,
          count-with_free b x vs p,
          count-append x (free b p) (u ∷ []),
          count-leave p.pairs t u x has,
          v.kept x,
        );
        total = omega (
          arith,
          length-with_free b vs p,
          length-append (free b p) (u ∷ []),
          length-leave p.pairs t u has,
          v.total,
        );
        sided = with_pairs-Sided first (with_free b vs p) (leave t p.pairs) p.clients (
            with_free-Sided first b vs p v.sided
              (λ x h. snoc-sided first b (free b p) u x (v.sided b) refl h));
        apart = λ x h. ground (arith, partner-leave p.pairs t x v.distinct, v.apart x h);
        distinct = leave-Distinct p.pairs t v.distinct;
      }

  -- Every event leaves every connection in one place.
  pub Move-IsProxy :
      {p p' : Proxy} {e : Event} → Move us first p e p' → IsProxy us first p → IsProxy us first p'
  Move-IsProxy (arrive p t u rest front alone no_conn small) v =
      arrived-IsProxy (turn p) p t u rest front alone no_conn v
  Move-IsProxy (depart p t u small has) v = departed-IsProxy p t u has v
