-- ===== src/Router/Runs.antt =====
-- Any sequence of clients that come and go at the router.
use rinha.Prelude.{
  ℕ, suc, ◌+◌, ◌^◌, ◌≤◌, ◌<◌, ◌≡◌, refl, ap, subst, ◌∙◌, pos, Bool, Option, some, List, [], ◌∷◌,
  length, arith, ◌>>=◌,
}
use rinha.Router.{Router, destination}
use rinha.Router.Proxy.{
  Proxy, Event, Move, IsProxy, partner, count, count-partner, client_of-partner,
}
use rinha.Router.Moves.{Move-IsProxy}
use rinha.Router.Represents.{entry, Represents}
use rinha.Router.Simulates.{AreConnections, on_event, on_event-Represents}

-- The events, one behind the other.
unfoldable pub run : List Event → Router → Option Router
run [] r = some r
run (e ∷ es) r = on_event e r >>= run es

pub data Moves (us : List ℕ) (first : ℕ → Bool) : Proxy → List Event → Proxy → Type 0 where
  rests : (p : Proxy) → Moves us first p [] p
  moves :
      {p q p' : Proxy} {e : Event} {es : List Event}
      → Move us first p e q
      → Moves us first q es p'
      → Moves us first p (e ∷ es) p'

module _ (us : List ℕ) (first : ℕ → Bool) (conns : AreConnections us) where
  pub Represents-destination :
      (p : Proxy) (k : ℕ) (r : Router) (t u : ℕ)
      → IsProxy us first p
      → Represents us first p k r
      → t < 1000
      → partner p.pairs t ≡ some u
      → (destination (pos t) r ≡ some (pos u)) × (destination (pos u) r ≡ some (pos t))
  unfolding destination
  Represents-destination p k r t u v h small has =
      let one : 1 ≤ count u us = omega (arith, v.kept u, count-partner p.pairs t u has) in
      let there = h.tcp.holds t small ∙ ap (λ x. some (entry x)) has in
      let apart = h.tcp.holds u (conns.small u one) ∙ ap (λ x. some (entry x)) (v.apart u one) in
      let back =
        h.unix.holds u (conns.small u one)
        ∙ ap (λ x. some (entry x))
            (client_of-partner p.pairs t u has (omega (arith, v.kept u, conns.once u))) in
      (rw there refl, rw (apart, back) refl)

  -- From arrays that hold a state of the view, in which every connection stands in one place: whatever clients come
  -- and go, the code stops nowhere, and the arrays hold the state that the events make of the view, where every
  -- connection still stands in one place, the pair of a client or the queue of its server. The conditions, which are
  -- those of `Moves` and of the counters: the descriptor of a client that comes is below 1000 and neither that of
  -- another client nor of a connection, a connection to the server whose turn it is is free for it, a client
  -- that goes has come, and the counters fit an `int`.
  pub run-Represents :
      {p p' : Proxy} {es : List Event} (k : ℕ) (r : Router)
      → Moves us first p es p'
      → IsProxy us first p
      → Represents us first p k r
      → length us + (k + length es) + 1 < 2 ^ 31
      → (r' : Router) × (run es r ≡ some r')
        × Represents us first p' (k + length es) r'
        × IsProxy us first p'
  unfolding run
  run-Represents k r (rests p) v h early =
      let same : k ≡ k + length {A = Event} [] = omega arith in
      (r, refl, subst (λ n. Represents us first p n r) same h, v)
  run-Represents {p} {p'} k r (moves {es = es} first_one others) v h early =
      let later : k + 1 + length es ≡ k + suc (length es) = omega arith in
      let (r1, does, h1) = on_event-Represents us first conns k r first_one v h (omega arith) in
      let (r2, runs, h2, v2) =
        run-Represents (k + 1) r1 others (Move-IsProxy us first first_one v) h1 (omega arith) in
      (r2, rw does runs, subst (λ n. Represents us first p' n r2) later h2, v2)

  -- Under the same conditions, the messages of every client then go to its connection, and those of the
  -- connection to that client.
  pub run-destination :
      {p p' : Proxy} {es : List Event} (k : ℕ) (r : Router) (t u : ℕ)
      → Moves us first p es p'
      → IsProxy us first p
      → Represents us first p k r
      → length us + (k + length es) + 1 < 2 ^ 31
      → t < 1000
      → partner p'.pairs t ≡ some u
      → (r' : Router) × (run es r ≡ some r')
        × (destination (pos t) r' ≡ some (pos u))
        × (destination (pos u) r' ≡ some (pos t))
  run-destination {p} {p'} {es} k r t u others v h early small has =
      let (r', runs, h', v') = run-Represents k r others v h early in
      let (there, back) = Represents-destination p' (k + length es) r' t u v' h' small has in
      (r', runs, there, back)
