-- ===== src/Router/Pairing.antt =====
-- A client of the router and its connection: which way messages go, and what is left when it closes.
use rinha.Prelude.{
  ℕ, zero, suc, ◌+◌, ◌^◌, ◌<◌, ◌≡◌, ◌≢◌, refl, ap, ◌∙◌, ℤ, pos, add_int, Bool, true, false, not,
  List, [], ◌∷◌, ◌++◌, some, ◌>>=◌, length, get_elem?, set, arith, get_elem?-set_self,
  get_elem?-set_ne, length-set, set-set_self, write_at, write_at-lt,
}
use rinha.Router.{
  Available, Router, minus_one, is_none, is_even, give_back, take_next, assign, erase_from_maps,
  erase_tcp, destination,
}
use rinha.Router.Queue.{window, IsQueue, give_back-window, take_next-window}

-- The queue of the first server, or of the second.
abbrev pub held : Bool → Router → Available
held true r = r.available_1
held false r = r.available_2

abbrev pub with_held : Bool → Router → Available → Router
with_held true r a = record r { available_1 = a }
with_held false r a = record r { available_2 = a }

-- The router with a client and a connection that are associated.
abbrev pub joined : ℕ → ℕ → Router → Router
joined infd u r = record r {
  tcp_to_unix = set r.tcp_to_unix infd (pos u);
  unix_to_tcp = set r.unix_to_tcp u (pos infd);
  round_robin_counter = add_int r.round_robin_counter (pos 1);
}

-- A new client `infd` meets a free connection `u`: both have a place in the maps, and no partner.
pub record CanJoin (r : Router) (infd u : ℕ) : Type 0 where
  pub no_unix : get_elem? r.tcp_to_unix infd ≡ some minus_one
  pub no_tcp : get_elem? r.unix_to_tcp u ≡ some minus_one
  -- the connection is no client
  pub apart : get_elem? r.tcp_to_unix u ≡ some minus_one
  pub different : infd ≢ u

in_range : {A : Type 0} (xs : List A) (i : ℕ) {v : A} → get_elem? xs i ≡ some v → i < length xs
in_range [] i h = cc
in_range (x ∷ xs) zero h = omega arith
in_range (x ∷ xs) (suc i) h = omega (arith, in_range xs i h)

pub assign-held :
    (b : Bool) (r : Router) (infd u : ℕ) (a : Available)
    → is_even r.round_robin_counter ≡ b
    → take_next (held b r) ≡ some (pos u, a)
    → CanJoin r infd u
    → assign (pos infd) r ≡ some (with_held b (joined infd u r) a)
unfolding assign
assign-held true r infd u a even taken h =
    rw
      (
        even,
        taken,
        write_at-lt r.tcp_to_unix infd (pos u) (in_range r.tcp_to_unix infd h.no_unix),
        write_at-lt r.unix_to_tcp u (pos infd) (in_range r.unix_to_tcp u h.no_tcp),
      )
      refl
assign-held false r infd u a odd taken h =
    rw
      (
        odd,
        taken,
        write_at-lt r.tcp_to_unix infd (pos u) (in_range r.tcp_to_unix infd h.no_unix),
        write_at-lt r.unix_to_tcp u (pos infd) (in_range r.unix_to_tcp u h.no_tcp),
      )
      refl

client_entry :
    (r : Router) (infd u : ℕ)
    → CanJoin r infd u
    → get_elem? (set r.tcp_to_unix infd (pos u)) infd ≡ some (pos u)
client_entry r infd u h =
    get_elem?-set_self r.tcp_to_unix infd (pos u) (in_range r.tcp_to_unix infd h.no_unix)

no_client :
    (r : Router) (infd u : ℕ)
    → CanJoin r infd u
    → get_elem? (set r.tcp_to_unix infd (pos u)) u ≡ some minus_one
no_client r infd u h = get_elem?-set_ne r.tcp_to_unix infd u (pos u) h.different ∙ h.apart

to_client :
    (r : Router) (infd u : ℕ)
    → CanJoin r infd u
    → get_elem? (set r.unix_to_tcp u (pos infd)) u ≡ some (pos infd)
to_client r infd u h =
    get_elem?-set_self r.unix_to_tcp u (pos infd) (in_range r.unix_to_tcp u h.no_tcp)

joined_ways :
    (b : Bool) (r : Router) (infd u : ℕ) (a : Available)
    → CanJoin r infd u
    → (destination (pos infd) (with_held b (joined infd u r) a) ≡ some (pos u))
      × (destination (pos u) (with_held b (joined infd u r) a) ≡ some (pos infd))
unfolding destination
joined_ways true r infd u a h =
    rw (to_client r infd u h, client_entry r infd u h, no_client r infd u h) (refl, refl)
joined_ways false r infd u a h =
    rw (to_client r infd u h, client_entry r infd u h, no_client r infd u h) (refl, refl)

-- Where a connection is free in the queue whose turn it is, and neither it nor the new client has a
-- partner, the client gets the first connection of the queue; messages then go from the client to the
-- connection and from the connection back to the client.
assign-destination :
    (r : Router) (infd u start n : ℕ) (rest : List ℤ)
    → CanJoin r infd u
    → IsQueue (held (is_even r.round_robin_counter) r) start (suc n)
    → window (held (is_even r.round_robin_counter) r).connections start (suc n) ≡ pos u ∷ rest
    → (r' : Router) × (assign (pos infd) r ≡ some r')
      × (destination (pos infd) r' ≡ some (pos u))
      × (destination (pos u) r' ≡ some (pos infd))
assign-destination r infd u start n rest h q first =
    let (a, taken, _, _) =
      take_next-window (held (is_even r.round_robin_counter) r) u start n rest q first in
    let (there, back) = joined_ways (is_even r.round_robin_counter) r infd u a h in
    (
      with_held (is_even r.round_robin_counter) (joined infd u r) a,
      assign-held (is_even r.round_robin_counter) r infd u a refl taken h,
      there,
      back,
    )

-- A client that has a connection closes.
pub erase-held_partner :
    (b : Bool) (r : Router) (t u : ℕ) (a' : Available) (mark : ℤ)
    → get_elem? r.tcp_to_unix t ≡ some (pos u)
    → u < length r.unix_to_tcp
    → get_elem? r.connection_1_fds u ≡ some mark
    → not (is_none mark) ≡ b
    → give_back (held b r) (pos u) ≡ some a'
    → erase_from_maps (pos t) r
      ≡ some (
          with_held b
            (record r {
              tcp_to_unix = set r.tcp_to_unix t minus_one;
              unix_to_tcp = set r.unix_to_tcp u minus_one;
            })
            a')
unfolding erase_from_maps erase_tcp
erase-held_partner true r t u a' mark has room marked side back =
    rw
      (
        has,
        write_at-lt r.unix_to_tcp u minus_one room,
        write_at-lt r.tcp_to_unix t minus_one (in_range r.tcp_to_unix t has),
        marked,
        side,
        back,
      )
      refl
erase-held_partner false r t u a' mark has room marked side back =
    rw
      (
        has,
        write_at-lt r.unix_to_tcp u minus_one room,
        write_at-lt r.tcp_to_unix t minus_one (in_range r.tcp_to_unix t has),
        marked,
        side,
        back,
      )
      refl

-- The router after a client has come and gone.
abbrev pub served : Router → Router
served r = record r { round_robin_counter = add_int r.round_robin_counter (pos 1) }

maps_back :
    (r : Router) (infd u : ℕ)
    → CanJoin r infd u
    → (write_at (set r.unix_to_tcp u (pos infd)) u minus_one ≡ some r.unix_to_tcp)
      × (write_at (set r.tcp_to_unix infd (pos u)) infd minus_one ≡ some r.tcp_to_unix)
maps_back r infd u h =
    let unix = in_range r.unix_to_tcp u h.no_tcp in
    let tcp = in_range r.tcp_to_unix infd h.no_unix in
    (
      write_at-lt (set r.unix_to_tcp u (pos infd)) u minus_one
            (omega (arith, length-set r.unix_to_tcp u (pos infd)))
          ∙ ap some (set-set_self r.unix_to_tcp u (pos infd) minus_one h.no_tcp),
      write_at-lt (set r.tcp_to_unix infd (pos u)) infd minus_one
            (omega (arith, length-set r.tcp_to_unix infd (pos u)))
          ∙ ap some (set-set_self r.tcp_to_unix infd (pos u) minus_one h.no_unix),
    )

erase-held :
    (b : Bool) (r : Router) (infd u : ℕ) (a a' : Available) (mark : ℤ)
    → CanJoin r infd u
    → get_elem? r.connection_1_fds u ≡ some mark
    → not (is_none mark) ≡ b
    → give_back a (pos u) ≡ some a'
    → erase_from_maps (pos infd) (with_held b (joined infd u r) a)
      ≡ some (with_held b (served r) a')
unfolding erase_from_maps erase_tcp
erase-held true r infd u a a' mark h marked side back =
    let (unix, tcp) = maps_back r infd u h in
    rw (client_entry r infd u h, unix, tcp, marked, side, back) refl
erase-held false r infd u a a' mark h marked side back =
    let (unix, tcp) = maps_back r infd u h in
    rw (client_entry r infd u h, unix, tcp, marked, side, back) refl

-- A client without a partner that comes, gets a free connection and closes leaves both maps as they were, and its connection comes last in the
-- queue that it was taken from: the mark of the connection must name that queue, and the counters
-- must not be at the end of `int`.
pub assign-erase_from_maps :
    (r : Router) (infd u start n : ℕ) (rest : List ℤ) (mark : ℤ)
    → CanJoin r infd u
    → get_elem? r.connection_1_fds u ≡ some mark
    → not (is_none mark) ≡ is_even r.round_robin_counter
    → IsQueue (held (is_even r.round_robin_counter) r) start (suc n)
    → window (held (is_even r.round_robin_counter) r).connections start (suc n) ≡ pos u ∷ rest
    → start + n + 3 < 2 ^ 31
    → (a : Available) × ((assign (pos infd) r >>= erase_from_maps (pos infd))
        ≡ some (with_held (is_even r.round_robin_counter) (served r) a))
      × IsQueue a (start + 1) (n + 1)
      × (window a.connections (start + 1) (n + 1) ≡ rest ++ (pos u ∷ []))
assign-erase_from_maps r infd u start n rest mark h marked side q first small =
    let b = is_even r.round_robin_counter in
    let (a, taken, q1, left) = take_next-window (held b r) u start n rest q first in
    let (a', back, q2, window') =
      give_back-window a (pos u) (start + 1) n q1 (omega (arith, q.few)) (omega arith) in
    (
      a',
      ap (λ m. m >>= erase_from_maps (pos infd)) (assign-held b r infd u a refl taken h)
          ∙ erase-held b r infd u a a' mark h marked side back,
      q2,
      window' ∙ ap (λ s. s ++ (pos u ∷ [])) left,
    )
