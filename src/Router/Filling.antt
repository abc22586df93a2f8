-- ===== src/Router/Filling.antt =====
-- The loop of `InitializeThreadPool` that opens the first connections.
use rinha.Prelude.{
  ℕ, zero, suc, ◌+◌, ◌^◌, ◌≤◌, ◌<◌, ◌≡◌, refl, sym, ap, subst, ◌∙◌, ℤ, pos, Bool, true, false, not,
  Option, none, some, List, [], ◌∷◌, ◌++◌, ◌==◌, if◌then◌else◌, length, length-append, length-set,
  get_elem?, set, arith,
}
use rinha.Prelude
use rinha.Prelude.Stateful.{◌>>=◌, >>=-some}
use rinha.Os.{Os}
use rinha.Router.{Available, Router}
use rinha.Router.Proxy.{count, count-append}
use rinha.Router.Represents.{HoldsQueue, get_elem?-set}
use rinha.Router.Opening.{Grants, IsOpening, marked, create-marked, add_free-HoldsQueue}
use rinha.Router.Loop.{
  State, change, create_unix_connection_and_add_to_epoll, open_connections, add_free,
}

abbrev free_first : ℕ → Router → Option Router
free_first u r = Prelude.◌>>=◌ (add_free u r.available_1) λ a. some (record r { available_1 = a })

abbrev free_second : ℕ → Router → Option Router
free_second u r = Prelude.◌>>=◌ (add_free u r.available_2) λ a. some (record r { available_2 = a })

pub fresh_once :
    (x u : ℕ) (before after : List ℕ)
    → after ≡ u ∷ before
    → count u before ≡ 0
    → count x before ≤ 1
    → count x after ≤ 1
fresh_once x u before after grown fresh once = ground (arith, ap (count x) grown)

pub IsOpening-first :
    {vs us : List ℕ} {r : Router} (u : ℕ) (a : Available)
    → u < 1000
    → HoldsQueue a (vs ++ (u ∷ [])) (length (vs ++ (u ∷ [])))
    → IsOpening vs us r
    → IsOpening (vs ++ (u ∷ [])) us (record (marked true u r) { available_1 = a })
IsOpening-first {vs} {us} {r} u a small q o = record {
  tcp = o.tcp;
  unix = o.unix;
  mark_places = length-set r.connection_1_fds u (pos 1) ∙ o.mark_places;
  marks = λ x inside. ground (
    arith,
    get_elem?-set r.connection_1_fds u x (pos 1),
    o.mark_places,
    o.marks x inside,
    count-append x vs (u ∷ []),
  );
  queue_1 = q;
  queue_2 = o.queue_2;
  turns = o.turns;
}

pub IsOpening-second :
    {vs us : List ℕ} {r : Router} (u : ℕ) (a : Available)
    → HoldsQueue a (us ++ (u ∷ [])) (length (us ++ (u ∷ [])))
    → IsOpening vs us r
    → IsOpening vs (us ++ (u ∷ [])) (record r { available_2 = a })
IsOpening-second u a q o = record {
  tcp = o.tcp;
  unix = o.unix;
  mark_places = o.mark_places;
  marks = o.marks;
  queue_1 = o.queue_1;
  queue_2 = q;
  turns = o.turns;
}

module _ {W : Type 0} (os : Os W) (grants : Grants os) where
  open grants use {opened}

  -- The connections that were opened are different descriptors that are in use.
  pub record Opened (vs us : List ℕ) (s : State W) : Type 0 where
    pub arrays : IsOpening vs us s.router
    pub in_use : (u : ℕ) → count u vs + count u us ≤ count u (opened s.world)
    pub once : (u : ℕ) → count u (opened s.world) ≤ 1
    pub small : (u : ℕ) → 1 ≤ count u vs + count u us → u < 1000

  open_first :
      {vs us : List ℕ} (epoll_fd : ℕ) (s : State W)
      → Opened vs us s
      → length vs < 1000
      → length (opened s.world) < 1000
      → (u : ℕ) × (s1 : State W) × (a : Available) × (create_unix_connection_and_add_to_epoll os
            epoll_fd true s
          ≡ some (u, s1))
        × (add_free u s1.router.available_1 ≡ some a)
        × Opened (vs ++ (u ∷ [])) us (record s1 { router = record (s1.router) { available_1 = a } })
        × (length (opened s1.world) ≡ length (opened s.world) + 1)
  open_first {vs} {us} epoll_fd s o few room =
      let (u, w, makes, fresh, small, grown) =
        create-marked os grants epoll_fd true s o.arrays.mark_places room in
      let (a, adds, q) = add_free-HoldsQueue s.router.available_1 vs u o.arrays.queue_1 few in
      (
        u,
        record { router = marked true u s.router; world = w },
        a,
        makes,
        adds,
        record {
          arrays = IsOpening-first u a small q o.arrays;
          small = λ x h. ground (arith, count-append x vs (u ∷ []), o.small x);
          in_use = λ x.
              ground (arith, count-append x vs (u ∷ []), ap (count x) grown, o.in_use x, o.once x);
          once = λ x. fresh_once x u (opened s.world) (opened w) grown fresh (o.once x);
        },
        omega (arith, ap length grown),
      )

  open_second :
      {vs us : List ℕ} (epoll_fd : ℕ) (s : State W)
      → Opened vs us s
      → length us < 1000
      → length (opened s.world) < 1000
      → (u : ℕ) × (s1 : State W) × (a : Available) × (create_unix_connection_and_add_to_epoll os
            epoll_fd false s
          ≡ some (u, s1))
        × (add_free u s1.router.available_2 ≡ some a)
        × Opened vs (us ++ (u ∷ [])) (record s1 { router = record (s1.router) { available_2 = a } })
        × (length (opened s1.world) ≡ length (opened s.world) + 1)
  open_second {vs} {us} epoll_fd s o few room =
      let (u, w, makes, fresh, small, grown) =
        create-marked os grants epoll_fd false s o.arrays.mark_places room in
      let (a, adds, q) = add_free-HoldsQueue s.router.available_2 us u o.arrays.queue_2 few in
      (
        u,
        record { router = s.router; world = w },
        a,
        makes,
        adds,
        record {
          arrays = IsOpening-second u a q o.arrays;
          small = λ x h. ground (arith, count-append x us (u ∷ []), o.small x);
          in_use = λ x.
              ground (arith, count-append x us (u ∷ []), ap (count x) grown, o.in_use x, o.once x);
          once = λ x. fresh_once x u (opened s.world) (opened w) grown fresh (o.once x);
        },
        omega (arith, ap length grown),
      )

  -- A change of the arrays that works.
  change-some :
      (f : Router → Option Router) (s : State W) (r : Router)
      → f s.router ≡ some r
      → change os f s ≡ some (tt, record s { router = r })
  change-some f s r e = rw e refl

  round_runs :
      (n epoll_fd : ℕ) (s s1 t1 s2 t2 : State W) (u v : ℕ)
      → create_unix_connection_and_add_to_epoll os epoll_fd true s ≡ some (u, s1)
      → change os (free_first u) s1 ≡ some (tt, t1)
      → create_unix_connection_and_add_to_epoll os epoll_fd false t1 ≡ some (v, s2)
      → change os (free_second v) s2 ≡ some (tt, t2)
      → open_connections os (suc n) epoll_fd s ≡ open_connections os n epoll_fd t2
  unfolding open_connections
  round_runs n epoll_fd s s1 t1 s2 t2 u v makes adds makes2 adds2 =
      let last = λ (x : Unit {0}). open_connections os n epoll_fd in
      let third = λ (x : ℕ). change os (free_second x) >>= last in
      let second =
        λ (x : Unit {0}). create_unix_connection_and_add_to_epoll os epoll_fd false >>= third in
      let first = λ (x : ℕ). change os (free_first x) >>= second in
      >>=-some (create_unix_connection_and_add_to_epoll os epoll_fd true) first {w = s} makes
      ∙ >>=-some (change os (free_first u)) second {w = s1} adds
      ∙ >>=-some (create_unix_connection_and_add_to_epoll os epoll_fd false) third {w = t1} makes2
      ∙ >>=-some (change os (free_second v)) last {w = s2} adds2

  -- `n` rounds open `n` connections to each server.
  pub open_connections-Opened :
      (n epoll_fd : ℕ) (vs us : List ℕ) (s : State W)
      → Opened vs us s
      → length vs + n ≤ 1000
      → length us + n ≤ 1000
      → length (opened s.world) + (n + n) ≤ 1000
      → (vs' : List ℕ) × (us' : List ℕ) × (s' : State W) × (open_connections os n epoll_fd s
          ≡ some (tt, s'))
        × Opened vs' us' s'
        × (length vs' ≡ length vs + n)
        × (length us' ≡ length us + n)
        × (length (opened s'.world) ≡ length (opened s.world) + (n + n))
  unfolding open_connections
  open_connections-Opened zero epoll_fd vs us s o first second room =
      (vs, us, s, refl, o, omega arith, omega arith, omega arith)
  open_connections-Opened (suc n) epoll_fd vs us s o first second room =
      let (u, s1, a, makes, adds, o1, grown) =
        open_first epoll_fd s o (omega arith) (omega arith) in
      let t1 : State W = record s1 { router = record (s1.router) { available_1 = a } } in
      let (v, s2, b, makes2, adds2, o2, grown2) =
        open_second epoll_fd t1 o1 (omega arith) (omega (arith, grown)) in
      let t2 : State W = record s2 { router = record (s2.router) { available_2 = b } } in
      let vs1 = length-append vs (u ∷ []) in
      let us1 = length-append us (v ∷ []) in
      let (vs', us', s', runs, o', more, more2, room') =
        open_connections-Opened n epoll_fd (vs ++ (u ∷ [])) (us ++ (v ∷ [])) t2 o2
          (omega (arith, vs1)) (omega (arith, us1)) (omega (arith, grown, grown2)) in
      (
        vs',
        us',
        s',
        round_runs n epoll_fd s s1 t1 s2 t2 u v makes
              (change-some (free_first u) s1 t1.router (rw adds refl)) makes2
              (change-some (free_second v) s2 t2.router (rw adds2 refl))
            ∙ runs,
        o',
        omega (arith, more, vs1),
        omega (arith, more2, us1),
        omega (arith, room', grown, grown2),
      )
