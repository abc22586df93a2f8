-- ===== src/Router/Proxy.antt =====
-- What the router promises, without its arrays: clients and connections in pairs, and two queues of
-- free connections that new clients take in turn.
use rinha.Prelude.{
  ℕ, ◌+◌, ◌%◌, ◌≤◌, ◌<◌, ◌≡◌, refl, Bool, true, false, Option, none, some, List, [], ◌∷◌, ◌++◌,
  ◌==◌, if◌then◌else◌, length, arith,
}

abbrev pub count : ℕ → List ℕ → ℕ
count u [] = 0
count u (v ∷ vs) = (if v == u then 1 else 0) + count u vs

pub count-append : (u : ℕ) (xs ys : List ℕ) → count u (xs ++ ys) ≡ count u xs + count u ys
count-append u [] ys = omega arith
count-append u (x ∷ xs) ys = omega (arith, count-append u xs ys)

-- The connection of a client, and the client of a connection.
abbrev pub partner : List (ℕ × ℕ) → ℕ → Option ℕ
partner [] t = none
partner ((s, u) ∷ ps) t = if s == t then some u else partner ps t

abbrev pub client_of : List (ℕ × ℕ) → ℕ → Option ℕ
client_of [] u = none
client_of ((t, v) ∷ ps) u = if v == u then some t else client_of ps u

abbrev pub taken : List (ℕ × ℕ) → List ℕ
taken [] = []
taken ((t, u) ∷ ps) = u ∷ taken ps

abbrev pub leave : ℕ → List (ℕ × ℕ) → List (ℕ × ℕ)
leave t [] = []
leave t ((s, u) ∷ ps) = if s == t then ps else (s, u) ∷ leave t ps

-- No client stands in two pairs.
abbrev pub Distinct : List (ℕ × ℕ) → Type 0
Distinct [] = Unit {0}
Distinct ((t, u) ∷ ps) = (partner ps t ≡ none) × Distinct ps

pub client_of-none : (ps : List (ℕ × ℕ)) (u : ℕ) → count u (taken ps) ≡ 0 → client_of ps u ≡ none
client_of-none [] u h = refl
client_of-none ((t, v) ∷ ps) u h = ground (arith, client_of-none ps u)

pub count-partner : (ps : List (ℕ × ℕ)) (t u : ℕ) → partner ps t ≡ some u → 1 ≤ count u (taken ps)
count-partner [] t u h = cc
count-partner ((s, v) ∷ ps) t u h = ground (arith, count-partner ps t u)

pub client_of-partner :
    (ps : List (ℕ × ℕ)) (t u : ℕ)
    → partner ps t ≡ some u
    → count u (taken ps) ≤ 1
    → client_of ps u ≡ some t
client_of-partner [] t u h once = cc
client_of-partner ((s, v) ∷ ps) t u h once =
    ground (arith, client_of-partner ps t u, count-partner ps t u)

pub count-leave :
    (ps : List (ℕ × ℕ)) (t u v : ℕ)
    → partner ps t ≡ some u
    → count v (taken ps) ≡ count v (taken (leave t ps)) + (if u == v then 1 else 0)
count-leave [] t u v h = cc
count-leave ((s, w) ∷ ps) t u v h = ground (arith, count-leave ps t u v)

pub length-leave :
    (ps : List (ℕ × ℕ)) (t u : ℕ) → partner ps t ≡ some u → length ps ≡ length (leave t ps) + 1
length-leave [] t u h = cc
length-leave ((s, w) ∷ ps) t u h = ground (arith, length-leave ps t u)

pub partner-leave :
    (ps : List (ℕ × ℕ)) (t i : ℕ)
    → Distinct ps
    → partner (leave t ps) i ≡ (if t == i then none else partner ps i)
partner-leave [] t i d = ground arith
partner-leave ((s, w) ∷ ps) t i d = ground (arith, partner-leave ps t i)

pub client_of-leave :
    (ps : List (ℕ × ℕ)) (t u j : ℕ)
    → partner ps t ≡ some u
    → count u (taken ps) ≤ 1
    → client_of (leave t ps) j ≡ (if u == j then none else client_of ps j)
client_of-leave [] t u j h once = cc
client_of-leave ((s, w) ∷ ps) t u j h once =
    ground (arith, client_of-leave ps t u j, count-partner ps t u, client_of-none ps u)

pub leave-Distinct : (ps : List (ℕ × ℕ)) (t : ℕ) → Distinct ps → Distinct (leave t ps)
leave-Distinct [] t d = tt
leave-Distinct ((s, w) ∷ ps) t d = ground (arith, leave-Distinct ps t, partner-leave ps t s)

pub record Proxy : Type 0 where
  -- a client and its connection
  pub pairs : List (ℕ × ℕ)
  pub free_1 : List ℕ
  pub free_2 : List ℕ
  -- how many clients have come
  pub clients : ℕ

-- Whether the next client gets a connection to the first server.
abbrev pub turn : Proxy → Bool
turn p = p.clients % 2 == 0

abbrev pub free : Bool → Proxy → List ℕ
free true p = p.free_1
free false p = p.free_2

abbrev pub with_free : Bool → List ℕ → Proxy → Proxy
with_free true us p = record p { free_1 = us }
with_free false us p = record p { free_2 = us }

pub data Event : Type 0 where
  arrives leaves : ℕ → Event

-- What an event does, where `us` are the connections, and `first` tells which of them go to the first server.
pub data Move (us : List ℕ) (first : ℕ → Bool) : Proxy → Event → Proxy → Type 0 where
  -- a new client, whose descriptor is not in use, takes the first free connection of the server
  -- whose turn it is
  arrive :
      (p : Proxy) (t u : ℕ) (rest : List ℕ)
      → free (turn p) p ≡ u ∷ rest
      → partner p.pairs t ≡ none
      → count t us ≡ 0
      → t < 1000
      → Move us first p
          (arrives t)
          (record (with_free (turn p) rest p) { pairs = (t, u) ∷ p.pairs; clients = p.clients + 1 })
  -- a client closes, and its connection is free again, behind the others
  depart :
      (p : Proxy) (t u : ℕ)
      → t < 1000
      → partner p.pairs t ≡ some u
      → Move us first p (leaves t) (record (with_free (first u) (free (first u) p ++ (u ∷ [])) p) {
        pairs = leave t p.pairs;
        clients = p.clients;
      })

-- Every connection stands in one place: a pair or a queue, and the queue is that of its server.
pub record IsProxy (us : List ℕ) (first : ℕ → Bool) (p : Proxy) : Type 0 where
  pub kept : (u : ℕ) → count u (taken p.pairs) + count u p.free_1 + count u p.free_2 ≡ count u us
  pub total : length p.pairs + length p.free_1 + length p.free_2 ≡ length us
  pub sided : (b : Bool) (u : ℕ) → 1 ≤ count u (free b p) → first u ≡ b
  -- no connection is a client
  pub apart : (u : ℕ) → 1 ≤ count u us → partner p.pairs u ≡ none
  pub distinct : Distinct p.pairs
