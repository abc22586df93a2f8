-- ===== src/FromHttp/Positions.antt =====
-- Where the scans of from_http.cc stop, and what they read there. A place in the memory is given
-- by what stands from it on: `drop i mem ≡ …`.
use rinha.Prelude.{
  ℕ, IsDigit, value, zero, suc, ◌+◌, ◌*◌, ◌-◌, ◌≤◌, ◌≡◌, ◌≢◌, refl, ap, pos, true, some, [], ◌∷◌,
  ◌++◌, append_assoc, ◌>>=◌, Bytes, length, get_elem?, drop, All, arith, ne→==, npos, add_int,
  mul_int, wrap_int, ◌+ℤ◌, write_at-front, take-front, length-append, drop-front,
}
use rinha.FromHttp.{index_of, to_int_loop, copy_loop, View, chars, find_char}

pub get_elem?-drop :
    (mem : Bytes) (i : ℕ) {c : ℕ} {s : Bytes} → drop i mem ≡ c ∷ s → get_elem? mem i ≡ some c
get_elem?-drop [] zero h = cc
get_elem?-drop [] (suc i) h = cc
get_elem?-drop (x ∷ mem) zero h = cc
get_elem?-drop (x ∷ mem) (suc i) h = get_elem?-drop mem i h

pub drop_next :
    (mem : Bytes) (i : ℕ) {c : ℕ} {s : Bytes} → drop i mem ≡ c ∷ s → drop (i + 1) mem ≡ s
drop_next [] zero h = cc
drop_next [] (suc i) h = cc
drop_next (x ∷ mem) zero h = ground arith
drop_next (x ∷ mem) (suc i) h =
    let e : suc i + 1 ≡ suc (i + 1) = omega arith in rw e (drop_next mem i h)

pub drop-append :
    (s rest : Bytes) (i : ℕ) {r : Bytes}
    → i ≤ length s
    → drop i s ≡ r
    → drop i (s ++ rest) ≡ r ++ rest
drop-append s rest zero h e = ap (λ t. t ++ rest) e
drop-append [] rest (suc i) h e = absurd (omega arith)
drop-append (x ∷ s) rest (suc i) h e = drop-append s rest i (omega arith) e

drop-nil : (k : ℕ) → drop {A = ℕ} k [] ≡ []
drop-nil zero = refl
drop-nil (suc k) = refl

pub drop-drop : (s : Bytes) (i k : ℕ) → drop (i + k) s ≡ drop k (drop i s)
drop-drop s zero k = ap (λ n. drop n s) (omega arith)
drop-drop [] (suc i) k = rw (drop-nil k, drop-nil (suc i + k))
drop-drop (x ∷ s) (suc i) k =
    let e : suc i + k ≡ suc (i + k) = omega arith in rw e (drop-drop s i k)

-- What stands behind a piece.
pub drop_behind :
    (s : Bytes) (i : ℕ) (xs : Bytes) {ys : Bytes} (j : ℕ)
    → drop i s ≡ xs ++ ys
    → j ≡ i + length xs
    → drop j s ≡ ys
drop_behind s i xs {ys} j h e =
    rw (e, drop-drop s i (length xs), h) (drop-front xs ys (length xs) refl)

-- `find` stops at the first occurrence.
pub index_of-front :
    (c : ℕ) (xs ys : Bytes) → All (λ x. x ≢ c) xs → index_of c (xs ++ c ∷ ys) ≡ some (length xs)
index_of-front c [] ys h = ground arith
index_of-front c (x ∷ xs) ys h =
    rw (ne→== x c h.0, index_of-front c xs ys h.1) (ap some (omega arith))

-- A front without the character is passed over.
pub index_of-skip :
    (c : ℕ) (xs ys : Bytes)
    → All (λ x. x ≢ c) xs
    → index_of c (xs ++ ys) ≡ (index_of c ys >>= λ k. some (length xs + k))
index_of-skip c [] ys h = ground arith
index_of-skip c (x ∷ xs) ys h = rw (ne→== x c h.0, index_of-skip c xs ys h.1) (ground arith)

-- The text of a view, and the memory behind it.
abbrev pub view_of : Bytes → Bytes → View
view_of text rest = record { mem = text ++ rest; size = length text }

pub chars-view_of : (text rest : Bytes) → chars (view_of text rest) ≡ text
chars-view_of text rest = take-front text rest (length text) refl

pub find_char-front :
    (c : ℕ) (text rest : Bytes) (from : ℕ) (xs ys : Bytes)
    → drop from text ≡ xs ++ c ∷ ys
    → All (λ x. x ≢ c) xs
    → find_char (view_of text rest) c from ≡ from + length xs
find_char-front c text rest from xs ys at clean =
    rw (chars-view_of text rest, at, index_of-front c xs ys clean)

pub find_char-ge :
    (c : ℕ) (text rest : Bytes) (from : ℕ) (xs ys : Bytes)
    → drop from text ≡ xs ++ ys
    → All (λ x. x ≢ c) xs
    → from + length xs ≤ npos
    → from + length xs ≤ find_char (view_of text rest) c from
find_char-ge c text rest from xs ys at clean small =
    rw (chars-view_of text rest, at, index_of-skip c xs ys clean) (ground arith)

-- A digit more, in the arithmetic of an `int`.
next_value :
    (n d : ℕ)
    → d ≤ 9
    → add_int (mul_int (wrap_int (pos n)) 10) (pos d) ≡ wrap_int (pos (n * 10 + d))
unfolding add_int mul_int wrap_int ◌+ℤ◌
next_value n d few = ground arith

-- The loop of `SubstringToInt` reads digits into their number, which wraps around.
pub to_int_loop-digits :
    (mem : Bytes) (i n : ℕ) (ds rest : Bytes)
    → drop i mem ≡ ds ++ rest
    → All IsDigit ds
    → to_int_loop mem (length ds) i (wrap_int (pos n)) ≡ some (true, wrap_int (pos (value n ds)))
unfolding to_int_loop
to_int_loop-digits mem i n [] rest at all = refl
to_int_loop-digits mem i n (d ∷ ds) rest at all =
    rw
      (
        get_elem?-drop mem i at,
        next_value n (d - b'0') (omega (arith, all.0)),
        to_int_loop-digits mem (i + 1) (n * 10 + (d - b'0')) ds rest (drop_next mem i at) all.1,
      )
      (ground arith)

-- The copy loop overwrites as many bytes of the array as it has rounds.
pub copy_loop-piece :
    (mem : Bytes) (i start : ℕ) (cs rest front old back : Bytes)
    → drop i mem ≡ cs ++ rest
    → i ≡ start + length front
    → length old ≡ length cs
    → copy_loop mem (length cs) i start (front ++ (old ++ back)) ≡ some (front ++ (cs ++ back))
unfolding copy_loop
copy_loop-piece mem i start [] rest front [] back at place same = refl
copy_loop-piece mem i start [] rest front (o ∷ old) back at place same = absurd (omega arith)
copy_loop-piece mem i start (c ∷ cs) rest front [] back at place same = absurd (omega arith)
copy_loop-piece mem i start (c ∷ cs) rest front (o ∷ old) back at place same =
    rw
      (
        get_elem?-drop mem i at,
        write_at-front front (old ++ back) o c (i - start) (omega arith),
        ← append_assoc front (c ∷ []) (old ++ back),
        ← append_assoc front (c ∷ []) (cs ++ back),
      )
      (copy_loop-piece mem (i + 1) start cs rest (front ++ c ∷ []) old back (drop_next mem i at)
        (omega (arith, length-append front (c ∷ []))) (omega arith))
