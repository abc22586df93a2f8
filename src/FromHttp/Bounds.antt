-- ===== src/FromHttp/Bounds.antt =====
-- Which memory `ParseJsonBody` reads: with eleven bytes of the array behind the text it stays in the array,
-- whatever the text is.
use rinha.Prelude.{
  ℕ, zero, suc, ◌+◌, ◌-◌, ◌^◌, ◌≤◌, ◌<◌, ◌≡◌, refl, ◌∙◌, inl, inr, ℤ, pos, mul_int, add_int,
  neg_int, Bool, true, false, not, ◌&&◌, ◌||◌, Option, some, Bytes, ltb, ◌==◌, length,
  length-append, get_elem?-lt, arith, npos, add_size, sub_size, Bool-cases, write_at-lt, set,
  length-set,
}
use rinha.Structs.{Transaction}
use rinha.FromHttp.{
  View, find_char, to_int_loop, substring_to_int, copy_loop, copy_description, parse_description,
  parse_tipo, parse_json_body,
}
use rinha.FromHttp.Positions.{view_of}
use rinha.FromHttp.Accepts.{find_char-split}
use rinha.FromHttp.Pieces.{inside}

to_int_loop-some :
    (mem : Bytes) (n i : ℕ) (x : ℤ)
    → i + n ≤ length mem
    → (r : Bool × ℤ) × (to_int_loop mem n i x ≡ some r)
unfolding to_int_loop
to_int_loop-some mem zero i x h = ((true, x), refl)
to_int_loop-some mem (suc n) i x h =
    let (c, at) = get_elem?-lt mem i (omega arith) in
    let (r, rest) =
      to_int_loop-some mem n (i + 1) (add_int (mul_int x 10) (pos (c - b'0'))) (omega arith) in
    elim (Bool-cases (ltb c b'0' || ltb b'9' c)) [
      | inl other ↦ ((false, x), rw (at, other))
      | inr digit ↦ (r, rw (at, digit) rest)
    ]

copy_loop-some :
    (mem : Bytes) (n i start : ℕ) (d : Bytes)
    → start ≤ i
    → i + n ≤ length mem
    → i - start + n ≤ length d
    → (d' : Bytes) × (copy_loop mem n i start d ≡ some d') × (length d' ≡ length d)
unfolding copy_loop
copy_loop-some mem zero i start d after h room = (d, refl, refl)
copy_loop-some mem (suc n) i start d after h room =
    let (c, at) = get_elem?-lt mem i (omega arith) in
    let written = write_at-lt d (i - start) c (omega arith) in
    let (d', rest, same) =
      copy_loop-some mem n (i + 1) start (set d (i - start) c) (omega arith) (omega arith)
        (omega (arith, length-set d (i - start) c)) in
    (d', rw (at, written) rest, same ∙ length-set d (i - start) c)

-- A call that returns, and leaves the array of the description its size.
abbrev pub Returns : Option (Bool × Transaction) → Type 0
Returns m = (r : Bool × Transaction) × (m ≡ some r) × (length r.1.description ≡ 11)

module _ (text rest : Bytes) (small : length text < 2 ^ 32) (margin : 11 ≤ length rest) where
  abbrev body : View
  body = view_of text rest

  mem_length : length body.mem ≡ length text + length rest
  mem_length = length-append text rest

  -- Where a character was found: inside the text.
  found_at :
      (c from : ℕ)
      → (find_char body c from == npos) ≡ false
      → (from ≤ find_char body c from) × (find_char body c from < length text)
  found_at c from found =
      let (xs, ys, at, _, place) = find_char-split c text rest from found in
      (omega (arith, place), omega (arith, place, inside text xs ys c from at))

  copy_description-Returns :
      (start end : ℕ) (t : Transaction)
      → start ≤ end
      → end < length text
      → sub_size end start ≤ 10
      → length t.description ≡ 11
      → Returns (copy_description body start end t)
  unfolding copy_description
  copy_description-Returns start end t order inside_text short room =
      let (d, copied, same) =
        copy_loop-some body.mem (end - start) start start t.description (omega arith)
          (omega (arith, mem_length)) (omega arith) in
      let closed = write_at-lt d (sub_size end start) 0 (omega arith) in
      (
        (true, record t { description = set d (sub_size end start) 0 }),
        rw (copied, closed) refl,
        length-set d (sub_size end start) 0 ∙ same ∙ room,
      )

  parse_description-Returns :
      (tipo_idx : ℕ) (t : Transaction)
      → length t.description ≡ 11
      → Returns (parse_description body tipo_idx t)
  unfolding parse_description
  parse_description-Returns tipo_idx t room =
      let start = add_size tipo_idx 18 in
      let end = find_char body b'"' start in
      elim (Bool-cases (end == npos)) [
        | inl lost ↦ ((false, t), rw lost refl, room)
        | inr found ↦
            let (order, inside_text) = found_at b'"' start found in
            let (c, at) = get_elem?-lt body.mem (end + 1) (omega (arith, mem_length)) in
            elim (Bool-cases (add_size end 2 == body.size)) [
              | inr other ↦ ((false, t), rw (found, other) refl, room)
              | inl ends ↦ elim (Bool-cases (c == b'}')) [
                | inr other ↦ ((false, t), rw (found, ends, at, other) refl, room)
                | inl brace ↦
                    elim (Bool-cases (ltb 10 (sub_size end start) || ltb (sub_size end start) 1)) [
                      | inl long ↦ ((false, t), rw (found, ends, at, brace, long) refl, room)
                      | inr short ↦
                          let (r, runs, kept) =
                            copy_description-Returns start end t order inside_text
                              (ground (arith, short)) room in
                          (r, rw (found, ends, at, brace, short) runs, kept)
                    ]
              ]
            ]
      ]

  parse_tipo-Returns :
      (comma : ℕ) (t : Transaction)
      → comma < length text
      → length t.description ≡ 11
      → Returns (parse_tipo body comma t)
  unfolding parse_tipo
  parse_tipo-Returns comma t inside_text room =
      let (c, at) = get_elem?-lt body.mem (add_size comma 11) (omega (arith, mem_length)) in
      elim (Bool-cases (not (c == b'c') && not (c == b'd'))) [
        | inl other ↦ ((false, t), rw (at, other) refl, room)
        | inr known ↦ elim (Bool-cases (c == b'd')) [
          | inl debit ↦
              let (r, runs, kept) =
                parse_description-Returns (add_size comma 11) (record t { value = neg_int t.value })
                  room in
              (r, rw (at, known, debit) runs, kept)
          | inr credit ↦
              let (r, runs, kept) = parse_description-Returns (add_size comma 11) t room in
              (r, rw (at, known, credit) runs, kept)
        ]
      ]

  pub parse_json_body-Returns :
      (t : Transaction) → length t.description ≡ 11 → Returns (parse_json_body body t)
  unfolding parse_json_body substring_to_int
  parse_json_body-Returns t room =
      let comma = find_char body b',' 10 in
      elim (Bool-cases (ltb (find_char body b'.' 10) comma || comma == npos)) [
        | inl refused ↦ ((false, t), rw refused refl, room)
        | inr found ↦
            let (order, inside_text) = found_at b',' 10 (ground (arith, found)) in
            let ((ok, z), digits) =
              to_int_loop-some body.mem (comma - 10) 10 (pos 0) (omega (arith, mem_length)) in
            elim (Bool-cases ok) [
              | inr bad ↦ ((false, record t { value = z }), rw (found, digits, bad) refl, room)
              | inl good ↦
                  let (r, runs, kept) =
                    parse_tipo-Returns comma (record t { value = z }) inside_text room in
                  (r, rw (found, digits, good) runs, kept)
            ]
      ]
